-- ===== src/Options.antt =====
-- helper/replay.c, `main` up to the opening of the trace file, and the global variables that the
-- options set. `getopt`, `atoi` and `fopen` are parameters. A string is the list of its character
-- codes, without the terminating zero.
pub mod Laws
use nvm_tools.Base.{
  ℕ, ◌+◌, ◌-◌, ◌^◌, Bool, true, false, ◌&&◌, List, [], ◌∷◌, ◌++◌, ltb, ◌==◌, if◌then◌else◌, length,
  Run, ok, exit, fault, ◌>>=◌,
}
use mathlib.Core.Bool.{not}
use nvm_tools.Trace.{Mode, write_only, read_write, append}
use nvm_tools.Parse.{TraceFormat, replay_fiu, replay_hitsz}

-- `RANDOM_NULL` and the others.
pub data GenerType : Type 0 where
  random_null random_mt19937ar random_stdlib random_lcg : GenerType

-- The global variables and `filepath`. An `int` is its 32-bit pattern.
pub record Config : Type 0 where
  pub filepath : List ℕ
  pub dstpath : List ℕ
  pub dump_read_path : List ℕ
  pub is_dump_read : Bool
  pub mode : Mode
  pub rand_gener_type : GenerType
  pub trace_format_type : TraceFormat
  pub max_continuous_blks : ℕ
  pub threads : ℕ
  pub verbose : Bool

-- Their initial values.
abbrev pub initial : Config
initial = record {
  filepath = [];
  dstpath = [];
  dump_read_path = [];
  is_dump_read = false;
  mode = write_only;
  rand_gener_type = random_null;
  trace_format_type = replay_fiu;
  max_continuous_blks = 1;
  threads = 1;
  verbose = false;
}

-- What `getopt` returns, with `optarg`.
pub data Opt : Type 0 where
  opt_f opt_d opt_o opt_g opt_c opt_t opt_m opt_r : List ℕ → Opt
  opt_v opt_h opt_bad : Opt

abbrev pub max_name_len : ℕ
max_name_len = 256

abbrev pub max_threads : ℕ
max_threads = 512

-- `'/'`.
abbrev pub slash : ℕ
slash = b'/'

-- `strcmp(a, b) == 0`.
unfoldable pub same : List ℕ → List ℕ → Bool
same [] [] = true
same [] (d ∷ b) = false
same (c ∷ a) [] = false
same (c ∷ a) (d ∷ b) = c == d && same a b

-- `strcpy` to an array of `MAX_NAME_LEN` characters.
unfoldable pub copy : List ℕ → Run (List ℕ)
copy s = if ltb (length s) max_name_len then ok s else fault

-- `path[strlen(path) - 1]`, before the array for an empty path.
unfoldable pub last_char : List ℕ → Run ℕ
last_char [] = fault
last_char (c ∷ []) = ok c
last_char (c ∷ d ∷ s) = last_char (d ∷ s)

-- The path of `-d` and of `-r`, with a slash at its end.
unfoldable pub set_directory : List ℕ → Run (List ℕ)
unfolding copy last_char
set_directory s = do
  path ← copy s
  c ← last_char path
  if not (c == slash) then copy (path ++ slash ∷ []) else ok path

-- A chain of tests against names, with what each name sets. Behind the last one, `return -1` from
-- `main` ends the program with status 255.
unfoldable pub named {ℓ} : {A : Type ℓ} → List (List ℕ × A) → List ℕ → Run A
unfolding same
named [] s = exit 255
named ((name, a) ∷ names) s = if same s name then ok a else named names s

-- The names of the modes, of the generators and of the formats.
abbrev pub modes : List (List ℕ × Mode)
modes = (b'w' ∷ [], write_only) ∷ (b'r' ∷ b'w' ∷ [], read_write) ∷ (b'a' ∷ [], append) ∷ []

abbrev pub geners : List (List ℕ × GenerType)
geners =
    (b'm' ∷ b't' ∷ b'1' ∷ b'9' ∷ b'9' ∷ b'3' ∷ b'7' ∷ b'a' ∷ b'r' ∷ [], random_mt19937ar)
    ∷ (b'r' ∷ b'a' ∷ b'n' ∷ b'd' ∷ [], random_stdlib)
    ∷ (b'l' ∷ b'c' ∷ b'g' ∷ [], random_lcg)
    ∷ (b'n' ∷ b'u' ∷ b'l' ∷ b'l' ∷ [], random_null)
    ∷ []

abbrev pub formats : List (List ℕ × TraceFormat)
formats =
    (b'f' ∷ b'i' ∷ b'u' ∷ [], replay_fiu)
    ∷ (b'h' ∷ b'i' ∷ b't' ∷ b's' ∷ b'z' ∷ [], replay_hitsz)
    ∷ []

-- An `int` that is assigned to an `unsigned long`.
abbrev pub widen : ℕ → ℕ
widen n = if ltb n (2 ^ 31) then n else n + (2 ^ 64 - 2 ^ 32)

-- `threads > MAX_THREADS` on `int`.
abbrev pub too_many : ℕ → Bool
too_many threads = ltb threads (2 ^ 31) && ltb max_threads threads

-- The `switch` on one option. With `-v` before it, `-r` prints by `%s` without an argument for it.
unfoldable pub set_option : (List ℕ → ℕ) → Opt → Config → Run Config
unfolding copy set_directory named
set_option atoi (opt_f s) c = do path ← copy s; ok (record c { filepath = path })
set_option atoi (opt_d s) c = do path ← set_directory s; ok (record c { dstpath = path })
set_option atoi (opt_o s) c = do name ← copy s; m ← named modes name; ok (record c { mode = m })
set_option atoi (opt_g s) c = do
  name ← copy s
  g ← named geners name
  ok (record c { rand_gener_type = g })
set_option atoi (opt_c s) c = ok (record c { max_continuous_blks = widen (atoi s) })
set_option atoi (opt_t s) c = ok (record c { threads = atoi s })
set_option atoi (opt_m s) c = do
  name ← copy s
  f ← named formats name
  ok (record c { trace_format_type = f })
set_option atoi (opt_r s) c = do
  path ← set_directory s
  if c.verbose then fault else ok (record c { is_dump_read = true; dump_read_path = path })
set_option atoi opt_v c = ok (record c { verbose = true })
set_option atoi opt_h c = exit 1
set_option atoi opt_bad c = exit 1

-- The loop over the options.
pub set_options : (List ℕ → ℕ) → List Opt → Config → Run Config
set_options atoi [] c = ok c
set_options atoi (o ∷ opts) c = do c' ← set_option atoi o c; set_options atoi opts c'

-- The tests behind the loop.
unfoldable pub check_config : (List ℕ → Bool) → Config → Run Config
check_config fopens c =
    if length c.filepath == 0
    then exit 1
    else if length c.dstpath == 0
    then exit 1
    else if not (fopens c.filepath)
    then exit 1
    else if too_many c.threads
    then exit 1
    else ok c

-- What `main` does before it parses the trace.
unfoldable pub main_options : (List ℕ → ℕ) → (List ℕ → Bool) → List Opt → Run Config
unfolding set_options set_option check_config
main_options atoi fopens opts = do c ← set_options atoi opts initial; check_config fopens c
