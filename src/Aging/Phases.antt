-- ===== src/Aging/Phases.antt =====
-- helper/aging_system.c: the options, phases 1 and 3, which write files, and the phases in a row.
use nvm_tools.Base.{
  ℕ, ◌+◌, ◌-◌, ◌*◌, ◌/◌, ◌%◌, ◌^◌, Bool, ◌||◌, Option, none, some, List, [], ◌∷◌, ◌++◌, ltb, ◌==◌,
  if◌then◌else◌, length, take, Run, ok, exit, fault, ◌>>=◌,
}
use nvm_tools.Options.{slash, last_char, widen}
use nvm_tools.Interference.{Fs}
use nvm_tools.Pages.{step, page_size, write_steps}
use nvm_tools.Aging.{Punching, punch_phase}

-- The variables that the options set; `filepath` has an initial value, the others have none. An
-- `int` is its 32-bit pattern.
pub record AgingParams : Type 0 where
  pub filepath : List ℕ
  pub dirlen : ℕ
  pub size : ℕ
  pub hole_percent : ℕ
  pub phase : ℕ

-- What `getopt` returns, with `optarg`.
pub data AgingOpt : Type 0 where
  opt_d opt_s opt_o opt_p : List ℕ → AgingOpt
  opt_h opt_bad : AgingOpt

-- `strlen(optarg)`, less one if there is a slash to drop.
unfoldable pub dir_length : List ℕ → Run ℕ
unfolding last_char
dir_length s =
    if ltb 1 (length s)
    then (do c ← last_char s; ok (if c == slash then length s - 1 else length s))
    else ok (length s)

-- A string in an array of 128 characters.
unfoldable pub fit_path : List ℕ → Run (List ℕ)
fit_path s = if ltb (length s) 128 then ok s else fault

unfoldable pub set_aging : (List ℕ → ℕ) → (List ℕ → ℕ) → AgingOpt → AgingParams → Run AgingParams
unfolding dir_length fit_path
set_aging atol atoi (opt_d s) p = do
  n ← dir_length s
  path ← fit_path s
  ok (record p { filepath = path; dirlen = n })
set_aging atol atoi (opt_s s) p = ok (record p { size = atol s })
set_aging atol atoi (opt_o s) p = ok (record p { hole_percent = atoi s })
set_aging atol atoi (opt_p s) p = ok (record p { phase = atoi s })
set_aging atol atoi opt_h p = exit 1
set_aging atol atoi opt_bad p = exit 1

pub set_agings : (List ℕ → ℕ) → (List ℕ → ℕ) → List AgingOpt → AgingParams → Run AgingParams
set_agings atol atoi [] p = ok p
set_agings atol atoi (o ∷ opts) p = do p' ← set_aging atol atoi o p; set_agings atol atoi opts p'

-- `strcpy(filepath + dirlen, "/file1")`, and `"/file2"`: the digit is the argument.
unfoldable pub file_path : AgingParams → ℕ → Run (List ℕ)
unfolding fit_path
file_path p digit =
    fit_path (take p.dirlen p.filepath ++ b'/' ∷ b'f' ∷ b'i' ∷ b'l' ∷ b'e' ∷ digit ∷ [])

-- `phase == n || phase == 4`.
abbrev pub in_phase : AgingParams → ℕ → Bool
in_phase p n = p.phase == n || p.phase == 4

-- What the phases leave.
pub record Aged (F : Type 0) : Type 0 where
  pub file1 : Option F
  pub punching : Option Punching
  pub file2 : Option F

module _ (fs : Fs) (exists_file : List ℕ → Bool) (genrand : ℕ → ℕ → ℕ) where
  -- Phases 1 and 3: a file of `rounds` steps, with numbers from `v` on; the file, and the buffer.
  unfoldable pub fill_file : ℕ → ℕ → List ℕ → List ℕ → Run (fs.File × List ℕ)
  fill_file v rounds path buf = elim (fs.open_file path) [
    | none ↦ exit 1
    | some file ↦ write_steps fs rounds v buf file
  ]

  -- `size`, in bytes.
  abbrev pub size_bytes : AgingParams → ℕ
  size_bytes p = p.size * 2 ^ 30 % 2 ^ 64

  unfoldable pub phase_1 : AgingParams → List ℕ → Run (Option fs.File × List ℕ)
  unfolding fill_file file_path
  phase_1 p buf =
      if in_phase p 1
      then (do
        path ← file_path p (b'1')
        (file, buf') ← fill_file (size_bytes p / page_size) (size_bytes p / step) path buf
        ok (some file, buf'))
      else ok (none, buf)

  -- The generator is seeded with `MAGIC_RAND + phase`, and called by this phase alone. The loop has
  -- `f` rounds.
  unfoldable pub phase_2 : ℕ → AgingParams → Run (Option Punching)
  unfolding file_path
  phase_2 f p =
      if in_phase p 2
      then (do
        path ← file_path p (b'1')
        if exists_file path
            then (do
              s ←
                  punch_phase f (genrand ((2333 + p.phase) % 2 ^ 32)) (size_bytes p / page_size)
                    (widen p.hole_percent)
              ok (some s))
            else exit 1)
      else ok none

  unfoldable pub phase_3 : AgingParams → List ℕ → Run (Option fs.File)
  unfolding fill_file file_path
  phase_3 p buf =
      if in_phase p 3
      then (do
        path ← file_path p (b'2')
        (file, buf') ←
            fill_file (3 * (size_bytes p / page_size) % 2 ^ 64)
              (size_bytes p / step * widen p.hole_percent % 2 ^ 64 / 100) path buf
        ok (some file))
      else ok none

  -- `main` behind the options.
  unfoldable pub aging_system : ℕ → AgingParams → List ℕ → Run (Aged fs.File)
  aging_system f p buf = do
    (file1, buf') ← phase_1 p buf
    punching ← phase_2 f p
    file2 ← phase_3 p buf'
    ok (record { file1 = file1; punching = punching; file2 = file2 })
