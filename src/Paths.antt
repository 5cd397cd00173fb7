-- ===== src/Paths.antt =====
-- The decimal numbers that `sprintf` prints, and the names of the workers' files that
-- `assign_params_per_worker` of helper/replay.c makes with them.
pub mod Laws
use nvm_tools.Base.{
  ℕ, zero, suc, ◌+◌, ◌/◌, ◌%◌, List, [], ◌∷◌, ◌++◌, ltb, if◌then◌else◌, length, Run, ok, fault,
}
use nvm_tools.Options.{max_name_len}

-- `%d` and `%lu`: the digits before `rest`. A 64-bit number has 20 digits at most.
pub digits_before : ℕ → ℕ → List ℕ → List ℕ
digits_before zero n rest = rest
digits_before (suc f) n rest =
    let shorter = digits_before f (n / 10) ((b'0' + n % 10) ∷ rest) in
    if ltb n 10 then (b'0' + n) ∷ rest else shorter

unfoldable pub decimal : ℕ → List ℕ
unfolding digits_before
decimal n = digits_before 20 n []

-- A string is printed behind `path`, in an array of `MAX_NAME_LEN` characters with a terminating
-- zero.
unfoldable pub print_behind : List ℕ → List ℕ → Run (List ℕ)
print_behind path s = if ltb (length (path ++ s)) max_name_len then ok (path ++ s) else fault

-- `"trace_%d"` behind the directory, and `"dump_read_%d"`.
abbrev pub trace_name : ℕ → List ℕ
trace_name i = b't' ∷ b'r' ∷ b'a' ∷ b'c' ∷ b'e' ∷ b'_' ∷ decimal i

abbrev pub dump_name : ℕ → List ℕ
dump_name i = b'd' ∷ b'u' ∷ b'm' ∷ b'p' ∷ b'_' ∷ b'r' ∷ b'e' ∷ b'a' ∷ b'd' ∷ b'_' ∷ decimal i

unfoldable pub dstfilepath : List ℕ → ℕ → Run (List ℕ)
unfolding print_behind
dstfilepath dstpath i = print_behind dstpath (trace_name i)

unfoldable pub drfilepath : List ℕ → ℕ → Run (List ℕ)
unfolding print_behind
drfilepath dump_read_path i = print_behind dump_read_path (dump_name i)
