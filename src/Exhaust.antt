-- ===== src/Exhaust.antt =====
-- helper/exhaust_nvmm.c: blocks of random words are written until the device takes no more.
pub mod Laws
use nvm_tools.Base.{
  ℕ, zero, suc, ◌+◌, ◌*◌, ◌/◌, Bool, false, Option, none, some, List, ◌==◌, if◌then◌else◌,
  replicate, Run, ok, exit, fault, ◌>>=◌, load, store,
}
use nvm_tools.Fill.{le_bytes}
use nvm_tools.Worker.{Ret, failed, count}
use nvm_tools.Interference.{Fs}

-- `STEP`.
abbrev pub block_bytes : ℕ
block_bytes = 4096

-- The loop of `fill_buf`, with `rounds` words left at `i`; `rand` is the n-th call of
-- `genrand_int32`, and `calls` the number of those before.
pub fill_buf_from : (ℕ → ℕ) → ℕ → ℕ → ℕ → List ℕ → Run (List ℕ)
fill_buf_from rand zero i calls buf = ok buf
fill_buf_from rand (suc rounds) i calls buf = do
  buf' ← store buf (i * 4) (le_bytes (rand calls))
  fill_buf_from rand rounds (i + 1) (calls + 1) buf'

unfoldable pub fill_buf : (ℕ → ℕ) → ℕ → List ℕ → Run (List ℕ)
unfolding fill_buf_from
fill_buf rand calls buf = fill_buf_from rand (block_bytes / 4) 0 calls buf

-- `ret == STEP`.
unfoldable pub is_full : Ret → Bool
is_full failed = false
is_full (count n) = n == block_bytes

module _ (fs : Fs) (rand : ℕ → ℕ) where
  -- `while (1)`: `block_cnt`, and the file.
  pub exhaust_from : ℕ → ℕ → ℕ → fs.File → List ℕ → Run (ℕ × fs.File)
  exhaust_from zero calls block_cnt file buf = fault
  exhaust_from (suc f) calls block_cnt file buf = do
    buf' ← fill_buf rand calls buf
    bytes ← load buf' 0 block_bytes
    let (file', ret) = fs.write file bytes
    let rest = exhaust_from f (calls + block_bytes / 4) (block_cnt + 1) file' buf'
    if is_full ret then rest else ok (block_cnt, file')

  -- `main`: the number of blocks that it prints, if it gets to it. `exists_file` says whether the
  -- first `open`, without `O_CREAT`, succeeds.
  unfoldable pub exhaust_nvmm : ℕ → Bool → List ℕ → Run (Option (ℕ × fs.File))
  exhaust_nvmm f exists_file path = if exists_file then ok none else elim (fs.open_file path) [
    | none ↦ exit 1
    | some file ↦ do r ← exhaust_from f 0 0 file (replicate block_bytes 0); ok (some r)
  ]
