-- ===== src/Pages.antt =====
-- helper/write_1G.c, and what it shares with helper/aging_system.c: pages of 4 KiB that hold one
-- number, written to a file in steps of 2 MiB.
pub mod Laws
use nvm_tools.Base.{
  ℕ, zero, suc, ◌+◌, ◌-◌, ◌*◌, ◌/◌, ◌%◌, ◌^◌, Bool, none, some, List, [], ◌∷◌, ◌++◌, ltb, leb, ◌==◌,
  if◌then◌else◌, length, Run, ok, exit, fault, ◌>>=◌, load, store,
}
use nvm_tools.Interference.{Fs, long_bytes}
use nvm_tools.Worker.{Ret, failed, count}

-- `STEP`, `PAGE_SIZE` and `SIZE`.
abbrev pub step : ℕ
step = 2097152

abbrev pub page_size : ℕ
page_size = 4096

abbrev pub size_1G : ℕ
size_1G = 1073741824

-- `while (buf != limit)` of `fill_page`, with `rounds` words left, the next one at offset `at`.
pub fill_page_from : ℕ → ℕ → ℕ → List ℕ → Run (List ℕ)
fill_page_from zero at v buf = ok buf
fill_page_from (suc rounds) at v buf = do
  buf' ← store buf at (long_bytes v)
  fill_page_from rounds (at + 8) v buf'

-- `fill_page(buf + at, v)`.
unfoldable pub fill_page : ℕ → ℕ → List ℕ → Run (List ℕ)
unfolding fill_page_from
fill_page at v buf = fill_page_from (page_size / 8) at v buf

-- The loop over the pages of a step, with `rounds` pages left at `j`: `v`, and the buffer.
pub fill_pages : ℕ → ℕ → ℕ → List ℕ → Run (ℕ × List ℕ)
fill_pages zero j v buf = ok (v, buf)
fill_pages (suc rounds) j v buf = do
  buf' ← fill_page j v buf
  fill_pages rounds (j + page_size) ((v + 1) % 2 ^ 64) buf'

-- `"/mnt/pmem0/test"`.
abbrev pub fname_base : List ℕ
fname_base =
    b'/' ∷ b'm' ∷ b'n' ∷ b't' ∷ b'/' ∷ b'p' ∷ b'm' ∷ b'e' ∷ b'm' ∷ b'0' ∷ b'/' ∷ b't' ∷ b'e' ∷ b's'
    ∷ b't' ∷ []

-- `atoi(argv[1]) * (SIZE / PAGE_SIZE)`, a product of `int` that is assigned to a `uint64_t`. An
-- `int` is its 32-bit pattern.
unfoldable pub first_page : ℕ → Run ℕ
first_page seed =
    if ltb seed (2 ^ 13)
    then ok (seed * (size_1G / page_size))
    else if ltb seed (2 ^ 32 - 2 ^ 13)
    then fault
    else ok (2 ^ 64 - (2 ^ 32 - seed) * (size_1G / page_size))

module _ (fs : Fs) where
  -- `write(fd, buf, STEP)` and the tests of what it returns.
  unfoldable pub write_step : fs.File → List ℕ → Run fs.File
  write_step file buf = do
    bytes ← load buf 0 step
    let (file', ret) = fs.write file bytes
    elim ret [ failed ↦ exit 1 | count n ↦ if n == step then ok file' else exit 1 ]

  -- The loop over the steps: the file, and the buffer.
  pub write_steps : ℕ → ℕ → List ℕ → fs.File → Run (fs.File × List ℕ)
  write_steps zero v buf file = ok (file, buf)
  write_steps (suc rounds) v buf file = do
    (v', buf') ← fill_pages (step / page_size) 0 v buf
    file' ← write_step file buf'
    write_steps rounds v' buf' file'

  -- `main` on its one argument: the file. `exists_file` says whether the first `open`, without
  -- `O_CREAT`, succeeds.
  unfoldable pub write_1G : (List ℕ → ℕ) → (List ℕ → Bool) → List ℕ → List ℕ → Run fs.File
  unfolding first_page
  write_1G atoi exists_file buf arg =
      let fname = fname_base ++ arg in
      if leb 100 (length fname)
      then fault
      else if exists_file fname
      then exit 1
      else elim (fs.open_file fname) [
        | none ↦ exit 1
        | some file ↦ do
          v ← first_page (atoi arg)
          (file', buf') ← write_steps (size_1G / step) v buf file
          ok file'
      ]
