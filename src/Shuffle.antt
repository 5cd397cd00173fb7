-- ===== src/Shuffle.antt =====
-- helper/shuffle_and_write.cpp: the blocks of a file are written to another file in a random order.
pub mod Pick
pub mod Laws
use nvm_tools.Base.{
  ℕ, zero, suc, ◌+◌, ◌*◌, ◌/◌, ◌^◌, Bool, true, false, Option, none, some, List, ltb, ◌==◌,
  if◌then◌else◌, length, replicate, set, Run, ok, exit, fault, ◌>>=◌, fetch, load, store,
}
use nvm_tools.Interference.{Fs}

-- The file that is read: `read(fd, p, n)` gives the bytes that were read, which are none at the end
-- of the file and on an error, and `size` is `st_size`.
pub record Source : Type 1 where
  pub File : Type 0
  pub size : File → ℕ
  pub read : File → ℕ → File × List ℕ

-- `while (pos < num_blocks) map[pos] = pos`, with `rounds` rounds left.
pub init_map : ℕ → ℕ → List ℕ → Run (List ℕ)
init_map zero pos map = ok map
init_map (suc rounds) pos map =
    if ltb pos (length map) then init_map rounds (pos + 1) (set map pos pos) else fault

-- `size / granularity == 0 ? 1 : size / granularity`.
unfoldable pub block_count : ℕ → ℕ → Run ℕ
block_count size granularity =
    if granularity == 0
    then fault
    else ok (if size / granularity == 0 then 1 else size / granularity)

-- What a test that fails ends in.
abbrev pub proceed : Bool → Run (Unit {0}) → Run (Unit {0})
proceed true stop = ok tt
proceed false stop = stop

module _ (src : Source) (fs : Fs) where
  -- The loop of `read`, at block `i`; what `read` returns is dropped.
  pub read_blocks : ℕ → ℕ → ℕ → src.File → List ℕ → Run (List ℕ)
  read_blocks granularity zero i file buf = ok buf
  read_blocks granularity (suc rounds) i file buf = do
    let (file', bytes) = src.read file granularity
    buf' ← store buf (i * granularity) bytes
    read_blocks granularity rounds (i + 1) file' buf'

  -- The loop of `write`, at block `i`; what `write` returns is dropped.
  pub write_blocks : ℕ → List ℕ → ℕ → ℕ → fs.File → List ℕ → Run fs.File
  write_blocks granularity map zero i file buf = ok file
  write_blocks granularity map (suc rounds) i file buf = do
    m ← fetch map i
    bytes ← load buf (m * granularity) granularity
    write_blocks granularity map rounds (i + 1) (fs.write file bytes).0 buf

  -- `main` behind the options, where both files are open. `malloc n` are the bytes that `malloc`
  -- gives for the large buffer, `map_memory` says whether there is memory for the map, and `shuffle`
  -- is `std::random_shuffle`. The counters are of type `int` and must not overflow.
  unfoldable pub shuffle_and_write :
      Bool → (ℕ → Option (List ℕ)) → (List ℕ → List ℕ) → ℕ → src.File → fs.File → Run fs.File
  unfolding block_count init_map read_blocks write_blocks
  shuffle_and_write map_memory malloc shuffle granularity file out = do
    num_blocks ← block_count (src.size file) granularity
    _ ← proceed map_memory (exit 1)
    _ ← proceed (ltb num_blocks (2 ^ 31)) fault
    map ← init_map num_blocks 0 (replicate num_blocks 0)
    elim (malloc (granularity * num_blocks)) [
      | none ↦ exit 1
      | some large ↦ do
        buf ← read_blocks granularity num_blocks 0 file large
        write_blocks granularity (shuffle map) num_blocks 0 out buf
    ]
