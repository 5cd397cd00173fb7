-- ===== src/Interference.antt =====
-- helper/rw_interference.cpp: readers, which write blocks that are on the disk already, and writers,
-- which write new ones, against each other.
pub mod Stages
pub mod Tasks
pub mod Files
pub mod Threads
pub mod Whole
use nvm_tools.Base.{
  ℕ, zero, suc, ◌+◌, ◌*◌, ◌/◌, ◌%◌, ◌^◌, Bool, true, false, Option, none, some, List, [], ◌∷◌, ◌++◌,
  ◌==◌, if◌then◌else◌, length, Run, ok, ◌>>=◌, load, store, sub64,
}
use mathlib.Core.Bool.{not}
use nvm_tools.Fill.{le_bytes}
use nvm_tools.Worker.{Ret, failed, count}
use nvm_tools.Paths.{decimal}

-- `struct rw_interference_task`.
pub record Task : Type 0 where
  pub start_magic : ℕ
  pub num_blocks : ℕ
  pub progress : ℕ
  pub id : ℕ
  pub dup : Bool

-- `MO_READ_LAT` and `MO_WRITE_LAT`.
abbrev pub mo_read_lat : ℕ
mo_read_lat = 1

abbrev pub mo_write_lat : ℕ
mo_write_lat = 2

-- The numbers of blocks of all readers and of all writers. `ratio n` is `n * PREDEFINED_RATIO`, a
-- product in floating point, converted back.
unfoldable pub split_blocks : (ℕ → ℕ) → ℕ → ℕ → ℕ → ℕ → ℕ × ℕ
split_blocks ratio reader_num writer_num total_num_blocks measurement_object =
    if reader_num == 0
    then (0, total_num_blocks)
    else if writer_num == 0
    then (total_num_blocks, 0)
    else if measurement_object == mo_read_lat
    then (ratio total_num_blocks, sub64 total_num_blocks (ratio total_num_blocks))
    else (sub64 total_num_blocks (ratio total_num_blocks), ratio total_num_blocks)

-- `num == 0 ? 0 : total / num`.
abbrev pub share_of : ℕ → ℕ → ℕ
share_of total num = if num == 0 then 0 else total / num

-- The fields that both loops set, in their order.
abbrev pub new_task : Bool → ℕ → ℕ → ℕ → Task
new_task dup start_magic num_blocks id = record {
  start_magic = start_magic;
  num_blocks = num_blocks;
  progress = 0;
  id = id;
  dup = dup;
}

-- A loop that assigns tasks, with `rounds` rounds left at `i`: what it returns, and the list.
-- `malloc n` says whether there is memory for the task behind `n` others. The loop over the readers
-- has `dup` and the first id 0.
pub assign_tasks : (ℕ → Bool) → Bool → ℕ → ℕ → ℕ → ℕ → ℕ → List Task → Bool × List Task
assign_tasks malloc dup first_id num_blocks zero i start_magic tasks = (true, tasks)
assign_tasks malloc dup first_id num_blocks (suc rounds) i start_magic tasks =
    let task = new_task dup start_magic num_blocks ((i + first_id) % 2 ^ 32) in
    let rest =
      assign_tasks malloc dup first_id num_blocks rounds (i + 1)
        ((start_magic + num_blocks) % 2 ^ 64) (tasks ++ task ∷ []) in
    if malloc (length tasks) then rest else (false, tasks)

-- `make_tasks` on an empty list: whether it returns 0, and the list.
unfoldable pub make_tasks : (ℕ → ℕ) → (ℕ → Bool) → ℕ → ℕ → ℕ → ℕ → Bool × List Task
unfolding split_blocks assign_tasks
make_tasks ratio malloc reader_num writer_num total_num_blocks measurement_object =
    if (reader_num + writer_num) % 2 ^ 32 == 0
    then (false, [])
    else let (total_reader, total_writer) =
        split_blocks ratio reader_num writer_num total_num_blocks measurement_object in
      let (made, readers) =
        assign_tasks malloc true 0 (share_of total_reader reader_num) reader_num 0 0 [] in
      if made
      then assign_tasks malloc false reader_num (share_of total_writer writer_num) writer_num 0
          total_num_blocks readers
      else (false, readers)

-- The calls on the files: `open` with `O_CREAT`, by path, and `write`; and the bytes that were
-- written through the descriptor.
pub record Fs : Type 1 where
  pub File : Type 0
  pub open_file : List ℕ → Option File
  pub write : File → List ℕ → File × Ret
  pub written : File → List ℕ

-- The variables of the loop of `make_file`, and whether a `write` failed.
pub record Making (F : Type 0) : Type 0 where
  pub file : F
  pub buf : List ℕ
  pub progress : ℕ
  pub broken : Bool

-- The file, if it was opened, what `*progress` holds, and whether `make_file` returns 0.
pub record Made (F : Type 0) : Type 0 where
  pub file : Option F
  pub progress : ℕ
  pub done : Bool

-- An `unsigned long` in memory, on a little-endian machine.
unfoldable pub long_bytes : ℕ → List ℕ
unfolding le_bytes
long_bytes w = le_bytes (w % 2 ^ 32) ++ le_bytes (w / 2 ^ 32)

-- `buf[i] = w` for the words of the buffer.
pub fill_buffer : ℕ → ℕ → ℕ → List ℕ → Run (List ℕ)
fill_buffer zero i w buf = ok buf
fill_buffer (suc rounds) i w buf = do
  buf' ← store buf (i * 8) (long_bytes w)
  fill_buffer rounds (i + 1) w buf'

module _ (fs : Fs) (malloc : ℕ → Option (List ℕ)) (granularity : ℕ) where
  -- The loop over the blocks, with `rounds` rounds left at `block`.
  pub make_blocks : ℕ → ℕ → ℕ → Making fs.File → Run (Making fs.File)
  make_blocks start_magic zero block s = ok s
  make_blocks start_magic (suc rounds) block s = do
    buf ← fill_buffer (granularity / 8) 0 ((start_magic + block) % 2 ^ 64) s.buf
    bytes ← load buf 0 granularity
    let (file, ret) = fs.write s.file bytes
    elim ret [
      | failed ↦ ok (record s { file = file; buf = buf; broken = true })
      | count n ↦
          make_blocks start_magic rounds (block + 1)
            (record s { file = file; buf = buf; progress = block + 1 })
    ]

  -- `make_file`. A thread that is cancelled makes `rounds` rounds of the loop, any other all
  -- `num_blocks`.
  unfoldable pub make_file : List ℕ → ℕ → ℕ → Run (Made fs.File)
  unfolding make_blocks fill_buffer
  make_file path rounds start_magic = elim (fs.open_file path) [
    | none ↦ ok (record { file = none; progress = 0; done = false })
    | some file ↦ elim (malloc granularity) [
      | none ↦ ok (record { file = some file; progress = 0; done = false })
      | some buf ↦ do
        s ←
            make_blocks start_magic rounds 0
              (record { file = file; buf = buf; progress = 0; broken = false })
        ok (record { file = some s.file; progress = s.progress; done = not s.broken })
    ]
  ]
