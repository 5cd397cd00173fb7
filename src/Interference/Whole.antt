-- ===== src/Interference/Whole.antt =====
-- helper/rw_interference.cpp as a whole: both stages behind the options.
use nvm_tools.Base.{
  All-join, ℕ, ◌+◌, ◌*◌, ◌/◌, ◌%◌, ◌^◌, ◌<◌, ◌≤◌, ◌≡◌, refl, sym, ap, subst, ◌∙◌, Bool, true, false,
  Option, some, List, [], ◌∷◌, ◌==◌, length, All, ok, Returns, arith,
}
use native.Mathlib.Nat.{div-le_self}
use nvm_tools.Interference.{Task, Fs, Made, make_tasks}
use nvm_tools.Interference.Tasks.{
  all_blocks, all_blocks-append, Follow, IsKind, SplitsIo, make_tasks_lem,
}
use mathlib.Core.Bool.{true≢false}
use nvm_tools.Interference.Files.{IsWritable}
use nvm_tools.Interference.Stages.{
  Thread, thread_progress, Ending, Params, num_readers, prepare_workload, run, processed_blocks,
  blocks_of_io, run_stages,
}
use nvm_tools.Interference.Threads.{
  Prepared, RanAll, prepare_from_lem, run_threads_lem, Ran-bounded, readers-Kinds,
  num_readers-append, Kinds,
}

-- A reader's blocks are among the first `prepared` blocks, a writer's are not.
abbrev pub Placed : ℕ → Task → Type 0
Placed prepared t =
    (t.dup ≡ true → t.start_magic + t.num_blocks ≤ prepared)
    × (t.dup ≡ false → prepared ≤ t.start_magic)

-- The progress of all threads of stage 2.
abbrev pub progress_of : {F : Type 0} → List (Thread F) → ℕ
progress_of [] = 0
progress_of (m ∷ ms) = thread_progress m + progress_of ms

readers-Placed :
    (prepared from : ℕ) (ts : List Task)
    → All (IsKind true) ts
    → Follow from ts
    → from + all_blocks ts ≤ prepared
    → All (Placed prepared) ts
readers-Placed prepared from [] a f h = tt
readers-Placed prepared from (t ∷ ts) a f h = (
  (λ e. omega (arith, f.0), λ e. absurd (true≢false (sym a.0.0 ∙ e))),
  readers-Placed prepared (from + t.num_blocks) ts a.1 f.1 (omega arith),
)

writers-Placed :
    (prepared from : ℕ) (ts : List Task)
    → All (IsKind false) ts
    → Follow from ts
    → prepared ≤ from
    → All (Placed prepared) ts
writers-Placed prepared from [] a f h = tt
writers-Placed prepared from (t ∷ ts) a f h = (
  (λ e. absurd (true≢false (sym e ∙ a.0.0)), λ e. omega (arith, f.0)),
  writers-Placed prepared (from + t.num_blocks) ts a.1 f.1 (omega arith),
)

-- No magic number of a task wraps.
Follow-bounded :
    (limit from : ℕ) (ts : List Task)
    → Follow from ts
    → from + all_blocks ts ≤ limit
    → All (λ (t : Task). t.start_magic + t.num_blocks ≤ limit) ts
Follow-bounded limit from [] f h = tt
Follow-bounded limit from (t ∷ ts) f h =
    (omega (arith, f.0), Follow-bounded limit (from + t.num_blocks) ts f.1 (omega arith))

SplitsIo-Placed :
    (r w total : ℕ) (tasks : List Task)
    → SplitsIo r w total tasks
    → All (Placed (all_blocks tasks)) tasks
SplitsIo-Placed r w total tasks s =
    let sum : all_blocks tasks ≡ all_blocks s.readers + all_blocks s.writers =
      ap all_blocks s.both ∙ all_blocks-append s.readers s.writers in
    subst (All (Placed (all_blocks tasks))) (sym s.both) (
      All-join (Placed (all_blocks tasks)) s.readers s.writers
        (readers-Placed (all_blocks tasks) 0 s.readers s.read s.read_first (omega (arith, sum)))
        (writers-Placed (all_blocks tasks) total s.writers s.written s.written_behind
          (omega (arith, s.bounded))))

SplitsIo-bounded :
    (r w total : ℕ) (tasks : List Task)
    → SplitsIo r w total tasks
    → total < 2 ^ 63
    → All (λ (t : Task). t.start_magic + t.num_blocks ≤ 2 ^ 64) tasks
SplitsIo-bounded r w total tasks s small =
    let sum : all_blocks tasks ≡ all_blocks s.readers + all_blocks s.writers =
      ap all_blocks s.both ∙ all_blocks-append s.readers s.writers in
    subst (All (λ (t : Task). t.start_magic + t.num_blocks ≤ 2 ^ 64)) (sym s.both) (
      All-join (λ (t : Task). t.start_magic + t.num_blocks ≤ 2 ^ 64) s.readers s.writers
        (Follow-bounded (2 ^ 64) 0 s.readers s.read_first (omega (arith, sum, s.bounded)))
        (Follow-bounded (2 ^ 64) total s.writers s.written_behind (omega (arith, sum, s.bounded))))

module _ (fs : Fs) (laws : IsWritable fs) (malloc : ℕ → Option (List ℕ)) (words : ℕ) (buf : List ℕ)
    (mem : malloc (8 * words) ≡ some buf) (size : length buf ≡ 8 * words) (dirpath : List ℕ)
    (short : length dirpath ≤ 100) where
  counted_blocks :
      (mo : ℕ) (ts : List Task) (ms : List (Thread fs.File))
      → RanAll fs laws malloc words buf mem size dirpath short mo ts ms
      → all_blocks ts < 2 ^ 64
      → (processed_blocks ms ≡ progress_of ms) × (progress_of ms ≤ all_blocks ts)
  counted_blocks mo [] [] a h = (refl, omega arith)
  counted_blocks mo [] (m ∷ ms) a h = absurd a
  counted_blocks mo (t ∷ ts) [] a h = absurd a
  counted_blocks mo (t ∷ ts) (m ∷ ms) a h =
      let (same, few) = counted_blocks mo ts ms a.1 (omega arith) in
      let one = Ran-bounded fs laws malloc words buf mem size dirpath short mo t m a.0 in
      (omega (arith, same, few, one), omega (arith, few, one))

  -- What both stages leave of the tasks that share out `total` blocks.
  pub record Interferes (reader_num writer_num total mo : ℕ) (prepared : List (Made fs.File))
      (made : List (Thread fs.File)) (processed : ℕ) : Type 0 where
    pub tasks : List Task
    pub split : SplitsIo reader_num writer_num total tasks
    pub placed : All (Placed (all_blocks tasks)) tasks
    pub stage_1 : Prepared fs laws malloc words buf mem size dirpath short 0 tasks prepared
    pub stage_2 : RanAll fs laws malloc words buf mem size dirpath short mo tasks made
    pub counted : processed ≡ progress_of made
    pub bounded : processed ≤ total

  stages_lem :
      (endings : ℕ → Ending) (r w total mo : ℕ) (tasks : List Task)
      → ((j : ℕ) → (endings j).late ≡ false)
      → SplitsIo r w total tasks
      → total < 2 ^ 63
      → Returns (prepare_workload fs malloc dirpath (8 * words) tasks) (λ prepared.
        Returns
          (run fs malloc dirpath (8 * words) true endings mo tasks)
          (λ x. Interferes r w total mo prepared x.0 x.1))
  unfolding prepare_workload run
  stages_lem endings r w total mo tasks fresh s small =
      let (prepared, ran, p) =
        prepare_from_lem fs laws malloc words buf mem size dirpath short 0 0 tasks
          (omega (arith, s.bounded)) in
      let kinds =
        subst (Kinds r 0) (sym s.both) (
          readers-Kinds r 0 s.readers s.writers (omega (arith, s.reader_count)) s.read s.written) in
      let readers : num_readers tasks ≡ r =
        ap num_readers s.both
        ∙ num_readers-append s.readers s.writers s.read s.written
        ∙ s.reader_count in
      let (made, threads, x) =
        run_threads_lem fs laws malloc words buf mem size dirpath short endings mo r 0 tasks fresh
          kinds (SplitsIo-bounded r w total tasks s small) in
      let (same, few) = counted_blocks mo tasks made x (omega (arith, s.bounded)) in
      (
        prepared,
        rw (prepare_workload, ran) refl,
        (
          (made, processed_blocks made),
          rw (run, readers, threads) refl,
          record {
            tasks = tasks;
            split = s;
            placed = SplitsIo-Placed r w total tasks s;
            stage_1 = p;
            stage_2 = x;
            counted = same;
            bounded = omega (arith, same, few, s.bounded);
          },
        ),
      )

blocks_of_io_lem :
    (total_io granularity : ℕ)
    → 0 < granularity
    → total_io < 2 ^ 33
    → blocks_of_io total_io granularity ≡ ok (total_io * 2 ^ 30 / granularity)
unfolding blocks_of_io
blocks_of_io_lem total_io granularity pos io =
    let divides : (granularity == 0) ≡ false = ground arith in
    let small : total_io * 2 ^ 30 % 2 ^ 64 ≡ total_io * 2 ^ 30 = omega arith in
    rw (divides, small) refl

-- The steps of both stages, put together.
run_stages_steps :
    (fs : Fs) (ratio : ℕ → ℕ) (task_memory : ℕ → Bool) (malloc : ℕ → Option (List ℕ))
    (endings : ℕ → Ending) (p : Params) (size total : ℕ) (tasks : List Task)
    (prepared : List (Made fs.File)) (made : List (Thread fs.File)) (processed : ℕ)
    → p.granularity ≡ size
    → p.stage ≡ 0
    → blocks_of_io p.total_io size ≡ ok total
    → make_tasks ratio task_memory p.reader_num p.writer_num total p.measurement_object
      ≡ (true, tasks)
    → prepare_workload fs malloc p.dirpath size tasks ≡ ok prepared
    → run fs malloc p.dirpath size true endings p.measurement_object tasks ≡ ok (made, processed)
    → run_stages fs ratio task_memory malloc true endings p ≡ ok (prepared, made, processed)
unfolding run_stages
run_stages_steps fs ratio task_memory malloc endings p size total tasks prepared made processed g
      all blocks shared first second =
    rw (run_stages, g, all, blocks, shared, first, second) refl

-- If files can be opened and written, memory is granted, the granularity is a positive multiple of
-- 8, the total is below 2 ^ 33 GiB, there is a task and fewer than 2 ^ 32, the directory has at
-- most 100 characters, the ratio gives no more than the whole, and no thread that is not waited
-- for has yet to read its parameters when they are freed, then both stages of the read-write
-- interference program end. Stage 1 leaves one file for each task, which together hold the blocks
-- from 0 on, each filled with its number. In stage 2 a task of the measured kind leaves a file
-- with all its blocks, from its own first number on, and any other task no file or one with the
-- first of its blocks, of which its progress counts some; a reader's blocks are all among those of
-- stage 1, and a writer's are none of them. The count of blocks is the sum of the progress of all
-- tasks when it is taken and not above the total.
pub run_stages_lem :
    (fs : Fs) (laws : IsWritable fs) (ratio : ℕ → ℕ) (task_memory : ℕ → Bool)
    (malloc : ℕ → Option (List ℕ)) (endings : ℕ → Ending) (p : Params) (words : ℕ) (buf : List ℕ)
    → (mem : malloc (8 * words) ≡ some buf) → (size : length buf ≡ 8 * words)
    → (short : length p.dirpath ≤ 100) → ((n : ℕ) → task_memory n ≡ true)
    → ((n : ℕ) → ratio n ≤ n)
    → ((j : ℕ) → (endings j).late ≡ false)
    → p.granularity ≡ 8 * words
    → 0 < words
    → p.total_io < 2 ^ 33
    → 0 < p.reader_num + p.writer_num
    → p.reader_num + p.writer_num < 2 ^ 32
    → p.stage ≡ 0
    → Returns
        (run_stages fs ratio task_memory malloc true endings p)
        (λ (prepared, made, processed).
          Interferes fs laws malloc words buf mem size p.dirpath short p.reader_num p.writer_num
            (p.total_io * 2 ^ 30 / (8 * words))
            p.measurement_object
            prepared
            made
            processed)
run_stages_lem fs laws ratio task_memory malloc endings p words buf mem size short tasks_fit part
      fresh g pos io some_tasks few all =
    let total = p.total_io * 2 ^ 30 / (8 * words) in
    let below : total ≤ p.total_io * 2 ^ 30 = div-le_self (p.total_io * 2 ^ 30) (8 * words) in
    let blocks = blocks_of_io_lem p.total_io (8 * words) (omega arith) io in
    let (tasks, made_tasks, s) =
      make_tasks_lem ratio task_memory p.reader_num p.writer_num total p.measurement_object
        tasks_fit (part total) (omega (arith, below)) some_tasks few in
    let (prepared, first, ((made, processed), second, x)) =
      stages_lem fs laws malloc words buf mem size p.dirpath short endings p.reader_num p.writer_num
        total p.measurement_object tasks fresh s (omega (arith, below)) in
    (
      (prepared, made, processed),
      run_stages_steps fs ratio task_memory malloc endings p (8 * words) total tasks prepared made
          processed g all blocks made_tasks first second,
      x,
    )
