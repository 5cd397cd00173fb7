-- ===== src/Interference/Stages.antt =====
-- helper/rw_interference.cpp: the two stages, and `main`.
use nvm_tools.Base.{
  ℕ, ◌+◌, ◌-◌, ◌*◌, ◌/◌, ◌%◌, ◌^◌, min, Bool, true, false, ◌&&◌, ◌||◌, Option, none, List, [], ◌∷◌,
  ◌++◌, ltb, ◌==◌, if◌then◌else◌, length, take, Run, ok, exit, fault, ◌>>=◌,
}
use mathlib.Core.Bool.{not}
use nvm_tools.Options.{last_char, slash}
use nvm_tools.Paths.{decimal}
use nvm_tools.Interference.{Task, Fs, Made, make_tasks, make_file, mo_read_lat, mo_write_lat}

-- `char path[128]`, which `sprintf` prints to.
abbrev pub path_len : ℕ
path_len = 128

-- A string in an array of that size, with its terminating zero.
unfoldable pub print_path : List ℕ → Run (List ℕ)
print_path s = if ltb (length s) path_len then ok s else fault

-- `"%s/pre-%lu"` and `"%s/%lu"`.
abbrev pub pre_name : List ℕ → ℕ → List ℕ
pre_name dirpath i = dirpath ++ b'/' ∷ b'p' ∷ b'r' ∷ b'e' ∷ b'-' ∷ decimal i

abbrev pub task_name : List ℕ → ℕ → List ℕ
task_name dirpath id = dirpath ++ b'/' ∷ decimal id

-- The counts of `run`, which adds up the progress too.
abbrev pub num_readers : List Task → ℕ
num_readers [] = 0
num_readers (t ∷ ts) = (if t.dup then 1 else 0) + num_readers ts

-- What a thread leaves: what `make_file` returned to one that is waited for, or the file that any
-- other got open, and its progress when the sum is taken, behind which it may still write.
pub data Thread (F : Type 0) : Type 0 where
  joined : Made F → Thread F
  cancelled : Option F → ℕ → Thread F

abbrev pub thread_progress : {F : Type 0} → Thread F → ℕ
thread_progress (joined m) = m.progress
thread_progress (cancelled file n) = n

abbrev pub processed_blocks : {F : Type 0} → List (Thread F) → ℕ
processed_blocks [] = 0
processed_blocks (m ∷ ms) = (thread_progress m + processed_blocks ms) % 2 ^ 64

-- How far a thread gets that is not waited for: whether it has yet to read its parameters when
-- `params` is freed, whether it gets to open its file, the rounds that it makes in all, and those
-- of them that are made when the sum is taken.
pub record Ending : Type 0 where
  pub late : Bool
  pub opened : Bool
  pub rounds : ℕ
  pub counted : ℕ

-- Thread `i` is waited for and not cancelled.
abbrev pub is_joined : ℕ → ℕ → ℕ → Bool
is_joined measurement_object readers i =
    if measurement_object == mo_read_lat
    then ltb i readers
    else measurement_object == mo_write_lat && not (ltb i readers)

module _ (fs : Fs) (malloc : ℕ → Option (List ℕ)) (dirpath : List ℕ) (granularity : ℕ) where
  -- The loop of `prepare_workload` at task `i`; what `make_file` returns is dropped.
  unfoldable pub prepare_from : ℕ → ℕ → List Task → Run (List (Made fs.File))
  prepare_from i start_magic [] = ok []
  prepare_from i start_magic (t ∷ ts) = do
    path ← print_path (pre_name dirpath i)
    made ← make_file fs malloc granularity path t.num_blocks start_magic
    rest ← prepare_from (i + 1) ((start_magic + t.num_blocks) % 2 ^ 64) ts
    ok (made ∷ rest)

  unfoldable pub prepare_workload : List Task → Run (List (Made fs.File))
  unfolding prepare_from print_path
  prepare_workload tasks = prepare_from 0 0 tasks

  -- `dedup_or_write_task`, in a thread that makes `rounds` rounds.
  unfoldable pub dedup_or_write_task : ℕ → Task → Run (Made fs.File)
  unfolding print_path
  dedup_or_write_task rounds t = do
    path ← print_path (task_name dirpath t.id)
    make_file fs malloc granularity path rounds t.start_magic

  -- Thread `i`. One that is waited for makes all rounds.
  unfoldable pub run_thread : (ℕ → Ending) → Bool → ℕ → Task → Run (Thread fs.File)
  unfolding dedup_or_write_task
  run_thread endings true i t = do made ← dedup_or_write_task t.num_blocks t; ok (joined made)
  run_thread endings false i t =
      let e = endings i in
      if e.late
      then fault
      else if e.opened
      then (do
        made ← dedup_or_write_task (min e.rounds t.num_blocks) t
        ok (cancelled made.file (min e.counted made.progress)))
      else ok (cancelled none 0)

  -- The threads from `i` on.
  unfoldable pub run_threads : (ℕ → Ending) → ℕ → ℕ → ℕ → List Task → Run (List (Thread fs.File))
  unfolding run_thread
  run_threads endings measurement_object readers i [] = ok []
  run_threads endings measurement_object readers i (t ∷ ts) = do
    thread ← run_thread endings (is_joined measurement_object readers i) i t
    rest ← run_threads endings measurement_object readers (i + 1) ts
    ok (thread ∷ rest)

  -- `run`, up to the bandwidth: the threads and `total_processed_blocks`. `params_fit` says whether
  -- there is memory for `params`.
  unfoldable pub run : Bool → (ℕ → Ending) → ℕ → List Task → Run (List (Thread fs.File) × ℕ)
  unfolding run_threads
  run false endings measurement_object tasks = ok ([], 0)
  run true endings measurement_object tasks = do
    threads ← run_threads endings measurement_object (num_readers tasks) 0 tasks
    ok (threads, processed_blocks threads)

-- The options, which `getopt` splits into letters and strings.
pub data StageOpt : Type 0 where
  opt_d opt_g opt_r opt_w opt_a opt_s opt_m : List ℕ → StageOpt
  opt_h opt_bad : StageOpt

-- The variables that they set. All but the last two have no initial value.
pub record Params : Type 0 where
  pub dirpath : List ℕ
  pub granularity : ℕ
  pub reader_num : ℕ
  pub writer_num : ℕ
  pub total_io : ℕ
  pub stage : ℕ
  pub measurement_object : ℕ

-- `-d`: `strcpy` to an array of 128 characters, and a slash at the end cut off.
unfoldable pub set_dirpath : List ℕ → Run (List ℕ)
unfolding print_path last_char
set_dirpath s = do
  path ← print_path s
  c ← last_char path
  ok (if c == slash then take (length path - 1) path else path)

-- The `switch`. `atol` and `atoi` give the patterns of an `unsigned long` and of an `int`.
unfoldable pub set_param : (List ℕ → ℕ) → (List ℕ → ℕ) → StageOpt → Params → Run Params
unfolding set_dirpath
set_param atol atoi (opt_d s) p = do path ← set_dirpath s; ok (record p { dirpath = path })
set_param atol atoi (opt_g s) p = ok (record p { granularity = atol s })
set_param atol atoi (opt_r s) p = ok (record p { reader_num = atoi s })
set_param atol atoi (opt_w s) p = ok (record p { writer_num = atoi s })
set_param atol atoi (opt_a s) p = ok (record p { total_io = atol s })
set_param atol atoi (opt_s s) p = ok (record p { stage = atoi s })
set_param atol atoi (opt_m s) p = ok (record p { measurement_object = atoi s })
set_param atol atoi opt_h p = exit 1
set_param atol atoi opt_bad p = exit 1

pub set_params : (List ℕ → ℕ) → (List ℕ → ℕ) → List StageOpt → Params → Run Params
set_params atol atoi [] p = ok p
set_params atol atoi (o ∷ opts) p = do p' ← set_param atol atoi o p; set_params atol atoi opts p'

-- `total_io * 1024 * 1024 * 1024 / granularity`.
unfoldable pub blocks_of_io : ℕ → ℕ → Run ℕ
blocks_of_io total_io granularity =
    if granularity == 0 then fault else ok (total_io * 2 ^ 30 % 2 ^ 64 / granularity)

-- The stages behind the options: the files of stage 1, the threads of stage 2, and the blocks of stage 2.
-- What `make_tasks` returns is dropped.
unfoldable pub run_stages :
    (fs : Fs)
    → (ℕ → ℕ)
    → (ℕ → Bool)
    → (ℕ → Option (List ℕ))
    → Bool
    → (ℕ → Ending)
    → Params
    → Run (List (Made fs.File) × List (Thread fs.File) × ℕ)
run_stages fs ratio task_memory malloc params_fit endings p = do
  total ← blocks_of_io p.total_io p.granularity
  let tasks = (make_tasks ratio task_memory p.reader_num p.writer_num total p.measurement_object).1
  prepared ←
      (if p.stage == 0 || p.stage == 1
        then prepare_workload fs malloc p.dirpath p.granularity tasks
        else ok [])
  (made, total) ←
      (if p.stage == 0 || p.stage == 2
        then run fs malloc p.dirpath p.granularity params_fit endings p.measurement_object tasks
        else ok ([], 0))
  ok (prepared, made, total)
