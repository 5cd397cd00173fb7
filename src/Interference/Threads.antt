-- ===== src/Interference/Threads.antt =====
-- The two stages of helper/rw_interference.cpp: the files that they leave.
use nvm_tools.Base.{
  inl, inr, Bool-cases, none, ℕ, ◌+◌, ◌*◌, ◌%◌, ◌^◌, ◌<◌, ◌≤◌, min, ◌≡◌, refl, sym, subst, ◌∙◌,
  Bool, true, false, ◌&&◌, Option, some, List, [], ◌∷◌, ◌++◌, ltb, ◌==◌, if◌then◌else◌, length,
  length-append, All, ok, Returns, arith, lt→ltb, ge→ltb,
}
use mathlib.Core.Bool.{not}
use nvm_tools.Paths.{decimal}
use nvm_tools.Paths.Laws.{length-decimal}
use nvm_tools.Interference.{Task, Fs, Made, mo_read_lat, mo_write_lat}
use nvm_tools.Interference.Tasks.{all_blocks, IsKind}
use nvm_tools.Interference.Files.{IsWritable, MakesFile, make_file_lem, magic_blocks}
use nvm_tools.Interference.Stages.{
  path_len, print_path, pre_name, task_name, num_readers, is_joined, prepare_from,
  dedup_or_write_task, run_thread, run_threads, run, Thread, thread_progress, joined, cancelled,
  Ending,
}

-- The measured tasks are those that have to be finished.
abbrev pub is_measured : ℕ → Bool → Bool
is_measured measurement_object dup =
    if measurement_object == mo_read_lat then dup else measurement_object == mo_write_lat && not dup

-- The tasks from thread `i` on are readers up to thread `readers`.
abbrev pub Kinds : ℕ → ℕ → List Task → Type 0
Kinds readers i [] = Unit
Kinds readers i (t ∷ ts) = (t.dup ≡ ltb i readers) × Kinds readers (i + 1) ts

writers-Kinds :
    (readers i : ℕ) (ts : List Task) → readers ≤ i → All (IsKind false) ts → Kinds readers i ts
writers-Kinds readers i [] h a = tt
writers-Kinds readers i (t ∷ ts) h a =
    (a.0.0 ∙ sym (ge→ltb i readers h), writers-Kinds readers (i + 1) ts (omega arith) a.1)

pub readers-Kinds :
    (readers i : ℕ) (ts us : List Task)
    → i + length ts ≡ readers
    → All (IsKind true) ts
    → All (IsKind false) us
    → Kinds readers i (ts ++ us)
readers-Kinds readers i [] us h a b = writers-Kinds readers i us (omega arith) b
readers-Kinds readers i (t ∷ ts) us h a b = (
  a.0.0 ∙ sym (lt→ltb i readers (omega arith)),
  readers-Kinds readers (i + 1) ts us (omega arith) a.1 b,
)

no_readers : (ts : List Task) → All (IsKind false) ts → num_readers ts ≡ 0
no_readers [] a = refl
no_readers (t ∷ ts) a = rw a.0.0 (omega (arith, no_readers ts a.1))

pub num_readers-append :
    (ts us : List Task)
    → All (IsKind true) ts
    → All (IsKind false) us
    → num_readers (ts ++ us) ≡ length ts
num_readers-append [] us a b = no_readers us b
num_readers-append (t ∷ ts) us a b = rw a.0.0 (omega (arith, num_readers-append ts us a.1 b))

joined_iff :
    (mo readers i : ℕ) (t : Task)
    → t.dup ≡ ltb i readers
    → is_joined mo readers i ≡ is_measured mo t.dup
joined_iff mo readers i t e = rw e refl

print_path_lem : (s : List ℕ) → length s < path_len → print_path s ≡ ok s
unfolding print_path
print_path_lem s h = rw (lt→ltb (length s) path_len h) refl

module _ (fs : Fs) (laws : IsWritable fs) (malloc : ℕ → Option (List ℕ)) (words : ℕ) (buf : List ℕ)
    (mem : malloc (8 * words) ≡ some buf) (size : length buf ≡ 8 * words) (dirpath : List ℕ)
    (short : length dirpath ≤ 100) where
  -- The files of stage 1 for the tasks from block `start` on.
  abbrev pub Prepared : ℕ → List Task → List (Made fs.File) → Type 0
  Prepared start [] [] = Unit
  Prepared start [] (m ∷ ms) = ⊥
  Prepared start (t ∷ ts) [] = ⊥
  Prepared start (t ∷ ts) (m ∷ ms) =
      MakesFile fs laws malloc words t.num_blocks start m × Prepared (start + t.num_blocks) ts ms

  -- What the thread of a task leaves in stage 2: one that is measured its whole file, any other
  -- nothing or the first blocks of its file, of which the sum sees some.
  abbrev pub Ran : ℕ → Task → Thread fs.File → Type 0
  Ran mo t (joined m) =
      (is_measured mo t.dup ≡ true) × MakesFile fs laws malloc words t.num_blocks t.start_magic m
  Ran mo t (cancelled none n) = (is_measured mo t.dup ≡ false) × (n ≡ 0)
  Ran mo t (cancelled (some f) n) =
      (is_measured mo t.dup ≡ false)
      × (blocks : ℕ) × (fs.written f ≡ magic_blocks words t.start_magic blocks)
      × (blocks ≤ t.num_blocks)
      × (n ≤ blocks)

  abbrev pub RanAll : ℕ → List Task → List (Thread fs.File) → Type 0
  RanAll mo [] [] = Unit
  RanAll mo [] (m ∷ ms) = ⊥
  RanAll mo (t ∷ ts) [] = ⊥
  RanAll mo (t ∷ ts) (m ∷ ms) = Ran mo t m × RanAll mo ts ms

  pub prepare_from_lem :
      (i start : ℕ) (ts : List Task)
      → start + all_blocks ts < 2 ^ 64
      → Returns (prepare_from fs malloc dirpath (8 * words) i start ts) (Prepared start ts)
  unfolding prepare_from
  prepare_from_lem i start [] h = ([], refl, tt)
  prepare_from_lem i start (t ∷ ts) h =
      let name = pre_name dirpath i in
      let fits : length name < path_len = omega (
        arith,
        length-append dirpath (b'/' ∷ b'p' ∷ b'r' ∷ b'e' ∷ b'-' ∷ decimal i),
        length-decimal i,
      ) in
      let (m, run, x) =
        make_file_lem fs laws malloc words name t.num_blocks start buf mem size (omega arith) in
      let next : (start + t.num_blocks) % 2 ^ 64 ≡ start + t.num_blocks = omega arith in
      let (ms, ran, rest) = prepare_from_lem (i + 1) (start + t.num_blocks) ts (omega arith) in
      let behind =
        subst (λ n. prepare_from fs malloc dirpath (8 * words) (i + 1) n ts ≡ ok ms) (sym next)
          ran in
      (m ∷ ms, rw (print_path_lem name fits, run) (rw behind refl), (x, rest))

  dedup_or_write_task_lem :
      (t : Task) (rounds : ℕ)
      → t.start_magic + rounds ≤ 2 ^ 64
      → Returns
          (dedup_or_write_task fs malloc dirpath (8 * words) rounds t)
          (MakesFile fs laws malloc words rounds t.start_magic)
  unfolding dedup_or_write_task
  dedup_or_write_task_lem t rounds h =
      let name = task_name dirpath t.id in
      let fits : length name < path_len =
        omega (arith, length-append dirpath (b'/' ∷ decimal t.id), length-decimal t.id) in
      rw (dedup_or_write_task, print_path_lem name fits)
        (make_file_lem fs laws malloc words name rounds t.start_magic buf mem size h)

  -- The file that a thread got open which made `rounds` rounds.
  cancelled_lem :
      (mo rounds counted : ℕ) (t : Task) (m : Made fs.File)
      → MakesFile fs laws malloc words (min rounds t.num_blocks) t.start_magic m
      → is_measured mo t.dup ≡ false
      → Ran mo t (cancelled m.file (min counted m.progress))
  cancelled_lem mo rounds counted t m x e =
      rw x.opened (e, min rounds t.num_blocks, x.bytes, ground arith, grind (arith, x.counted))

  run_thread_lem :
      (endings : ℕ → Ending) (mo i : ℕ) (waits : Bool) (t : Task)
      → ((j : ℕ) → (endings j).late ≡ false)
      → waits ≡ is_measured mo t.dup
      → t.start_magic + t.num_blocks ≤ 2 ^ 64
      → Returns (run_thread fs malloc dirpath (8 * words) endings waits i t) (Ran mo t)
  unfolding run_thread
  run_thread_lem endings mo i true t fresh e h =
      let (m, run, x) = dedup_or_write_task_lem t t.num_blocks h in
      (joined m, rw run refl, (sym e, x))
  run_thread_lem endings mo i false t fresh e h = elim (Bool-cases (endings i).opened) [
    | inr never ↦ (cancelled none 0, rw (fresh i, never) refl, (sym e, refl))
    | inl opens ↦
        let rounds = min (endings i).rounds t.num_blocks in
        let (m, run, x) = dedup_or_write_task_lem t rounds (ground (arith, h)) in
        (
          cancelled m.file (min (endings i).counted m.progress),
          rw (fresh i, opens, run) refl,
          cancelled_lem mo (endings i).rounds (endings i).counted t m x (sym e),
        )
  ]

  pub run_threads_lem :
      (endings : ℕ → Ending) (mo readers i : ℕ) (ts : List Task)
      → ((j : ℕ) → (endings j).late ≡ false)
      → Kinds readers i ts
      → All (λ (t : Task). t.start_magic + t.num_blocks ≤ 2 ^ 64) ts
      → Returns (run_threads fs malloc dirpath (8 * words) endings mo readers i ts) (RanAll mo ts)
  unfolding run_threads
  run_threads_lem endings mo readers i [] fresh k a = ([], refl, tt)
  run_threads_lem endings mo readers i (t ∷ ts) fresh k a =
      let (m, run, x) =
        run_thread_lem endings mo i (is_joined mo readers i) t fresh (joined_iff mo readers i t k.0)
          a.0 in
      let (ms, ran, rest) = run_threads_lem endings mo readers (i + 1) ts fresh k.1 a.1 in
      (m ∷ ms, rw run (rw ran refl), (x, rest))

  pub Ran-bounded :
      (mo : ℕ) (t : Task) (m : Thread fs.File) → Ran mo t m → thread_progress m ≤ t.num_blocks
  Ran-bounded mo t (joined m) r = omega (arith, r.1.counted)
  Ran-bounded mo t (cancelled none n) r = omega (arith, r.1)
  Ran-bounded mo t (cancelled (some f) n) (e, blocks, bytes, few, seen) = omega arith
