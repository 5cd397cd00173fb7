-- ===== src/Interference/Tasks.antt =====
-- `make_tasks` of helper/rw_interference.cpp: which blocks the tasks are given.
use nvm_tools.Base.{
  ℕ, zero, suc, ◌+◌, ◌*◌, ◌%◌, ◌^◌, ◌<◌, ◌≤◌, ◌≡◌, refl, sym, ap, subst, ◌∙◌, inl, inr, Bool, true,
  false, List, [], ◌∷◌, ◌++◌, append-nil, append_assoc, ◌==◌, length, All, arith, Bool-cases,
}
use native.Mathlib.Nat.{div-mul-le_self}
use nvm_tools.Interference.{Task, new_task, split_blocks, share_of, assign_tasks, make_tasks}

-- The tasks with `num` blocks each, `rounds` of them, from block `start` and from id `id` on.
abbrev pub tasks_from : Bool → ℕ → ℕ → ℕ → ℕ → List Task
tasks_from dup num zero start id = []
tasks_from dup num (suc rounds) start id =
    new_task dup start num id ∷ tasks_from dup num rounds (start + num) (id + 1)

-- The blocks of all tasks together.
abbrev pub all_blocks : List Task → ℕ
all_blocks [] = 0
all_blocks (t ∷ ts) = t.num_blocks + all_blocks ts

-- The tasks' blocks follow each other from `from` on.
abbrev pub Follow : ℕ → List Task → Type 0
Follow from [] = Unit
Follow from (t ∷ ts) = (t.start_magic ≡ from) × Follow (from + t.num_blocks) ts

-- Their ids count up from `id`.
abbrev pub Numbered : ℕ → List Task → Type 0
Numbered id [] = Unit
Numbered id (t ∷ ts) = (t.id ≡ id) × Numbered (id + 1) ts

abbrev pub IsKind : Bool → Task → Type 0
IsKind dup t = (t.dup ≡ dup) × (t.progress ≡ 0)

pub record SplitsIo (reader_num writer_num total : ℕ) (tasks : List Task) : Type 0 where
  pub readers : List Task
  pub writers : List Task
  pub both : tasks ≡ readers ++ writers
  pub reader_count : length readers ≡ reader_num
  pub writer_count : length writers ≡ writer_num
  pub read : All (IsKind true) readers
  pub written : All (IsKind false) writers
  pub read_first : Follow 0 readers
  pub written_behind : Follow total writers
  pub ids : Numbered 0 tasks
  pub bounded : all_blocks tasks ≤ total

module _ (malloc : ℕ → Bool) (mem : (n : ℕ) → malloc n ≡ true) where
  assign_tasks_lem :
      (dup : Bool) (first num rounds i start : ℕ) (ts : List Task)
      → i + first + rounds ≤ 2 ^ 32
      → start + num * rounds < 2 ^ 64
      → assign_tasks malloc dup first num rounds i start ts
        ≡ (true, ts ++ tasks_from dup num rounds start (i + first))
  unfolding assign_tasks
  assign_tasks_lem dup first num zero i start ts hi hs = ap (λ l. (true, l)) (sym (append-nil ts))
  assign_tasks_lem dup first num (suc rounds) i start ts hi hs =
      let id : (i + first) % 2 ^ 32 ≡ i + first = omega arith in
      let magic : (start + num) % 2 ^ 64 ≡ start + num = omega arith in
      let next : i + 1 + first ≡ i + first + 1 = omega arith in
      let task = new_task dup start num (i + first) in
      rw (mem (length ts), id, magic)
        (assign_tasks_lem dup first num rounds (i + 1) (start + num) (ts ++ task ∷ []) (omega arith)
            (omega arith)
          ∙ ap (λ l. (true, l))
              (append_assoc ts (task ∷ [])
                (tasks_from dup num rounds (start + num) (i + 1 + first)))
          ∙ ap (λ n. (true, ts ++ task ∷ tasks_from dup num rounds (start + num) n)) next)

length-tasks_from :
    (dup : Bool) (num rounds start id : ℕ) → length (tasks_from dup num rounds start id) ≡ rounds
length-tasks_from dup num zero start id = refl
length-tasks_from dup num (suc rounds) start id =
    ap suc (length-tasks_from dup num rounds (start + num) (id + 1))

tasks_from-IsKind :
    (dup : Bool) (num rounds start id : ℕ) → All (IsKind dup) (tasks_from dup num rounds start id)
tasks_from-IsKind dup num zero start id = tt
tasks_from-IsKind dup num (suc rounds) start id =
    ((refl, refl), tasks_from-IsKind dup num rounds (start + num) (id + 1))

tasks_from-Follow :
    (dup : Bool) (num rounds start id : ℕ) → Follow start (tasks_from dup num rounds start id)
tasks_from-Follow dup num zero start id = tt
tasks_from-Follow dup num (suc rounds) start id =
    (refl, tasks_from-Follow dup num rounds (start + num) (id + 1))

all_blocks-tasks_from :
    (dup : Bool) (num rounds start id : ℕ)
    → all_blocks (tasks_from dup num rounds start id) ≡ num * rounds
all_blocks-tasks_from dup num zero start id = omega arith
all_blocks-tasks_from dup num (suc rounds) start id =
    omega (arith, all_blocks-tasks_from dup num rounds (start + num) (id + 1))

pub all_blocks-append : (xs ys : List Task) → all_blocks (xs ++ ys) ≡ all_blocks xs + all_blocks ys
all_blocks-append [] ys = omega arith
all_blocks-append (x ∷ xs) ys = omega (arith, all_blocks-append xs ys)

tasks_from-Numbered :
    (dup : Bool) (num rounds start id : ℕ) (ts : List Task)
    → Numbered (id + rounds) ts
    → Numbered id (tasks_from dup num rounds start id ++ ts)
tasks_from-Numbered dup num zero start id ts h =
    let here : id + 0 ≡ id = omega arith in subst (λ n. Numbered n ts) here h
tasks_from-Numbered dup num (suc rounds) start id ts h =
    let next : id + suc rounds ≡ id + 1 + rounds = omega arith in
    (
      refl,
      tasks_from-Numbered dup num rounds (start + num) (id + 1) ts
          (subst (λ n. Numbered n ts) next h),
    )

-- What all readers and all writers are given, against the total.
split_blocks_lem :
    (ratio : ℕ → ℕ) (r w total mo : ℕ)
    → ratio total ≤ total
    → total < 2 ^ 63
    → (split_blocks ratio r w total mo).0 + (split_blocks ratio r w total mo).1 ≤ total
unfolding split_blocks
split_blocks_lem ratio r w total mo h small = ground arith

share_of_lem : (total num : ℕ) → share_of total num * num ≤ total
share_of_lem total num = elim (Bool-cases (num == 0)) [
  | inl none_left ↦ rw none_left (omega arith)
  | inr some_left ↦ rw some_left (div-mul-le_self total num)
]

-- The tasks of `make_tasks`.
abbrev made_tasks : (ℕ → ℕ) → ℕ → ℕ → ℕ → ℕ → List Task
made_tasks ratio r w total mo =
    let (reads, writes) = split_blocks ratio r w total mo in
    tasks_from true (share_of reads r) r 0 0 ++ tasks_from false (share_of writes w) w total r

made_tasks-SplitsIo :
    (ratio : ℕ → ℕ) (r w total mo : ℕ)
    → ratio total ≤ total
    → total < 2 ^ 63
    → SplitsIo r w total (made_tasks ratio r w total mo)
made_tasks-SplitsIo ratio r w total mo h small =
    let (reads, writes) = split_blocks ratio r w total mo in
    let reader = share_of reads r in
    let writer = share_of writes w in
    let zero_first : r ≡ 0 + r = omega arith in
    record {
      readers = tasks_from true reader r 0 0;
      writers = tasks_from false writer w total r;
      both = refl;
      reader_count = length-tasks_from true reader r 0 0;
      writer_count = length-tasks_from false writer w total r;
      read = tasks_from-IsKind true reader r 0 0;
      written = tasks_from-IsKind false writer w total r;
      read_first = tasks_from-Follow true reader r 0 0;
      written_behind = tasks_from-Follow false writer w total r;
      ids = tasks_from-Numbered true reader r 0 0 (tasks_from false writer w total r) (
          subst (λ n. Numbered n (tasks_from false writer w total r)) zero_first
            (subst (Numbered r) (append-nil (tasks_from false writer w total r))
              (tasks_from-Numbered false writer w total r [] tt)));
      bounded = omega (
        arith,
        all_blocks-append (tasks_from true reader r 0 0) (tasks_from false writer w total r),
        all_blocks-tasks_from true reader r 0 0,
        all_blocks-tasks_from false writer w total r,
        share_of_lem reads r,
        share_of_lem writes w,
        split_blocks_lem ratio r w total mo h small,
      );
    }

-- With memory, a total below 2 ^ 63, a ratio that gives no more than the whole, and from one to 2
-- ^ 32 - 1 tasks, `make_tasks` returns 0 and a list of the readers followed by the writers, as
-- many as were asked for, with ids counted from 0; the readers' blocks follow each other from
-- block 0, the writers' from the total on, and all tasks together have no more blocks than the
-- total.
pub make_tasks_lem :
    (ratio : ℕ → ℕ) (malloc : ℕ → Bool) (r w total mo : ℕ)
    → ((n : ℕ) → malloc n ≡ true)
    → ratio total ≤ total
    → total < 2 ^ 63
    → 0 < r + w
    → r + w < 2 ^ 32
    → (tasks : List Task) × (make_tasks ratio malloc r w total mo ≡ (true, tasks))
      × SplitsIo r w total tasks
unfolding make_tasks
make_tasks_lem ratio malloc r w total mo mem h small pos few =
    let (reads, writes) = split_blocks ratio r w total mo in
    let some_tasks : ((r + w) % 2 ^ 32 == 0) ≡ false = ground arith in
    let sum = split_blocks_lem ratio r w total mo h small in
    let read =
      assign_tasks_lem malloc mem true 0 (share_of reads r) r 0 0 [] (omega arith)
        (omega (arith, share_of_lem reads r)) in
    let written =
      assign_tasks_lem malloc mem false r (share_of writes w) w 0 total
        (tasks_from true (share_of reads r) r 0 0) (omega arith)
        (omega (arith, share_of_lem writes w)) in
    let first : 0 + r ≡ r = omega arith in
    (
      made_tasks ratio r w total mo,
      rw (some_tasks, read)
          (written
            ∙ ap
                (λ n. (
                  true,
                  tasks_from true (share_of reads r) r 0 0
                      ++ tasks_from false (share_of writes w) w total n,
                ))
                first),
      made_tasks-SplitsIo ratio r w total mo h small,
    )
