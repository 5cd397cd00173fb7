-- ===== src/Tests/Tools.antt =====
-- The programs that write files, on small inputs.
use nvm_tools.Base.{
  ℕ, ◌+◌, ◌*◌, ◌/◌, ◌^◌, ◌<◌, ◌≤◌, ◌≡◌, refl, Bool, true, false, Option, some, List, [], ◌∷◌, ◌++◌,
  length, length-replicate, take, drop, replicate, get_elem?, ok, Returns, load, store, arith,
}
use mathlib.Core.List.{Perm, flatten}
use mathlib.Core.List.Perm
use nvm_tools.Interference.{Task, make_tasks}
use nvm_tools.Interference.Tasks.{SplitsIo, make_tasks_lem}
use nvm_tools.Interference.Files.{magic_blocks}
use nvm_tools.Interference.Stages.{Ending, Params, run_stages}
use nvm_tools.Interference.Whole.{Interferes, run_stages_lem}
use nvm_tools.Pages.{step, write_1G, first_page}
use nvm_tools.Pages.Laws.{write_1G_lem, first_page-apart}
use nvm_tools.Create.{create_files}
use nvm_tools.Create.Laws.{Creates, create_files_lem}
use nvm_tools.Exhaust.{exhaust_nvmm}
use nvm_tools.Exhaust.Laws.{random_bytes, exhaust_nvmm_lem}
use nvm_tools.Shuffle.{Source, shuffle_and_write}
use nvm_tools.Shuffle.Laws.{IsReadable, shuffle_and_write_lem}
use nvm_tools.Tests.Device.{plain_fs, plain_fs-IsWritable, small_fs, small_fs-IsLimited}

abbrev always : ℕ → Bool
always n = true

abbrev third : ℕ → ℕ
third n = n / 3

abbrev zeros_of : ℕ → Option (List ℕ)
zeros_of n = some (replicate n 0)

-- `/mnt`.
abbrev mnt : List ℕ
mnt = b'/' ∷ b'm' ∷ b'n' ∷ b't' ∷ []

-- Two readers and a writer share 7 blocks.
three_tasks : make_tasks third always 2 1 7 1 ≡ (
  true,
  record { start_magic = 0; num_blocks = 1; progress = 0; id = 0; dup = true }
      ∷ record { start_magic = 1; num_blocks = 1; progress = 0; id = 1; dup = true }
      ∷ record { start_magic = 7; num_blocks = 5; progress = 0; id = 2; dup = false }
      ∷ [],
)
unfolding make_tasks
three_tasks = refl

make_tasks_example :
    (tasks : List Task) × (make_tasks third always 2 1 7 1 ≡ (true, tasks)) × SplitsIo 2 1 7 tasks
make_tasks_example =
    make_tasks_lem third always 2 1 7 1 (λ n. refl) (omega arith) (omega arith) (omega arith)
      (omega arith)

-- Any thread that is not waited for has made one round when the sum is taken, and two in all.
abbrev endings : ℕ → Ending
endings i = record { late = false; opened = true; rounds = 2; counted = 1 }

-- One reader and one writer on 1 GiB of blocks of 16 bytes, of which writes are measured.
abbrev both_stages : Params
both_stages = record {
  dirpath = mnt;
  granularity = 16;
  reader_num = 1;
  writer_num = 1;
  total_io = 1;
  stage = 0;
  measurement_object = 2;
}

run_stages_example :
    Returns
      (run_stages plain_fs third always zeros_of true endings both_stages)
      (λ (prepared, made, processed).
        Interferes plain_fs plain_fs-IsWritable zeros_of 2
          (replicate 16 0)
          refl
          refl
          mnt
          (omega arith)
          1
          1
          (1 * 2 ^ 30 / (8 * 2))
          2
          prepared
          made
          processed)
run_stages_example =
    run_stages_lem plain_fs plain_fs-IsWritable third always zeros_of endings both_stages 2
      (replicate 16 0) refl refl (omega arith) (λ n. refl) (λ n. omega arith) (λ j. refl) refl
      (omega arith) (omega arith) (omega arith) (omega arith) refl

-- `3`.
abbrev digit_3 : List ℕ
digit_3 = b'3' ∷ []

-- A buffer of 2 MiB.
full_step : List ℕ
full_step = replicate step 0

length-full_step : length full_step ≡ step
unfolding full_step
length-full_step = length-replicate {A = ℕ} step 0

write_1G_example :
    Returns
      (write_1G plain_fs (λ s. 3) (λ path. false) full_step digit_3)
      (λ t. t ≡ magic_blocks 512 (3 * 2 ^ 18) (2 ^ 18))
write_1G_example =
    write_1G_lem plain_fs plain_fs-IsWritable (λ s. 3) (λ path. false) full_step digit_3
      length-full_step (omega arith) (λ path. refl) (omega arith)

first_page_example : (v w : ℕ) × (first_page 3 ≡ ok v) × (first_page 8191 ≡ ok w) × (v + 2 ^ 18 ≤ w)
first_page_example = first_page-apart 3 8191 (omega arith) (omega arith)

create_files_example :
    Returns (create_files (λ name. true) (λ name. true) (λ s. 3) mnt digit_3) (λ names.
      Creates mnt 3 0 names
      × ((i j : ℕ) → i < 3 → j < 3 → get_elem? names i ≡ get_elem? names j → i ≡ j))
create_files_example =
    create_files_lem (λ name. true) (λ name. true) (λ name. refl) (λ name. refl) (λ s. 3) mnt
      digit_3 (omega arith) (omega arith)

exhaust_nvmm_example : Returns (exhaust_nvmm small_fs (λ n. n) 3 false mnt) (λ o.
    (last end : List ℕ × ℕ) × (o ≡ some (2, end))
    × (last.1 ≡ 0)
    × (end ≡ (small_fs.write last (random_bytes (λ n. n) (1024 * 2) 1024)).0)
    × (last.0 ≡ random_bytes (λ n. n) 0 (1024 * 2)))
exhaust_nvmm_example =
    exhaust_nvmm_lem small_fs small_fs-IsLimited (λ n. n) 3 mnt ([], 2) refl refl (omega arith)

abbrev list_source : Source
list_source = record { File = List ℕ; size = λ f. length f; read = λ f n. (drop n f, take n f) }

abbrev list_source-IsReadable : IsReadable list_source
list_source-IsReadable = record {
  rest = λ f. f;
  sized = λ f. refl;
  reads = λ f n. refl;
  goes_on = λ f n. refl;
}

-- The first two blocks change places.
abbrev exchange_two : List ℕ → List ℕ
exchange_two [] = []
exchange_two (x ∷ []) = x ∷ []
exchange_two (x ∷ y ∷ l) = y ∷ x ∷ l

exchange_two-Perm : (l : List ℕ) → Perm l (exchange_two l)
exchange_two-Perm [] = Perm.rfl
exchange_two-Perm (x ∷ []) = Perm.rfl
exchange_two-Perm (x ∷ y ∷ l) = Perm.swap y x l

abbrev two_blocks : List (List ℕ)
two_blocks = (1 ∷ 2 ∷ []) ∷ (3 ∷ 4 ∷ []) ∷ []

exchanged :
    shuffle_and_write list_source plain_fs true zeros_of exchange_two 2 (1 ∷ 2 ∷ 3 ∷ 4 ∷ 5 ∷ []) []
    ≡ ok (3 ∷ 4 ∷ 1 ∷ 2 ∷ [])
unfolding shuffle_and_write store load
exchanged = refl

shuffle_and_write_example :
    Returns
      (shuffle_and_write list_source plain_fs true zeros_of exchange_two 2
        (1 ∷ 2 ∷ 3 ∷ 4 ∷ 5 ∷ [])
        [])
      (λ t. (shuffled : List (List ℕ)) × Perm two_blocks shuffled × (t ≡ [] ++ flatten shuffled))
unfolding flatten
shuffle_and_write_example =
    shuffle_and_write_lem list_source list_source-IsReadable plain_fs plain_fs-IsWritable 2 zeros_of
      exchange_two (1 ∷ 2 ∷ 3 ∷ 4 ∷ 5 ∷ []) [] two_blocks (5 ∷ []) (replicate 4 0) exchange_two-Perm
      (omega arith) (omega arith) (omega arith) (refl, (refl, tt)) refl (omega arith) refl refl
