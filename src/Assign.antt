-- ===== src/Assign.antt =====
-- helper/replay.c, `assign_params_per_worker`: containers are dealt to the workers, and each
-- worker's container is sorted and cut into hints.
pub mod Chunks
pub mod Reorder
pub mod Dealt
pub mod Deal
pub mod Prepare
pub mod Whole
use nvm_tools.Base.{
  ℕ, ◌+◌, ◌-◌, ◌*◌, ◌/◌, ◌%◌, ◌^◌, Bool, ◌&&◌, List, [], ◌∷◌, ltb, leb, ◌==◌, if◌then◌else◌, length,
  set, replicate, Run, ok, fault, ◌>>=◌, fetch, sub64,
}
use mathlib.Core.Bool.{not}
use nvm_tools.Trace.{TraceInfo, ReplayHint, blk_size}
use nvm_tools.Trace.Container.{
  TraceContainer, trace_container_create, trace_container_add_collection,
  default_collections_capacity,
}
use nvm_tools.Sort.{trace_container_sort_infomap_by_ts}
use nvm_tools.Hints.{Extract, extract_hints}

-- The variables of the dealing loop: `params[i].tc` of each worker, `cur_thread`,
-- `cur_thread_lines` and the number of calls of `rand` so far.
pub record Dealing : Type 0 where
  pub workers : List TraceContainer
  pub cur_thread : ℕ
  pub cur_thread_lines : ℕ
  pub calls : ℕ

-- A value of `unsigned long` is stored in the `int` `probability_assign_current`, and a number
-- from 0 to 99 compared with it.
abbrev pub below_int : ℕ → ℕ → Bool
below_int r p = ltb r (p % 2 ^ 32) && ltb (p % 2 ^ 32) (2 ^ 31)

-- The next worker begins.
abbrev pub next_thread : Dealing → Dealing
next_thread s = record s { cur_thread = s.cur_thread + 1; cur_thread_lines = 0 }

module _ (rand : ℕ → ℕ) (threads per_thread_lines : ℕ) where
  -- `rand() % 100 < probability_assign_current` for a container of `size` infos that overflows the
  -- share of the current worker.
  unfoldable pub roll : ℕ → Dealing → Run Dealing
  roll size s =
      if size == 0
      then fault
      else let p = sub64 per_thread_lines s.cur_thread_lines * 100 % 2 ^ 64 / size in
        let s' = record s { calls = s.calls + 1 } in
        ok (if below_int (rand s.calls % 100) p then next_thread s' else s')

  -- The block before the container is handed over.
  unfoldable pub choose : ℕ → Dealing → Run Dealing
  unfolding roll
  choose size s =
      if not (s.cur_thread == threads - 1)
        && ltb per_thread_lines ((size + s.cur_thread_lines) % 2 ^ 64)
      then roll size s
      else ok s

  -- The block behind it.
  unfoldable pub advance : Dealing → Dealing
  advance s =
      if not (s.cur_thread == threads - 1) && leb per_thread_lines s.cur_thread_lines
      then next_thread s
      else s

  -- One round of the loop over the buckets.
  unfoldable pub deal_one : (ℕ → Bool) → TraceContainer → Dealing → Run Dealing
  unfolding choose advance
  deal_one realloc tc s = do
    s' ← choose tc.size s
    w ← fetch s'.workers s'.cur_thread
    w' ← trace_container_add_collection realloc w tc
    ok (
        advance (record s' {
          workers = set s'.workers s'.cur_thread w';
          cur_thread_lines = (s'.cur_thread_lines + tc.size) % 2 ^ 64;
        }))

  pub deal_all : (ℕ → Bool) → List TraceContainer → Dealing → Run Dealing
  deal_all realloc [] s = ok s
  deal_all realloc (tc ∷ tcs) s = do s' ← deal_one realloc tc s; deal_all realloc tcs s'

-- The start of the loop: every worker has an empty container. `valid_lines / threads` divides by
-- zero without a thread.
unfoldable pub deal : (ℕ → ℕ) → (ℕ → Bool) → ℕ → ℕ → List TraceContainer → Run (List TraceContainer)
unfolding deal_all deal_one
deal rand realloc threads valid_lines tcs = if threads == 0 then fault else (do
  s ← deal_all rand threads (valid_lines / threads) realloc tcs (record {
    workers = replicate threads (trace_container_create default_collections_capacity 0);
    cur_thread = 0;
    cur_thread_lines = 0;
    calls = 0;
  })
  ok s.workers)

-- What a worker is given of `replay_param_t`: its sorted container, its range of the shared hints,
-- and the size of its buffer.
pub record ReplayParam : Type 0 where
  pub tc : TraceContainer
  pub hints_start : ℕ
  pub hints_end : ℕ
  pub buf_size : ℕ

-- One round of the last loop: the parameters of a worker, and the hints behind it.
unfoldable pub prepare_worker :
    ℕ → ℕ → List ReplayHint → TraceContainer → Run (ReplayParam × List ReplayHint)
prepare_worker valid_lines max_continuous hints tc = do
  tc' ← trace_container_sort_infomap_by_ts tc
  e ← extract_hints valid_lines max_continuous tc'.infos_map tc'.size hints
  ok (
    record {
      tc = tc';
      hints_start = length hints;
      hints_end = length e.hints;
      buf_size = e.max_blks * blk_size;
    },
    e.hints,
  )

pub prepare_all :
    ℕ → ℕ → List ReplayHint → List TraceContainer → Run (List ReplayParam × List ReplayHint)
prepare_all valid_lines max_continuous hints [] = ok ([], hints)
prepare_all valid_lines max_continuous hints (tc ∷ tcs) = do
  (p, hints') ← prepare_worker valid_lines max_continuous hints tc
  (ps, hints'') ← prepare_all valid_lines max_continuous hints' tcs
  ok (p ∷ ps, hints'')

-- The whole function, on the containers in the order of the sorted map.
unfoldable pub assign_params_per_worker :
    (ℕ → ℕ)
    → (ℕ → Bool)
    → ℕ
    → ℕ
    → ℕ
    → List TraceContainer
    → Run (List ReplayParam × List ReplayHint)
unfolding deal prepare_all prepare_worker
assign_params_per_worker rand realloc threads max_continuous valid_lines tcs = do
  workers ← deal rand realloc threads valid_lines tcs
  prepare_all valid_lines max_continuous [] workers
