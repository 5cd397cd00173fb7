-- ===== src/Tests/Replay.antt =====
-- The worker, and the whole replay, on a small trace and a file that is a log.

use mathlib.Core.List.{flatten}
use nvm_tools.Base.{
  ℕ, ◌+◌, ◌<◌, ◌≡◌, refl, sym, subst, ◌∙◌, Bool, true, false, List, [], ◌∷◌, ◌++◌, if◌then◌else◌,
  length, length-replicate, replicate, drop, All, Run, ok, exit, fault, Returns, arith,
}
use nvm_tools.Trace.{TraceInfo, write_only}
use nvm_tools.Trace.Container.{
  TraceContainer, IsValid, trace_container_create, trace_container_add_collection,
}
use nvm_tools.Fill.{RandGener, stdlib_gener, stdlib_seed_wrapper, stdlib_gen_wrapper}
use nvm_tools.Fill.Content.{IsReseeding}
use nvm_tools.Hints.Runs.{IsTiling, hint_of}
use nvm_tools.Worker.{WorkerState, pwrite_hint, append_hint, read_hint, replay_worker, hint_bytes}
use nvm_tools.Worker.Hint.{IsReplayable, write_each, append_each, pwrite_hint_lem, append_hint_lem}
use nvm_tools.Worker.Dump.{padded, read_hint-padded}
use nvm_tools.Worker.Effect.{effect}
use nvm_tools.Worker.Whole.{replay_worker_lem}
use nvm_tools.Assign.{deal, assign_params_per_worker}
use nvm_tools.Assign.Chunks.{Deals}
use nvm_tools.Assign.Prepare.{PreparesAll}
use nvm_tools.Assign.Whole.{Replays, replay_lem}
use nvm_tools.Tests.Data.{info, box, info-IsReplayable}
use nvm_tools.Tests.Disk.{log_os, log_os-IsRegular, log_os-Gives, tagged, values}

-- A generator of the C library that gives its seed.
abbrev seed_gener : RandGener
seed_gener = stdlib_gener (λ s. (s, s))

seed_gener-IsReseeding : IsReseeding seed_gener
unfolding stdlib_seed_wrapper stdlib_gen_wrapper
seed_gener-IsReseeding = record {
  forgets = λ c c' s. refl;
  draws = (λ c. true, λ c s. refl, λ c e. ((_, _), refl, refl));
}

-- Two infos that one hint covers, and the buffer of the worker.
abbrev two : List TraceInfo
two = info 1 8 ∷ info 2 16 ∷ []

two-IsReplayable : All IsReplayable two
two-IsReplayable = (info-IsReplayable 1 8 (omega arith), (info-IsReplayable 2 16 (omega arith), tt))

abbrev state : WorkerState ℕ (List (ℕ × ℕ))
state = record { ctx = 0; buf = replicate 8192 0; file = []; dump = [] }

pwrite_hint_example : Returns (pwrite_hint seed_gener log_os two (hint_of 0 two) state) (λ t.
    (t.file ≡ write_each seed_gener 0 log_os [] two)
    × (length t.buf ≡ length state.buf)
    × (t.dump ≡ []))
pwrite_hint_example =
    pwrite_hint_lem seed_gener 0 log_os log_os-IsRegular two [] [] (info 2 16 ∷ []) (info 1 8) state
      seed_gener-IsReseeding refl (omega arith) (omega (arith, length-replicate {A = ℕ} 8192 0))
      two-IsReplayable (refl, tt)

append_hint_example : Returns (append_hint seed_gener log_os two (hint_of 0 two) state) (λ t.
    (t.file ≡ append_each seed_gener 0 log_os [] two)
    × (length t.buf ≡ length state.buf)
    × (t.dump ≡ []))
append_hint_example =
    append_hint_lem seed_gener 0 log_os log_os-IsRegular two [] [] (info 2 16 ∷ []) (info 1 8) state
      seed_gener-IsReseeding refl (omega arith) (omega (arith, length-replicate {A = ℕ} 8192 0))
      two-IsReplayable

-- A file that ends in the first of the two blocks.
abbrev short_file : List (ℕ × ℕ)
short_file = tagged 0 (replicate 5000 7)

abbrev short_state : WorkerState ℕ (List (ℕ × ℕ))
short_state = record state { file = short_file }

read_hint-padded_example :
    Returns (read_hint seed_gener log_os two true (hint_of 0 two) short_state) (λ t.
      (t.file ≡ short_file)
      × (length t.buf ≡ length short_state.buf)
      × (t.dump
          ≡ []
            ++ (if true
                then padded (hint_bytes (hint_of 0 two)) (drop (info 1 8).ofs (values short_file))
                else [])))
read_hint-padded_example =
    read_hint-padded seed_gener log_os two true (hint_of 0 two) short_state (info 1 8)
      (λ k. drop k (values short_file)) (log_os-Gives short_file) refl
      (omega (arith, length-replicate {A = ℕ} 8192 0)) (omega arith)

two-IsTiling : IsTiling 2 two (hint_of 0 two ∷ [])
unfolding flatten
two-IsTiling = record {
  runs = two ∷ [];
  covers = refl;
  hints_eq = refl;
  each = (record { some_infos = omega arith; bounded = omega arith; chained = (refl, tt) }, tt);
  maximal = tt;
}

replay_worker_example :
    Returns
      (replay_worker seed_gener log_os two write_only false true
        ([] ++ ((hint_of 0 two ∷ []) ++ []))
        0
        (0 + 1)
        0
        (replicate 8192 0))
      (λ t. t.file ≡ effect seed_gener 0 log_os write_only [] two)
replay_worker_example =
    replay_worker_lem seed_gener 0 log_os log_os-IsRegular seed_gener-IsReseeding two write_only
      false true 2 [] (hint_of 0 two ∷ []) [] 0 (replicate 8192 0) [] two-IsTiling two-IsReplayable
      (omega arith) (omega (arith, length-replicate {A = ℕ} 8192 0), tt) refl refl

abbrev granted : ℕ → Bool
granted n = true

abbrev zeros : ℕ → ℕ
zeros n = 0

abbrev boxes : List TraceContainer
boxes = box 16 (info 2 16 ∷ []) ∷ box 8 (info 1 8 ∷ []) ∷ []

one_box-IsValid : (ts lba : ℕ) → IsValid (box lba (info ts lba ∷ []))
one_box-IsValid ts lba = record { counted = refl; fits = omega arith; roomy = omega arith }

boxes_dealt :
    deal zeros granted 2 2 boxes ≡ ok (box 0 (info 2 16 ∷ []) ∷ box 0 (info 1 8 ∷ []) ∷ [])
unfolding deal trace_container_add_collection trace_container_create
boxes_dealt = refl

-- No container of the result is empty.
abbrev Busy : Run (List TraceContainer) → Type 0
Busy (ok ws) = All (λ (w : TraceContainer). 0 < w.size) ws
Busy (exit n) = Unit
Busy fault = Unit

busy :
    (ws : List TraceContainer)
    → deal zeros granted 2 2 boxes ≡ ok ws
    → All (λ (w : TraceContainer). 0 < w.size) ws
busy ws e = subst Busy (sym boxes_dealt ∙ e) (omega arith, (omega arith, tt))

replay_example : Returns (assign_params_per_worker zeros granted 2 2 2 boxes) (λ r.
    (ws : List TraceContainer) × Deals 2 boxes ws
    × PreparesAll 2 ws [] r.0 r.1
    × All (Replays seed_gener 0 log_os write_only false true (λ n. replicate n 0) [] r.1) r.0)
replay_example =
    replay_lem seed_gener 0 log_os write_only false true (λ n. replicate n 0) [] log_os-IsRegular
      seed_gener-IsReseeding (λ n. length-replicate {A = ℕ} n 0) refl refl zeros granted 2 2 2 boxes
      (λ n. refl) (omega arith) (omega arith) (one_box-IsValid 2 16, (one_box-IsValid 1 8, tt))
      (omega arith)
      (info-IsReplayable 2 16 (omega arith), (info-IsReplayable 1 8 (omega arith), tt)) busy
