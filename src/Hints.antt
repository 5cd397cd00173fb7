-- ===== src/Hints.antt =====
-- helper/replay.c, `assign_params_per_worker`: the loop that cuts the sorted infos of one worker
-- into hints, runs of infos that one system call replays.
pub mod Runs
pub mod Loop
use nvm_tools.Base.{
  ℕ, zero, suc, ◌+◌, ◌-◌, Bool, true, false, ◌&&◌, List, [], ◌∷◌, ◌++◌, ltb, ◌==◌, if◌then◌else◌,
  length, Run, ok, fault, ◌>>=◌, fetch, sub64,
}
use nvm_tools.Trace.{TraceInfo, ReplayHint}

-- The variables of the loop: the hints written so far to the shared array (so that `hints_idx` is
-- their number), `consecutive_start` and `_max_continuous_4K_blks`.
pub record Extract : Type 0 where
  pub hints : List ReplayHint
  pub consecutive_start : ℕ
  pub max_blks : ℕ

-- `info->lba - pre->lba == 8 && info->rw == pre->rw`.
abbrev pub joins : TraceInfo → TraceInfo → Bool
joins pre info = sub64 info.lba pre.lba == 8 && info.rw == pre.rw

-- The statements that save the hint of the infos from `consecutive_start` up to `to`; the array
-- has room for `cap` hints.
unfoldable pub save_hint : ℕ → List TraceInfo → ℕ → Extract → Run Extract
save_hint cap slots to s =
    let blks = to - s.consecutive_start in
    if ltb (length s.hints) cap
    then (do
      first ← fetch slots s.consecutive_start
      ok (record {
        hints =
            s.hints
            ++ record {
              continuous_blks = blks;
              start_trace_line = s.consecutive_start;
              rw = first.rw;
            }
              ∷ [];
        consecutive_start = s.consecutive_start;
        max_blks = if ltb s.max_blks blks then blks else s.max_blks;
      }))
    else fault

-- The `for` loop, with `rounds` rounds left, at index `j`.
pub extract_from : ℕ → ℕ → ℕ → List TraceInfo → ℕ → Extract → Run Extract
extract_from zero cap max_continuous slots j s = ok s
extract_from (suc rounds) cap max_continuous slots j s = do
  info ← fetch slots j
  pre ← fetch slots (j - 1)
  elim (joins pre info && ltb (j - s.consecutive_start) max_continuous) [
    | true ↦ extract_from rounds cap max_continuous slots (j + 1) s
    | false ↦ do
      s' ← save_hint cap slots j s
      extract_from rounds cap max_continuous slots (j + 1) (record s' { consecutive_start = j })
  ]

-- The loop and the last hint, over the `size` infos of one worker.
unfoldable pub extract_hints : ℕ → ℕ → List TraceInfo → ℕ → List ReplayHint → Run Extract
unfolding extract_from save_hint
extract_hints cap max_continuous slots size hints = do
  s ←
      extract_from (size - 1) cap max_continuous slots 1
        (record { hints = hints; consecutive_start = 0; max_blks = 0 })
  save_hint cap slots size s
