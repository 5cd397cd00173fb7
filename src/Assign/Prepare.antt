-- ===== src/Assign/Prepare.antt =====
-- The last loop of `assign_params_per_worker` in helper/replay.c, one worker after the other.
use nvm_tools.Base.{
  ℕ, ◌+◌, ◌*◌, ◌^◌, ◌<◌, ◌≤◌, ◌≡◌, refl, sym, ap, ◌∙◌, List, [], ◌∷◌, ◌++◌, append-nil,
  append_assoc, length, length-append, All, Returns, arith,
}
use nvm_tools.Trace.{ReplayHint, blk_size}
use nvm_tools.Trace.Container.{TraceContainer, IsValid}
use nvm_tools.Sort.Whole.{SortsContainer, trace_container_sort_infomap_by_ts_lem}
use nvm_tools.Hints.Runs.{IsTiling}
use nvm_tools.Hints.Loop.{extract_hints_lem}
use nvm_tools.Assign.{ReplayParam, prepare_worker, prepare_all}

-- What a worker with the container `w` is given, where `old` hints were there before and `new`
-- are there behind it.
pub record Prepares (m : ℕ) (w : TraceContainer) (old : List ReplayHint) (p : ReplayParam)
    (new : List ReplayHint) : Type 0 where
  pub sorts : SortsContainer w p.tc
  pub added : List ReplayHint
  pub behind : new ≡ old ++ added
  pub tiling : IsTiling m p.tc.infos_map added
  pub few : length added ≤ w.size
  pub starts : p.hints_start ≡ length old
  pub ends : p.hints_end ≡ length old + length added
  pub fits : All (λ (h : ReplayHint). blk_size * h.continuous_blks ≤ p.buf_size) added

-- The same for all workers.
abbrev pub PreparesAll :
    ℕ → List TraceContainer → List ReplayHint → List ReplayParam → List ReplayHint → Type 0
PreparesAll m [] old [] new = new ≡ old
PreparesAll m [] old (p ∷ ps) new = ⊥
PreparesAll m (w ∷ ws) old [] new = ⊥
PreparesAll m (w ∷ ws) old (p ∷ ps) new =
    (mid : List ReplayHint) × Prepares m w old p mid × PreparesAll m ws mid ps new

-- A container that the sort and the extraction accept.
pub record IsSortable (w : TraceContainer) : Type 0 where
  pub valid : IsValid w
  pub some_infos : 0 < w.size
  pub small : w.size < 2 ^ 31

-- The infos of all workers.
abbrev pub infos_total : List TraceContainer → ℕ
infos_total [] = 0
infos_total (w ∷ ws) = w.size + infos_total ws

scaled :
    (n : ℕ) (l : List ReplayHint)
    → All (λ (h : ReplayHint). h.continuous_blks ≤ n) l
    → All (λ (h : ReplayHint). blk_size * h.continuous_blks ≤ n * blk_size) l
scaled n [] a = tt
scaled n (h ∷ l) a = (omega (arith, a.0), scaled n l a.1)

pub prepare_worker_lem :
    (cap m : ℕ) (old : List ReplayHint) (w : TraceContainer)
    → IsSortable w
    → length old + w.size ≤ cap
    → Returns (prepare_worker cap m old w) (λ r. Prepares m w old r.0 r.1)
unfolding prepare_worker
prepare_worker_lem cap m old w s room =
    let (t, sorted, p) = trace_container_sort_infomap_by_ts_lem w s.valid s.some_infos s.small in
    let (e, ran, x) =
      extract_hints_lem cap m t.size t.infos_map old p.valid.counted (omega (arith, p.size))
        (omega (arith, p.size)) in
    (
      _,
      rw sorted (rw ran),
      record {
        sorts = p;
        added = x.added;
        behind = x.behind;
        tiling = x.tiling;
        few = omega (arith, x.few, p.valid.counted, p.size);
        starts = refl;
        ends = ap length x.behind ∙ length-append old x.added;
        fits = scaled e.max_blks x.added x.fits;
      },
    )

-- If every worker has a valid container of 1 to 2 ^ 31 - 1 infos and the array of hints has room
-- for a hint for each info, the last loop ends; each worker gets its sorted container, a range of
-- hints right behind those of the worker before that tiles it, and a buffer size that every one of
-- its hints fits.
pub prepare_all_lem :
    (cap m : ℕ) (ws : List TraceContainer) (old : List ReplayHint)
    → All IsSortable ws
    → length old + infos_total ws ≤ cap
    → Returns (prepare_all cap m old ws) (λ r. PreparesAll m ws old r.0 r.1)
unfolding prepare_all
prepare_all_lem cap m [] old a room = (([], old), refl, refl)
prepare_all_lem cap m (w ∷ ws) old a room =
    let ((p, mid), run, x) = prepare_worker_lem cap m old w a.0 (omega arith) in
    let count : length mid ≡ length old + length x.added =
      ap length x.behind ∙ length-append old x.added in
    let ((ps, new), rest, y) = prepare_all_lem cap m ws mid a.1 (omega (arith, x.few)) in
    ((p ∷ ps, new), rw run (rw rest), (mid, x, y))

-- The hints that stand in the array stay there.
pub PreparesAll-grows :
    (m : ℕ) (ws : List TraceContainer) (old : List ReplayHint) (ps : List ReplayParam)
    (new : List ReplayHint)
    → PreparesAll m ws old ps new
    → (later : List ReplayHint) × (new ≡ old ++ later)
PreparesAll-grows m [] old [] new p = ([], p ∙ sym (append-nil old))
PreparesAll-grows m [] old (q ∷ ps) new p = absurd p
PreparesAll-grows m (w ∷ ws) old [] new p = absurd p
PreparesAll-grows m (w ∷ ws) old (q ∷ ps) new (mid, x, y) =
    let (later, e) = PreparesAll-grows m ws mid ps new y in
    (x.added ++ later, e ∙ ap (λ l. l ++ later) x.behind ∙ append_assoc old x.added later)
