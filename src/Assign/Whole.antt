-- ===== src/Assign/Whole.antt =====
-- `assign_params_per_worker` of helper/replay.c as a whole, and the workers that run on what it
-- prepares.
use mathlib.Core.List.{flatten}
use mathlib.Core.List.Perm
use native.Mathlib.Bridge.{le_prop}
use mathlib.Core.Bool.{not}
use nvm_tools.Base.{
  All-Perm, ℕ, ◌^◌, ◌<◌, ◌≤◌, ◌≡◌, refl, ap, ◌∙◌, Bool, true, false, ◌&&◌, some, List, [], ◌∷◌,
  ◌++◌, append_assoc, length, length-append, All, ok, Returns, arith,
}
use nvm_tools.Trace.{TraceInfo, ReplayHint, Mode}
use nvm_tools.Trace.Container.{TraceContainer, IsValid}
use nvm_tools.Fill.{RandGener}
use nvm_tools.Fill.Content.{IsReseeding}
use nvm_tools.Worker.{Os, is_append, replay_worker}
use nvm_tools.Worker.Hint.{IsRegular, IsReplayable}
use nvm_tools.Worker.Effect.{effect}
use nvm_tools.Worker.Whole.{replay_worker_lem}
use nvm_tools.Assign.{ReplayParam, deal, assign_params_per_worker}
use nvm_tools.Assign.Chunks.{joined, joined-append, Hold, Deals}
use nvm_tools.Assign.Deal.{deal_lem}
use nvm_tools.Assign.Prepare.{
  Prepares, PreparesAll, PreparesAll-grows, IsSortable, infos_total, prepare_all_lem,
}

pub IsReplayable-prop : (x : TraceInfo) → IsProp (IsReplayable x)
IsReplayable-prop x = hlevel (le_prop)

infos_total-Hold :
    (ws : List TraceContainer) (chunks : List (List TraceContainer))
    → All IsValid ws
    → Hold ws chunks
    → infos_total ws ≡ length (joined (flatten chunks))
unfolding flatten
infos_total-Hold [] [] v h = refl
infos_total-Hold [] (c ∷ cs) v h = absurd h
infos_total-Hold (w ∷ ws) [] v h = absurd h
infos_total-Hold (w ∷ ws) (c ∷ cs) v h =
    let rest = infos_total-Hold ws cs v.1 h.1 in
    omega (
      arith,
      v.0.counted,
      ap length h.0,
      ap length (joined-append c (flatten cs)),
      length-append (joined c) (joined (flatten cs)),
      rest,
    )

-- The infos of each worker can be replayed.
abbrev pub AllReplayable : List TraceContainer → Type 0
AllReplayable ws = All (λ (w : TraceContainer). All IsReplayable w.infos_map) ws

split_All {ℓ κ} :
    {A : Type ℓ} (P : A → Type κ) (xs ys : List A) → All P (xs ++ ys) → All P xs × All P ys
split_All P [] ys a = (tt, a)
split_All P (x ∷ xs) ys a = let (l, r) = split_All P xs ys a.1 in ((a.0, l), r)

AllReplayable-Hold :
    (ws : List TraceContainer) (chunks : List (List TraceContainer))
    → Hold ws chunks
    → All IsReplayable (joined (flatten chunks))
    → AllReplayable ws
unfolding flatten
AllReplayable-Hold [] [] h a = tt
AllReplayable-Hold [] (c ∷ cs) h a = absurd h
AllReplayable-Hold (w ∷ ws) [] h a = absurd h
AllReplayable-Hold (w ∷ ws) (c ∷ cs) h a =
    let (l, r) =
      split_All IsReplayable (joined c) (joined (flatten cs))
        (rw (joined-append c (flatten cs)) at a) in
    (rw h.0 l, AllReplayable-Hold ws cs h.1 r)

sortable :
    (ws : List TraceContainer)
    → All IsValid ws
    → All (λ (w : TraceContainer). 0 < w.size) ws
    → infos_total ws < 2 ^ 31
    → All IsSortable ws
sortable [] v p few = tt
sortable (w ∷ ws) v p few = (
  record { valid = v.0; some_infos = p.0; small = omega arith },
  sortable ws v.1 p.1 (omega arith),
)

-- What one worker leaves behind, run with its own parameters on the shared hints, in a buffer
-- that `malloc` gave it.
abbrev pub Replays :
    (g : RandGener)
    → g.Ctx
    → (os : Os) → Mode
    → Bool
    → Bool
    → (ℕ → List ℕ)
    → os.File
    → List ReplayHint
    → ReplayParam
    → Type 0
Replays g c₀ os mode is_dump_read fopens malloc file hints p =
    Returns
      (replay_worker g os p.tc.infos_map mode is_dump_read fopens hints p.hints_start p.hints_end c₀
        (malloc p.buf_size))
      (λ t. t.file ≡ effect g c₀ os mode file p.tc.infos_map)

module _ (g : RandGener) (c₀ : g.Ctx) (os : Os) (mode : Mode) (is_dump_read fopens : Bool)
    (malloc : ℕ → List ℕ) (file : os.File) (regular : IsRegular os) (reseeding : IsReseeding g)
    (size : (n : ℕ) → length (malloc n) ≡ n) (dumps : (is_dump_read && not fopens) ≡ false)
    (opens : os.open_file (not os.accessible) (is_append mode) ≡ some file) where
  worker-Replays :
      (m : ℕ) (w : TraceContainer) (old mid later : List ReplayHint) (p : ReplayParam)
      → Prepares m w old p mid
      → All IsReplayable w.infos_map
      → w.size < 2 ^ 31
      → Replays g c₀ os mode is_dump_read fopens malloc file (mid ++ later) p
  worker-Replays m w old mid later p x a small =
      let replayable =
        All-Perm IsReplayable IsReplayable-prop w.infos_map p.tc.infos_map
          (Perm.symm x.sorts.sorted.perm) a in
      let short : length p.tc.infos_map < 2 ^ 40 =
        omega (arith, x.sorts.valid.counted, x.sorts.size) in
      let (t, run, post) =
        replay_worker_lem g c₀ os regular reseeding p.tc.infos_map mode is_dump_read fopens m old
          x.added later c₀ (malloc p.buf_size) file x.tiling replayable short
          (rw (size p.buf_size) x.fits) dumps opens in
      let hints : mid ++ later ≡ old ++ (x.added ++ later) =
        ap (λ l. l ++ later) x.behind ∙ append_assoc old x.added later in
      (t, rw hints (rw x.starts (rw x.ends run)), post)

  workers_replay :
      (m : ℕ) (ws : List TraceContainer) (old : List ReplayHint) (ps : List ReplayParam)
      (new : List ReplayHint)
      → PreparesAll m ws old ps new
      → AllReplayable ws
      → infos_total ws < 2 ^ 31
      → All (Replays g c₀ os mode is_dump_read fopens malloc file new) ps
  workers_replay m [] old [] new x a few = tt
  workers_replay m [] old (p ∷ ps) new x a few = absurd x
  workers_replay m (w ∷ ws) old [] new x a few = absurd x
  workers_replay m (w ∷ ws) old (p ∷ ps) new (mid, x, y) a few =
      let (later, e) = PreparesAll-grows m ws mid ps new y in
      (
        rw e (worker-Replays m w old mid later p x a.0 (omega arith)),
        workers_replay m ws mid ps new y a.1 (omega arith),
      )

  -- If `malloc`, `realloc`, `open` and the dump file succeed, reads succeed, writes are complete
  -- and two neighbouring ones are as one, seeding the generator makes it forget its past and draws
  -- behind it end, there is a worker, the trace has at most 2 ^ 30 infos that can be replayed and
  -- no worker is left without one, then `assign_params_per_worker` ends, deals all infos out in
  -- stretches of the map's order, sorts them and cuts them into hints, and every worker, run on
  -- its own share of the shared hints, ends with its file as if each of its infos had been
  -- replayed alone, in order of time.
  pub replay_lem :
      (rand : ℕ → ℕ) (realloc : ℕ → Bool) (threads m valid_lines : ℕ) (tcs : List TraceContainer)
      → ((n : ℕ) → realloc n ≡ true)
      → 0 < threads
      → valid_lines ≤ 2 ^ 30
      → All IsValid tcs
      → length (joined tcs) ≤ valid_lines
      → All IsReplayable (joined tcs)
      → ((ws : List TraceContainer)
          → deal rand realloc threads valid_lines tcs ≡ ok ws
          → All (λ (w : TraceContainer). 0 < w.size) ws)
      → Returns (assign_params_per_worker rand realloc threads m valid_lines tcs) (λ r.
        (ws : List TraceContainer) × Deals threads tcs ws
        × PreparesAll m ws [] r.0 r.1
        × All (Replays g c₀ os mode is_dump_read fopens malloc file r.1) r.0)
  unfolding assign_params_per_worker
  replay_lem rand realloc threads m valid_lines tcs mem pos small v few a busy =
      let (ws, dealt, d) =
        deal_lem rand realloc threads valid_lines tcs mem pos (omega arith) v (omega arith) in
      let total : infos_total ws ≡ length (joined tcs) =
        infos_total-Hold ws d.chunks d.valid d.held ∙ ap (λ l. length (joined l)) d.all_dealt in
      let (r, run, x) =
        prepare_all_lem valid_lines m ws [] (sortable ws d.valid (busy ws dealt) (omega arith))
          (omega arith) in
      let replayable = AllReplayable-Hold ws d.chunks d.held (rw d.all_dealt a) in
      (r, rw dealt run, (ws, d, x, workers_replay m ws [] r.0 r.1 x replayable (omega arith)))
