-- ===== src/Replay/Checks.antt =====
-- `check_param_per_worker` of helper/replay.c on what `assign_params_per_worker` prepares.
use nvm_tools.Base.{
  ℕ, ◌+◌, ◌-◌, ◌<◌, ◌≡◌, refl, sym, ap, ◌∙◌, Bool, true, false, List, [], ◌∷◌, ◌++◌, append_assoc,
  ◌==◌, length, length-append, All, ok, get_elem?_at, arith,
}
use nvm_tools.Trace.{TraceInfo, ReplayHint}
use nvm_tools.Trace.Container.{TraceContainer}
use nvm_tools.Hints.Runs.{IsRun, hints_of}
use nvm_tools.Assign.{ReplayParam}
use nvm_tools.Assign.Prepare.{PreparesAll, PreparesAll-grows, Prepares}
use nvm_tools.Replay.{check_params, check_param_per_worker, check_hints_from}

-- The hint replays a block at least.
abbrev IsNotEmpty : ReplayHint → Type 0
IsNotEmpty h = 0 < h.continuous_blks

hints_of-IsNotEmpty :
    (m from : ℕ) (runs : List (List TraceInfo))
    → All (IsRun m) runs
    → All IsNotEmpty (hints_of from runs)
hints_of-IsNotEmpty m from [] a = tt
hints_of-IsNotEmpty m from (r ∷ rs) a =
    (a.0.some_infos, hints_of-IsNotEmpty m (from + length r) rs a.1)

check_hints_from_lem :
    (hints pre added later : List ReplayHint) (i : ℕ)
    → hints ≡ pre ++ (added ++ later)
    → length pre ≡ i
    → All IsNotEmpty added
    → check_hints_from hints (length added) i ≡ ok tt
unfolding check_hints_from
check_hints_from_lem hints pre [] later i e n a = refl
check_hints_from_lem hints pre (h ∷ added) later i e n a =
    let here = get_elem?_at hints pre h (added ++ later) i e n in
    let counted : (h.continuous_blks == 0) ≡ false = ground arith in
    let rest =
      check_hints_from_lem hints (pre ++ h ∷ []) added later (i + 1)
        (e ∙ sym (append_assoc pre (h ∷ []) (added ++ later)))
        (length-append pre (h ∷ []) ∙ omega arith) a.1 in
    rw here (rw counted rest)

check_param_per_worker_lem :
    (m : ℕ) (w : TraceContainer) (old mid later : List ReplayHint) (p : ReplayParam)
    → Prepares m w old p mid
    → check_param_per_worker (mid ++ later) p ≡ ok tt
unfolding check_param_per_worker
check_param_per_worker_lem m w old mid later p x =
    let hints : mid ++ later ≡ old ++ (x.added ++ later) =
      ap (λ l. l ++ later) x.behind ∙ append_assoc old x.added later in
    let rounds : p.hints_end - p.hints_start ≡ length x.added = omega (arith, x.starts, x.ends) in
    let some_blks : All IsNotEmpty x.added =
      rw x.tiling.hints_eq (hints_of-IsNotEmpty m 0 x.tiling.runs x.tiling.each) in
    rw (rounds, x.starts)
      (check_hints_from_lem (mid ++ later) old x.added later (length old) hints refl some_blks)

check_passes :
    (verbose : Bool) (hints : List ReplayHint) (p : ReplayParam) (ps : List ReplayParam)
    → check_param_per_worker hints p ≡ ok tt
    → check_params verbose hints ps ≡ ok tt
    → check_params verbose hints (p ∷ ps) ≡ ok tt
unfolding check_params
check_passes true hints p ps e rest = rw e rest
check_passes false hints p ps e rest = rest

pub check_params_lem :
    (verbose : Bool) (m : ℕ) (ws : List TraceContainer) (old : List ReplayHint)
    (ps : List ReplayParam) (new : List ReplayHint)
    → PreparesAll m ws old ps new
    → check_params verbose new ps ≡ ok tt
unfolding check_params
check_params_lem verbose m [] old [] new x = refl
check_params_lem verbose m [] old (p ∷ ps) new x = absurd x
check_params_lem verbose m (w ∷ ws) old [] new x = absurd x
check_params_lem verbose m (w ∷ ws) old (p ∷ ps) new (mid, x, y) =
    let (later, e) = PreparesAll-grows m ws mid ps new y in
    check_passes verbose new p ps (rw e (check_param_per_worker_lem m w old mid later p x))
      (check_params_lem verbose m ws mid ps new y)
