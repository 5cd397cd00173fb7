-- ===== src/Replay/Shares.antt =====
-- helper/replay.c as a whole: from the lines of a trace to the files of the workers.
use nvm_tools.Base.{ℕ, suc, ◌≡◌, refl, sym, ap, ◌∙◌, List, [], ◌∷◌, ◌++◌, length, All}
use mathlib.Core.List.{Perm, flatten}
use mathlib.Core.List.Perm
use nvm_tools.Trace.{TraceInfo, ReplayHint}
use nvm_tools.Trace.Container.{TraceContainer}
use nvm_tools.Sort.Interleave.{IsSorted}
use nvm_tools.Assign.{ReplayParam}
use nvm_tools.Assign.Chunks.{joined, Hold, joined-append}
use nvm_tools.Assign.Prepare.{PreparesAll}

-- What each worker replays, in its order.
abbrev pub shares : List ReplayParam → List (List TraceInfo)
shares [] = []
shares (p ∷ ps) = p.tc.infos_map ∷ shares ps

pub joined-Hold :
    (ws : List TraceContainer) (chunks : List (List TraceContainer))
    → Hold ws chunks
    → joined ws ≡ joined (flatten chunks)
unfolding flatten
joined-Hold [] [] h = refl
joined-Hold [] (c ∷ cs) h = absurd h
joined-Hold (w ∷ ws) [] h = absurd h
joined-Hold (w ∷ ws) (c ∷ cs) h =
    ap (λ l. l ++ joined ws) h.0
    ∙ ap (λ l. joined c ++ l) (joined-Hold ws cs h.1)
    ∙ sym (joined-append c (flatten cs))

pub length-shares :
    (m : ℕ) (ws : List TraceContainer) (old : List ReplayHint) (ps : List ReplayParam)
    (new : List ReplayHint)
    → PreparesAll m ws old ps new
    → length (shares ps) ≡ length ws
length-shares m [] old [] new x = refl
length-shares m [] old (p ∷ ps) new x = absurd x
length-shares m (w ∷ ws) old [] new x = absurd x
length-shares m (w ∷ ws) old (p ∷ ps) new (mid, x, y) = ap suc (length-shares m ws mid ps new y)

pub shares-Perm :
    (m : ℕ) (ws : List TraceContainer) (old : List ReplayHint) (ps : List ReplayParam)
    (new : List ReplayHint)
    → PreparesAll m ws old ps new
    → Perm (flatten (shares ps)) (joined ws)
unfolding flatten
shares-Perm m [] old [] new x = Perm.rfl
shares-Perm m [] old (p ∷ ps) new x = absurd x
shares-Perm m (w ∷ ws) old [] new x = absurd x
shares-Perm m (w ∷ ws) old (p ∷ ps) new (mid, x, y) =
    Perm.trans (Perm.append_right (flatten (shares ps)) x.sorts.sorted.perm)
      (Perm.append_left w.infos_map (shares-Perm m ws mid ps new y))

pub shares-IsSorted :
    (m : ℕ) (ws : List TraceContainer) (old : List ReplayHint) (ps : List ReplayParam)
    (new : List ReplayHint)
    → PreparesAll m ws old ps new
    → All IsSorted (shares ps)
shares-IsSorted m [] old [] new x = tt
shares-IsSorted m [] old (p ∷ ps) new x = absurd x
shares-IsSorted m (w ∷ ws) old [] new x = absurd x
shares-IsSorted m (w ∷ ws) old (p ∷ ps) new (mid, x, y) =
    (x.sorts.sorted.sorted, shares-IsSorted m ws mid ps new y)
