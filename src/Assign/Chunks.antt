-- ===== src/Assign/Chunks.antt =====
-- Stretches of containers, and what it is for the workers of helper/replay.c to hold them.
use mathlib.Core.List.{flatten}
use nvm_tools.Base.{
  ℕ, zero, suc, ◌≡◌, refl, sym, ap, ◌∙◌, List, [], ◌∷◌, ◌++◌, append-nil, append_assoc, length,
  replicate, All,
}
use nvm_tools.Trace.{TraceInfo}
use nvm_tools.Trace.Container.{TraceContainer, IsValid}

-- The infos of neighbouring containers.
abbrev pub joined : List TraceContainer → List TraceInfo
joined [] = []
joined (tc ∷ tcs) = tc.infos_map ++ joined tcs

-- The workers' containers hold the chunks, one each.
abbrev pub Hold : List TraceContainer → List (List TraceContainer) → Type 0
Hold [] [] = Unit
Hold [] (c ∷ cs) = ⊥
Hold (w ∷ ws) [] = ⊥
Hold (w ∷ ws) (c ∷ cs) = (w.infos_map ≡ joined c) × Hold ws cs

pub joined-append : (xs ys : List TraceContainer) → joined (xs ++ ys) ≡ joined xs ++ joined ys
joined-append [] ys = refl
joined-append (x ∷ xs) ys =
    ap (λ l. x.infos_map ++ l) (joined-append xs ys)
    ∙ sym (append_assoc x.infos_map (joined xs) (joined ys))

pub Hold-snoc :
    (ws : List TraceContainer) (cs : List (List TraceContainer)) (w : TraceContainer)
    (c : List TraceContainer)
    → Hold ws cs
    → w.infos_map ≡ joined c
    → Hold (ws ++ w ∷ []) (cs ++ c ∷ [])
Hold-snoc [] [] w c h e = (e, tt)
Hold-snoc [] (d ∷ cs) w c h e = absurd h
Hold-snoc (v ∷ ws) [] w c h e = absurd h
Hold-snoc (v ∷ ws) (d ∷ cs) w c h e = (h.0, Hold-snoc ws cs w c h.1 e)

pub flatten-snoc {ℓ} :
    {A : Type ℓ} (xs : List (List A)) (x : List A) → flatten (xs ++ x ∷ []) ≡ flatten xs ++ x
unfolding flatten
flatten-snoc [] x = append-nil x
flatten-snoc (y ∷ xs) x = ap (λ l. y ++ l) (flatten-snoc xs x) ∙ sym (append_assoc y (flatten xs) x)

-- Every worker is valid and holds a stretch of the containers; the stretches make up all of them,
-- in order.
pub record Deals (threads : ℕ) (tcs workers : List TraceContainer) : Type 0 where
  pub count : length workers ≡ threads
  pub valid : All IsValid workers
  pub chunks : List (List TraceContainer)
  pub held : Hold workers chunks
  pub all_dealt : flatten chunks ≡ tcs

-- An idle worker holds the empty chunk.
pub idle_chunks : List TraceContainer → List (List TraceContainer)
idle_chunks [] = []
idle_chunks (t ∷ ts) = [] ∷ idle_chunks ts

pub Hold-idle :
    (ts : List TraceContainer)
    → All (λ (t : TraceContainer). t.infos_map ≡ []) ts
    → Hold ts (idle_chunks ts)
unfolding idle_chunks
Hold-idle [] a = tt
Hold-idle (t ∷ ts) a = (a.0, Hold-idle ts a.1)

pub flatten-idle : (ts : List TraceContainer) → flatten (idle_chunks ts) ≡ []
unfolding idle_chunks flatten
flatten-idle [] = refl
flatten-idle (t ∷ ts) = flatten-idle ts

pub Hold-append :
    (ws vs : List TraceContainer) (cs ds : List (List TraceContainer))
    → Hold ws cs
    → Hold vs ds
    → Hold (ws ++ vs) (cs ++ ds)
Hold-append [] vs [] ds h k = k
Hold-append [] vs (c ∷ cs) ds h k = absurd h
Hold-append (w ∷ ws) vs [] ds h k = absurd h
Hold-append (w ∷ ws) vs (c ∷ cs) ds h k = (h.0, Hold-append ws vs cs ds h.1 k)

pub flatten-append {ℓ} :
    {A : Type ℓ} (xs ys : List (List A)) → flatten (xs ++ ys) ≡ flatten xs ++ flatten ys
unfolding flatten
flatten-append [] ys = refl
flatten-append (x ∷ xs) ys =
    ap (λ l. x ++ l) (flatten-append xs ys) ∙ sym (append_assoc x (flatten xs) (flatten ys))

pub All-replicate {ℓ κ} :
    {A : Type ℓ} (P : A → Type κ) (n : ℕ) (x : A) → P x → All P (replicate n x)
All-replicate P zero x p = tt
All-replicate P (suc n) x p = (p, All-replicate P n x p)
