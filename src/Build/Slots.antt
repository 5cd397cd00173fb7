-- ===== src/Build/Slots.antt =====
-- For `build_trace_containers` of helper/replay.c: reading and storing entries of a heap by index.
use mathlib.Core.List.{Perm, perm_middle}
use mathlib.Core.List.Perm
use mathlib.Core.Option.{none-ne-some, some-injective}
use nvm_tools.Base.{
  ℕ, zero, suc, ◌<◌, ◌≡◌, refl, ap, ◌≢◌, ◌⊎◌, inl, inr, some, List, [], ◌∷◌, ◌++◌, append_assoc,
  length, All, get_elem?, set, arith,
}
use nvm_tools.Trace.{TraceInfo}
use nvm_tools.Trace.Container.{TraceContainer}
use nvm_tools.Assign.Chunks.{joined}

module _ {ℓ} {A : Type ℓ} where
  pub get_elem?_lt : (l : List A) (i : ℕ) (x : A) → get_elem? l i ≡ some x → i < length l
  get_elem?_lt [] i x e = absurd (none-ne-some x e)
  get_elem?_lt (y ∷ l) zero x e = omega arith
  get_elem?_lt (y ∷ l) (suc i) x e = omega (arith, get_elem?_lt l i x e)

  pub get_elem?-set_same :
      (l : List A) (i : ℕ) (x y : A) → get_elem? l i ≡ some x → get_elem? (set l i y) i ≡ some y
  get_elem?-set_same [] i x y e = absurd (none-ne-some x e)
  get_elem?-set_same (z ∷ l) zero x y e = refl
  get_elem?-set_same (z ∷ l) (suc i) x y e = get_elem?-set_same l i x y e

  pub get_elem?-set_other :
      (l : List A) (i j : ℕ) (y : A) → j ≢ i → get_elem? (set l i y) j ≡ get_elem? l j
  get_elem?-set_other [] i j y n = refl
  get_elem?-set_other (z ∷ l) zero zero y n = absurd (n refl)
  get_elem?-set_other (z ∷ l) zero (suc j) y n = refl
  get_elem?-set_other (z ∷ l) (suc i) zero y n = refl
  get_elem?-set_other (z ∷ l) (suc i) (suc j) y n = get_elem?-set_other l i j y (λ e. n (ap suc e))

  pub get_elem?_front :
      (l m : List A) (j : ℕ) (x : A) → get_elem? l j ≡ some x → get_elem? (l ++ m) j ≡ some x
  get_elem?_front [] m j x e = absurd (none-ne-some x e)
  get_elem?_front (y ∷ l) m zero x e = e
  get_elem?_front (y ∷ l) m (suc j) x e = get_elem?_front l m j x e

  pub get_elem?_snoc :
      (l : List A) (j : ℕ) (x y : A)
      → get_elem? (l ++ y ∷ []) j ≡ some x
      → (get_elem? l j ≡ some x) ⊎ ((j ≡ length l) × (y ≡ x))
  get_elem?_snoc [] zero x y e = inr (refl, some-injective _ _ e)
  get_elem?_snoc [] (suc j) x y e = absurd (none-ne-some _ e)
  get_elem?_snoc (z ∷ l) zero x y e = inl e
  get_elem?_snoc (z ∷ l) (suc j) x y e = elim (get_elem?_snoc l j x y e) [
    | inl a ↦ inl a
    | inr b ↦ inr (ap suc b.0, b.1)
  ]

  -- A property of all entries, from a proof for each index.
  pub All-of_each {κ} :
      (P : A → Type κ) (l : List A) → ((j : ℕ) (x : A) → get_elem? l j ≡ some x → P x) → All P l
  All-of_each P [] f = tt
  All-of_each P (x ∷ l) f = (f 0 x refl, All-of_each P l (λ j. f (suc j)))

-- A container that grows by one info adds it to the infos of the heap.
pub joined-set :
    (heap : List TraceContainer) (i : ℕ) (tc tc' : TraceContainer) (x : TraceInfo)
    → get_elem? heap i ≡ some tc
    → tc'.infos_map ≡ tc.infos_map ++ x ∷ []
    → Perm (joined (set heap i tc')) (x ∷ joined heap)
joined-set [] i tc tc' x e c = absurd (none-ne-some _ e)
joined-set (t ∷ heap) zero tc tc' x e c =
    let same : t ≡ tc = some-injective _ _ e in
    rw c (
      rw same (
        rw (append_assoc tc.infos_map (x ∷ []) (joined heap))
          (perm_middle tc.infos_map (joined heap))))
joined-set (t ∷ heap) (suc i) tc tc' x e c =
    Perm.trans (Perm.append_left t.infos_map (joined-set heap i tc tc' x e c))
      (perm_middle t.infos_map (joined heap))
