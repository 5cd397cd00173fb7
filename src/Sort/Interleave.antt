-- ===== src/Sort/Interleave.antt =====
-- For `_merge_array_by_ts` of helper/replay.c: the merge of two lists, and what a stable sort is.
use mathlib.Core.List.{Perm, perm_middle}
use mathlib.Core.List.Perm
use nvm_tools.Base.{
  ℕ, suc, ◌+◌, ◌≤◌, ◌≡◌, refl, sym, ◌∙◌, inl, inr, true, false, List, [], ◌∷◌, ◌++◌, append-nil,
  leb, ◌==◌, if◌then◌else◌, length, All, arith, Bool-cases, leb→le,
}
use nvm_tools.Trace.{TraceInfo}

-- Ties are taken from the left.
pub interleave : List TraceInfo → List TraceInfo → List TraceInfo
interleave [] r = r
interleave (x ∷ l) [] = x ∷ l
interleave (x ∷ l) (y ∷ r) = elim (leb x.ts y.ts) [
  | true ↦ x ∷ interleave l (y ∷ r)
  | false ↦ y ∷ interleave (x ∷ l) r
]

-- Ascending by time stamp.
abbrev pub IsSorted : List TraceInfo → Type 0
IsSorted [] = Unit
IsSorted (x ∷ xs) = All (λ y. x.ts ≤ y.ts) xs × IsSorted xs

-- The infos with time stamp `t`, in order.
abbrev pub at_ts : ℕ → List TraceInfo → List TraceInfo
at_ts t [] = []
at_ts t (x ∷ xs) = if x.ts == t then x ∷ at_ts t xs else at_ts t xs

-- `ys` is the stable sort of `xs`.
pub record IsStableSort (xs ys : List TraceInfo) : Type 0 where
  pub sorted : IsSorted ys
  pub perm : Perm ys xs
  pub stable : (t : ℕ) → at_ts t ys ≡ at_ts t xs

pub interleave_left :
    (x y : TraceInfo) (l r : List TraceInfo)
    → leb x.ts y.ts ≡ true
    → interleave (x ∷ l) (y ∷ r) ≡ x ∷ interleave l (y ∷ r)
unfolding interleave
interleave_left x y l r p = ground arith

pub interleave_right :
    (x y : TraceInfo) (l r : List TraceInfo)
    → leb x.ts y.ts ≡ false
    → interleave (x ∷ l) (y ∷ r) ≡ y ∷ interleave (x ∷ l) r
unfolding interleave
interleave_right x y l r p = ground arith

pub nil-interleave : (r : List TraceInfo) → interleave [] r ≡ r
unfolding interleave
nil-interleave r = refl

pub interleave-nil : (l : List TraceInfo) → interleave l [] ≡ l
unfolding interleave
interleave-nil [] = refl
interleave-nil (x ∷ l) = refl

pub length-interleave : (l r : List TraceInfo) → length (interleave l r) ≡ length l + length r
unfolding interleave
length-interleave [] r = omega arith
length-interleave (x ∷ l) [] = omega arith
length-interleave (x ∷ l) (y ∷ r) =
    ground (arith, length-interleave l (y ∷ r), length-interleave (x ∷ l) r)

interleave-All {κ} :
    (P : TraceInfo → Type κ) (l r : List TraceInfo) → All P l → All P r → All P (interleave l r)
unfolding interleave
interleave-All P [] r hl hr = hr
interleave-All P (x ∷ l) [] hl hr = hl
interleave-All P (x ∷ l) (y ∷ r) hl hr = elim (Bool-cases (leb x.ts y.ts)) [
  | inl p ↦ rw (interleave_left x y l r p) (hl.0, interleave-All P l (y ∷ r) hl.1 hr)
  | inr p ↦ rw (interleave_right x y l r p) (hr.0, interleave-All P (x ∷ l) r hl hr.1)
]

All-le_mono : (a b : ℕ) (l : List TraceInfo) → a ≤ b → All (λ y. b ≤ y.ts) l → All (λ y. a ≤ y.ts) l
All-le_mono a b [] p h = tt
All-le_mono a b (x ∷ l) p h = (omega arith, All-le_mono a b l p h.1)

interleave-IsSorted :
    (ls rs : List TraceInfo) → IsSorted ls → IsSorted rs → IsSorted (interleave ls rs)
unfolding interleave
interleave-IsSorted [] rs hl hr = hr
interleave-IsSorted (a ∷ ls) [] hl hr = hl
interleave-IsSorted (a ∷ ls) (b ∷ rs) hl hr = elim (Bool-cases (leb a.ts b.ts)) [
  | inl first ↦
      let le = leb→le a.ts b.ts first in
      let below =
        interleave-All (λ z. a.ts ≤ z.ts) ls (b ∷ rs) hl.0 (le, All-le_mono a.ts b.ts rs le hr.0) in
      rw (interleave_left a b ls rs first) (below, interleave-IsSorted ls (b ∷ rs) hl.1 hr)
  | inr later ↦
      let le : b.ts ≤ a.ts = ground arith in
      let below =
        interleave-All (λ z. b.ts ≤ z.ts) (a ∷ ls) rs (le, All-le_mono b.ts a.ts ls le hl.0) hr.0 in
      rw (interleave_right a b ls rs later) (below, interleave-IsSorted (a ∷ ls) rs hl hr.1)
]

pub perm-interleave : (ls rs : List TraceInfo) → Perm (interleave ls rs) (ls ++ rs)
unfolding interleave
perm-interleave [] rs = Perm.rfl
perm-interleave (a ∷ ls) [] = rw (append-nil ls) Perm.rfl
perm-interleave (a ∷ ls) (b ∷ rs) = elim (Bool-cases (leb a.ts b.ts)) [
  | inl first ↦ rw (interleave_left a b ls rs first) (Perm.cons a (perm-interleave ls (b ∷ rs)))
  | inr later ↦
      rw (interleave_right a b ls rs later) (
        Perm.trans (Perm.cons b (perm-interleave (a ∷ ls) rs))
          (Perm.symm (perm_middle (a ∷ ls) rs)))
]

at_ts_above : (t : ℕ) (l : List TraceInfo) → All (λ y. suc t ≤ y.ts) l → at_ts t l ≡ []
at_ts_above t [] h = refl
at_ts_above t (x ∷ l) h = ground (arith, at_ts_above t l h.1)

-- What is taken from the right passes over no info with the same time stamp.
at_ts-interleave :
    (t : ℕ) (l r : List TraceInfo) → IsSorted l → at_ts t (interleave l r) ≡ at_ts t l ++ at_ts t r
unfolding interleave
at_ts-interleave t [] r sl = refl
at_ts-interleave t (x ∷ l) [] sl = sym (append-nil _)
at_ts-interleave t (x ∷ l) (y ∷ r) sl = elim (Bool-cases (leb x.ts y.ts)) [
  | inl p ↦ rw (interleave_left x y l r p) (elim (Bool-cases (x.ts == t)) [
    | inl e ↦ rw (e, at_ts-interleave t l (y ∷ r) sl.1)
    | inr e ↦ rw (e, at_ts-interleave t l (y ∷ r) sl.1)
  ])
  | inr p ↦ rw (interleave_right x y l r p) (elim (Bool-cases (y.ts == t)) [
    | inl e ↦
        let above : All (λ z. suc t ≤ z.ts) (x ∷ l) =
          let lt : suc t ≤ x.ts = ground arith in (lt, All-le_mono (suc t) x.ts l lt sl.0) in
        rw (e, at_ts-interleave t (x ∷ l) r sl, at_ts_above t (x ∷ l) above)
    | inr e ↦ rw (e, at_ts-interleave t (x ∷ l) r sl)
  ])
]

at_ts-append : (t : ℕ) (l r : List TraceInfo) → at_ts t (l ++ r) ≡ at_ts t l ++ at_ts t r
at_ts-append t [] r = refl
at_ts-append t (x ∷ l) r = ground (arith, at_ts-append t l r)

-- Two stably sorted halves interleave to the stable sort of the whole.
pub interleave-IsStableSort :
    (l r l' r' : List TraceInfo)
    → IsStableSort l l'
    → IsStableSort r r'
    → IsStableSort (l ++ r) (interleave l' r')
interleave-IsStableSort l r l' r' sl sr = record {
  sorted = interleave-IsSorted l' r' sl.sorted sr.sorted;
  perm = Perm.trans (perm-interleave l' r') (Perm.append sl.perm sr.perm);
  stable = λ t.
      at_ts-interleave t l' r' sl.sorted ∙ rw (sl.stable t, sr.stable t) (sym (at_ts-append t l r));
}
