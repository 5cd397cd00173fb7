-- ===== src/Build/Group.antt =====
-- For `build_trace_containers` of helper/replay.c: the infos of a block address, and the buckets
-- of a heap of containers.

use mathlib.Core.Option.{some-injective}
use nvm_tools.Base.{
  ℕ, zero, suc, ◌+◌, ◌≤◌, ◌≡◌, refl, sym, ap, ◌∙◌, ◌≢◌, false, some, List, [], ◌∷◌, ◌++◌,
  append-nil, ◌==◌, if◌then◌else◌, length, get_elem?, set, arith, ==_iff,
}
use nvm_tools.Trace.{TraceInfo}
use nvm_tools.Trace.Container.{TraceContainer}

-- The infos of one block address, in order.
abbrev pub at_lba : ℕ → List TraceInfo → List TraceInfo
at_lba k [] = []
at_lba k (x ∷ xs) = if x.lba == k then x ∷ at_lba k xs else at_lba k xs

-- The buckets of neighbouring containers, the first of which has index `i`.
abbrev pub numbered : ℕ → List TraceContainer → List (ℕ × ℕ)
numbered i [] = []
numbered i (t ∷ ts) = (t.meta, i) ∷ numbered (i + 1) ts

pub at_lba-append :
    (k : ℕ) (xs ys : List TraceInfo) → at_lba k (xs ++ ys) ≡ at_lba k xs ++ at_lba k ys
at_lba-append k [] ys = refl
at_lba-append k (x ∷ xs) ys = ground (arith, at_lba-append k xs ys)

pub at_lba_other :
    (k : ℕ) (x : TraceInfo) (xs : List TraceInfo)
    → x.lba ≢ k
    → at_lba k (xs ++ x ∷ []) ≡ at_lba k xs
at_lba_other k x xs ne =
    let no : (x.lba == k) ≡ false = ground arith in
    at_lba-append k xs (x ∷ []) ∙ rw no (append-nil (at_lba k xs))

pub at_lba_own :
    (x : TraceInfo) (xs : List TraceInfo) → at_lba x.lba (xs ++ x ∷ []) ≡ at_lba x.lba xs ++ x ∷ []
at_lba_own x xs = at_lba-append x.lba xs (x ∷ []) ∙ rw ((==_iff x.lba x.lba).1 refl)

pub length-at_lba : (k : ℕ) (l : List TraceInfo) → length (at_lba k l) ≤ length l
length-at_lba k [] = omega arith
length-at_lba k (x ∷ l) = ground (arith, length-at_lba k l)

pub numbered-snoc :
    (ts : List TraceContainer) (i : ℕ) (t : TraceContainer)
    → numbered i (ts ++ t ∷ []) ≡ numbered i ts ++ (t.meta, i + length ts) ∷ []
numbered-snoc [] i t = ap (λ n. (t.meta, n) ∷ []) (omega arith)
numbered-snoc (u ∷ ts) i t =
    ap (λ l. (u.meta, i) ∷ l)
      (numbered-snoc ts (i + 1) t ∙ ap (λ n. numbered (i + 1) ts ++ (t.meta, n) ∷ []) (omega arith))

pub numbered-set :
    (ts : List TraceContainer) (i j : ℕ) (t t' : TraceContainer)
    → get_elem? ts j ≡ some t
    → t'.meta ≡ t.meta
    → numbered i (set ts j t') ≡ numbered i ts
numbered-set [] i j t t' e m = refl
numbered-set (u ∷ ts) i zero t t' e m =
    ap (λ k. (k, i) ∷ numbered (i + 1) ts)
      (m ∙ ap (λ (c : TraceContainer). c.meta) (sym (some-injective _ _ e)))
numbered-set (u ∷ ts) i (suc j) t t' e m =
    ap (λ l. (u.meta, i) ∷ l) (numbered-set ts (i + 1) j t t' e m)
