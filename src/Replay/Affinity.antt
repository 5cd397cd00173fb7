-- ===== src/Replay/Affinity.antt =====
-- For helper/replay.c as a whole: the accesses to one block address, among the workers.
use nvm_tools.Base.{
  All-Perm, All-append, ℕ, ◌+◌, ◌≤◌, ◌≡◌, refl, ap, ◌∙◌, ◌⊎◌, inl, inr, Bool, true, false, ◌||◌,
  List, [], ◌∷◌, ◌++◌, ◌==◌, if◌then◌else◌, All, arith, Bool-cases,
}
use mathlib.Core.List.{Perm, Permᴰ, flatten}
use mathlib.Core.List.Perm
use mathlib.Core.Logic.{∥∥₁_elim}
use nvm_tools.Trace.{TraceInfo, ReplayHint}
use nvm_tools.Trace.Container.{TraceContainer}
use nvm_tools.Build.Group.{at_lba}
use nvm_tools.Assign.Chunks.{joined, Hold, joined-append}
use nvm_tools.Assign.{ReplayParam}
use nvm_tools.Assign.Prepare.{PreparesAll}
use nvm_tools.Replay.Shares.{shares, shares-Perm, joined-Hold}

-- An info of block address `k` counts.
abbrev weight : ℕ → TraceInfo → ℕ
weight k x = if x.lba == k then 1 else 0

abbrev pub hits : ℕ → List TraceInfo → ℕ
hits k [] = 0
hits k (x ∷ l) = weight k x + hits k l

-- The infos of block address `k` are in one of the lists at most.
abbrev pub OneWorker : ℕ → List (List TraceInfo) → Type 0
OneWorker k [] = Unit
OneWorker k (xs ∷ xss) = ((at_lba k xs ≡ []) × OneWorker k xss) ⊎ (at_lba k (flatten xss) ≡ [])

no_hits : (k : ℕ) (l : List TraceInfo) → hits k l ≡ 0 → at_lba k l ≡ []
no_hits k [] h = refl
no_hits k (x ∷ l) h =
    let other : (x.lba == k) ≡ false = ground arith in rw other (no_hits k l (omega arith))

hits-append : (k : ℕ) (xs ys : List TraceInfo) → hits k (xs ++ ys) ≡ hits k xs + hits k ys
hits-append k [] ys = omega arith
hits-append k (x ∷ xs) ys = omega (arith, hits-append k xs ys)

hits-Permᴰ : (k : ℕ) {xs ys : List TraceInfo} → Permᴰ xs ys → hits k xs ≡ hits k ys
hits-Permᴰ k Permᴰ.nil = refl
hits-Permᴰ k (Permᴰ.cons {a = a} {b = b} e d) = omega (arith, ap (weight k) e, hits-Permᴰ k d)
hits-Permᴰ k (Permᴰ.swap {a = a} {b = b} {l = l} e f) =
    omega (arith, ap (weight k) e, ap (weight k) f)
hits-Permᴰ k (Permᴰ.trans d e) = hits-Permᴰ k d ∙ hits-Permᴰ k e

hits-Perm : (k : ℕ) (xs ys : List TraceInfo) → Perm xs ys → hits k xs ≡ hits k ys
hits-Perm k xs ys p =
    let unique : IsProp (hits k xs ≡ hits k ys) = hlevel in ∥∥₁_elim p unique (hits-Permᴰ k)

-- The infos of one address have all of that address, and none of another.
hits-at_lba :
    (k m : ℕ) (l : List TraceInfo) → hits k (at_lba m l) ≡ (if k == m then hits k l else 0)
hits-at_lba k m [] = ground arith
hits-at_lba k m (x ∷ l) = let rest = hits-at_lba k m l in ground arith

-- A list has all infos of the address, or none.
abbrev is_whole : ℕ → ℕ → List TraceInfo → Bool
is_whole k total l = hits k l == 0 || hits k l == total

at_lba-is_whole : (k m : ℕ) (l : List TraceInfo) → is_whole k (hits k l) (at_lba m l) ≡ true
at_lba-is_whole k m l = let count = hits-at_lba k m l in ground arith

-- So has a stretch of containers that do, if it has no more than all.
abbrev pub WholeEach : ℕ → ℕ → List TraceContainer → Type 0
WholeEach k total tcs = All (λ (t : TraceContainer). is_whole k total t.infos_map ≡ true) tcs

whole_sum :
    (a b total sum : ℕ)
    → (a == 0 || a == total) ≡ true
    → (b == 0 || b == total) ≡ true
    → sum ≡ a + b
    → sum ≤ total
    → (sum == 0 || sum == total) ≡ true
whole_sum a b total sum p q e h = ground arith

joined-is_whole :
    (k total : ℕ) (tcs : List TraceContainer)
    → WholeEach k total tcs
    → hits k (joined tcs) ≤ total
    → is_whole k total (joined tcs) ≡ true
joined-is_whole k total [] a h = refl
joined-is_whole k total (t ∷ tcs) a h =
    let sum = hits-append k t.infos_map (joined tcs) in
    let rest = joined-is_whole k total tcs a.1 (omega (arith, sum)) in
    whole_sum (hits k t.infos_map) (hits k (joined tcs)) total (hits k (t.infos_map ++ joined tcs))
      a.0 rest sum h

chunk-is_whole :
    (k total : ℕ) (ws : List TraceContainer) (chunks : List (List TraceContainer))
    → Hold ws chunks
    → WholeEach k total (flatten chunks)
    → hits k (joined (flatten chunks)) ≤ total
    → WholeEach k total ws
unfolding flatten
chunk-is_whole k total [] [] h a b = tt
chunk-is_whole k total [] (c ∷ cs) h a b = absurd h
chunk-is_whole k total (w ∷ ws) [] h a b = absurd h
chunk-is_whole k total (w ∷ ws) (c ∷ cs) h a b =
    let (front, back) =
      All-append (λ (t : TraceContainer). is_whole k total t.infos_map ≡ true) c (flatten cs) a in
    let sum =
      ap (hits k) (joined-append c (flatten cs)) ∙ hits-append k (joined c) (joined (flatten cs)) in
    (
      rw h.0 (joined-is_whole k total c front (omega (arith, sum))),
      chunk-is_whole k total ws cs h.1 back (omega (arith, sum)),
    )

share-is_whole :
    (k total m : ℕ) (ws : List TraceContainer) (old : List ReplayHint) (ps : List ReplayParam)
    (new : List ReplayHint)
    → PreparesAll m ws old ps new
    → WholeEach k total ws
    → All (λ xs. is_whole k total xs ≡ true) (shares ps)
share-is_whole k total m [] old [] new x a = tt
share-is_whole k total m [] old (p ∷ ps) new x a = absurd x
share-is_whole k total m (w ∷ ws) old [] new x a = absurd x
share-is_whole k total m (w ∷ ws) old (p ∷ ps) new (mid, x, y) a = (
  rw (hits-Perm k p.tc.infos_map w.infos_map x.sorts.sorted.perm) a.0,
  share-is_whole k total m ws mid ps new y a.1,
)

whole-OneWorker :
    (k total : ℕ) (xss : List (List TraceInfo))
    → All (λ xs. is_whole k total xs ≡ true) xss
    → hits k (flatten xss) ≤ total
    → OneWorker k xss
unfolding flatten
whole-OneWorker k total [] a h = tt
whole-OneWorker k total (xs ∷ xss) a h =
    let sum = hits-append k xs (flatten xss) in
    elim (Bool-cases (hits k xs == 0)) [
      | inl e ↦
          inl (no_hits k xs (ground arith), whole-OneWorker k total xss a.1 (omega (arith, sum)))
      | inr e ↦ inr (no_hits k (flatten xss) (ground arith))
    ]

-- The containers of a map by block address hold the infos of an address each.
pub containers-WholeEach :
    (k : ℕ) (infos : List TraceInfo) (heap : List TraceContainer)
    → All (λ (t : TraceContainer). t.infos_map ≡ at_lba t.meta infos) heap
    → WholeEach k (hits k infos) heap
containers-WholeEach k infos [] a = tt
containers-WholeEach k infos (t ∷ ts) a =
    (rw a.0 (at_lba-is_whole k t.meta infos), containers-WholeEach k infos ts a.1)

-- In another order too.
pub reordered-WholeEach :
    (k : ℕ) (total : ℕ) (ts us : List TraceContainer)
    → Perm ts us
    → WholeEach k total ts
    → WholeEach k total us
reordered-WholeEach k total =
    All-Perm (λ (t : TraceContainer). is_whole k total t.infos_map ≡ true) (λ t. hlevel)

-- The workers that take the stretches share no block address.
pub shares-OneWorker :
    (k m : ℕ) (infos : List TraceInfo) (tcs ws : List TraceContainer)
    (chunks : List (List TraceContainer)) (ps : List ReplayParam) (new : List ReplayHint)
    → WholeEach k (hits k infos) tcs
    → Perm (joined tcs) infos
    → Hold ws chunks
    → flatten chunks ≡ tcs
    → PreparesAll m ws [] ps new
    → OneWorker k (shares ps)
shares-OneWorker k m infos tcs ws chunks ps new a same h dealt x =
    let b : hits k (joined (flatten chunks)) ≤ hits k infos =
      rw (dealt, hits-Perm k (joined tcs) infos same) (omega arith) in
    let each = chunk-is_whole k (hits k infos) ws chunks h (rw dealt a) b in
    let all : hits k (flatten (shares ps)) ≡ hits k infos =
      hits-Perm k (flatten (shares ps)) infos (
        Perm.trans (shares-Perm m ws [] ps new x)
          (rw (joined-Hold ws chunks h ∙ ap joined dealt) same)) in
    whole-OneWorker k (hits k infos) (shares ps)
      (share-is_whole k (hits k infos) m ws [] ps new x each) (omega (arith, all))
