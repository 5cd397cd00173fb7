-- ===== src/Sort/Quick/Whole.antt =====
-- `_trace_infomap_qsort_by_ts` of helper/replay.c on a range of an array.
use nvm_tools.Base.{
  All-Perm, All-join, ℕ, zero, suc, ◌+◌, ◌-◌, ◌%◌, ◌^◌, ◌<◌, ◌≤◌, ◌≡◌, refl, sym, ap, ◌∙◌, inl, inr,
  List, [], ◌∷◌, ◌++◌, append_assoc, ◌==◌, length, length-append, All, Run, ok, arith, Bool-cases,
}
use mathlib.Core.List.{Perm, perm_middle}
use mathlib.Core.List.Perm
use native.Mathlib.Bridge.{le_prop}
use nvm_tools.Base.{length-Perm}
use nvm_tools.Trace.{TraceInfo}
use nvm_tools.Sort.Interleave.{IsSorted}
use nvm_tools.Sort.Quick.{partition_by_ts, infomap_qsort_by_ts}
use nvm_tools.Sort.Quick.Pivot.{Partitions, partition_by_ts_lem}

All-weaken :
    (m n : ℕ) (l : List TraceInfo)
    → m ≤ n
    → All (λ (x : TraceInfo). n ≤ x.ts) l
    → All (λ (x : TraceInfo). m ≤ x.ts) l
All-weaken m n [] h a = tt
All-weaken m n (x ∷ l) h a = (omega arith, All-weaken m n l h a.1)

-- A sorted list of infos in front of a pivot, the pivot, and a sorted list behind it.
IsSorted-around :
    (pivot : TraceInfo) (ls gs : List TraceInfo)
    → IsSorted ls
    → All (λ (x : TraceInfo). x.ts < pivot.ts) ls
    → IsSorted gs
    → All (λ (x : TraceInfo). pivot.ts ≤ x.ts) gs
    → IsSorted (ls ++ pivot ∷ gs)
IsSorted-around pivot [] gs sl a sg b = (b, sg)
IsSorted-around pivot (x ∷ ls) gs sl a sg b = (
  All-join (λ (y : TraceInfo). x.ts ≤ y.ts) ls (pivot ∷ gs) sl.0
      (omega arith, All-weaken x.ts pivot.ts gs (omega arith) b),
  IsSorted-around pivot ls gs sl.1 a.1 sg b,
)

-- Sorting a range of an array replaces the range by its infos in order of time.
record QuickSorts (pre seg post : List TraceInfo) (r : Run (List TraceInfo)) : Type 0 where
  pub infos : List TraceInfo
  pub run : r ≡ ok (pre ++ (infos ++ post))
  pub sorted : IsSorted infos
  pub perm : Perm infos seg

qsort_stop :
    (f : ℕ) (a : List TraceInfo) (low high : ℕ)
    → high ≤ low
    → infomap_qsort_by_ts (suc f) a low high ≡ ok a
unfolding infomap_qsort_by_ts
qsort_stop f a low high h = ground arith

module _ (f : ℕ) (a a₁ a₂ : List TraceInfo) (low high pivot : ℕ) (h : low < high)
    (parted : partition_by_ts a low high ≡ ok (pivot, a₁))
    (round : (pivot + 1) % 2 ^ 64 ≡ pivot + 1) where
  qsort_first :
      pivot ≡ 0 → infomap_qsort_by_ts (suc f) a low high ≡ infomap_qsort_by_ts f a₁ (pivot + 1) high
  unfolding infomap_qsort_by_ts
  qsort_first z = ground arith

  qsort_both :
      0 < pivot
      → infomap_qsort_by_ts f a₁ low (pivot - 1) ≡ ok a₂
      → infomap_qsort_by_ts (suc f) a low high ≡ infomap_qsort_by_ts f a₂ (pivot + 1) high
  unfolding infomap_qsort_by_ts
  qsort_both z left = ground arith

-- What the first of the two calls leaves to the second.
record Fronts (pivot : TraceInfo) (pre less rest : List TraceInfo) (f high : ℕ)
    (r : Run (List TraceInfo)) : Type 0 where
  pub front : List TraceInfo
  pub run :
      r
      ≡ infomap_qsort_by_ts f (pre ++ (front ++ pivot ∷ rest)) (length pre + length front + 1) high
  pub sorted : IsSorted front
  pub perm : Perm front less

Fronts-first :
    (pivot : TraceInfo) (pre less rest : List TraceInfo) (f high : ℕ) (r : Run (List TraceInfo))
    → length pre + length less ≡ 0
    → r ≡ infomap_qsort_by_ts f (pre ++ (less ++ pivot ∷ rest)) (length pre + length less + 1) high
    → Fronts pivot pre less rest f high r
Fronts-first pivot pre [] rest f high r z e = record {
  front = [];
  run = e;
  sorted = tt;
  perm = Perm.rfl;
}
Fronts-first pivot pre (x ∷ less) rest f high r z e = absurd (omega arith)

Fronts-both :
    (pivot : TraceInfo) (pre less rest : List TraceInfo) (f high : ℕ) (r : Run (List TraceInfo))
    (l : Run (List TraceInfo))
    → (s : QuickSorts pre less (pivot ∷ rest) l)
    → r
      ≡ infomap_qsort_by_ts f (pre ++ (s.infos ++ pivot ∷ rest)) (length pre + length less + 1) high
    → Fronts pivot pre less rest f high r
Fronts-both pivot pre less rest f high r l s e = record {
  front = s.infos;
  run =
      e
      ∙ ap (λ n. infomap_qsort_by_ts f (pre ++ (s.infos ++ pivot ∷ rest)) (length pre + n + 1) high)
          (sym (length-Perm s.infos less s.perm));
  sorted = s.sorted;
  perm = s.perm;
}

around :
    (pre front rest : List TraceInfo) (pivot : TraceInfo)
    → (pre ++ (front ++ pivot ∷ [])) ++ rest ≡ pre ++ (front ++ pivot ∷ rest)
around pre front rest pivot =
    append_assoc pre (front ++ pivot ∷ []) rest
    ∙ ap (λ l. pre ++ l) (append_assoc front (pivot ∷ []) rest)

-- The two sorted halves, about the pivot.
QuickSorts-join :
    (pivot : TraceInfo) (pre less others xs post : List TraceInfo) (f high : ℕ)
    (r : Run (List TraceInfo))
    → Perm (less ++ others) xs
    → All (λ (x : TraceInfo). x.ts < pivot.ts) less
    → All (λ (x : TraceInfo). pivot.ts ≤ x.ts) others
    → (s : Fronts pivot pre less (others ++ post) f high r)
    → QuickSorts (pre ++ (s.front ++ pivot ∷ [])) others post (
        infomap_qsort_by_ts f
          ((pre ++ (s.front ++ pivot ∷ [])) ++ (others ++ post))
          (length pre + length s.front + 1)
          high)
    → QuickSorts pre (pivot ∷ xs) post r
QuickSorts-join pivot pre less others xs post f high r same a b s t = record {
  infos = s.front ++ pivot ∷ t.infos;
  run =
      s.run
      ∙ ap (λ k. infomap_qsort_by_ts f k (length pre + length s.front + 1) high)
          (sym (around pre s.front (others ++ post) pivot))
      ∙ t.run
      ∙ ap ok (around pre s.front (t.infos ++ post) pivot)
      ∙ ap (λ k. ok (pre ++ k)) (sym (append_assoc s.front (pivot ∷ t.infos) post));
  sorted =
      IsSorted-around pivot s.front t.infos s.sorted
        (All-Perm (λ (x : TraceInfo). x.ts < pivot.ts) (λ x. hlevel (le_prop)) less s.front
          (Perm.symm s.perm) a)
        t.sorted
        (All-Perm (λ (x : TraceInfo). pivot.ts ≤ x.ts) (λ x. hlevel (le_prop)) others t.infos
          (Perm.symm t.perm) b);
  perm = Perm.trans (perm_middle s.front t.infos) (
      Perm.cons pivot (
        Perm.trans (Perm.append_left s.front t.perm)
          (Perm.trans (Perm.append_right others s.perm) same)));
}

-- A call of the quick sort, with as much fuel as the range is long, sorts it.
QuickSortsAll : ℕ → Type 0
QuickSortsAll f =
    (pre seg post : List TraceInfo) (low high : ℕ)
    → length pre ≡ low
    → low + length seg ≡ suc high
    → high < 2 ^ 63
    → length seg < f
    → QuickSorts pre seg post (infomap_qsort_by_ts f (pre ++ (seg ++ post)) low high)

fronts :
    (f : ℕ) (pivot : TraceInfo) (pre xs post : List TraceInfo) (low high : ℕ)
    → QuickSortsAll f
    → length pre ≡ low
    → low + length xs ≡ high
    → low < high
    → high < 2 ^ 63
    → length xs < f
    → (s : Partitions pivot low pre xs post
        (partition_by_ts (pre ++ (pivot ∷ (xs ++ post))) low high))
    → Fronts pivot pre s.less
        (s.others ++ post)
        f
        high
        (infomap_qsort_by_ts (suc f) (pre ++ (pivot ∷ (xs ++ post))) low high)
unfolding QuickSortsAll
fronts f pivot pre xs post low high sort b e h small c s =
    let count : length s.less + length s.others ≡ length xs =
      sym (length-append s.less s.others) ∙ length-Perm (s.less ++ s.others) xs s.perm in
    let a = pre ++ (pivot ∷ (xs ++ post)) in
    let a₁ = pre ++ (s.less ++ pivot ∷ (s.others ++ post)) in
    let round : (low + length s.less + 1) % 2 ^ 64 ≡ low + length s.less + 1 = omega arith in
    let at = ap (λ n. n + length s.less + 1) (sym b) in
    elim (Bool-cases (low + length s.less == 0)) [
      | inl z ↦
          let zeroth : low + length s.less ≡ 0 = ground arith in
          Fronts-first pivot pre s.less (s.others ++ post) f high _ (omega arith) (
            qsort_first f a a₁ a₁ low high (low + length s.less) h s.run round zeroth
            ∙ ap (λ n. infomap_qsort_by_ts f a₁ n high) at)
      | inr z ↦
          let later : 0 < low + length s.less = ground arith in
          let l =
            sort pre s.less (pivot ∷ (s.others ++ post)) low (low + length s.less - 1) b
              (omega arith) (omega arith) (omega arith) in
          let a₂ = pre ++ (l.infos ++ pivot ∷ (s.others ++ post)) in
          Fronts-both pivot pre s.less (s.others ++ post) f high _ _ l (
            qsort_both f a a₁ a₂ low high (low + length s.less) h s.run round later l.run
            ∙ ap (λ n. infomap_qsort_by_ts f a₂ n high) at)
    ]

stopped :
    (f : ℕ) (pre seg post : List TraceInfo) (low high : ℕ)
    → high ≤ low
    → IsSorted seg
    → QuickSorts pre seg post (infomap_qsort_by_ts (suc f) (pre ++ (seg ++ post)) low high)
stopped f pre seg post low high h s = record {
  infos = seg;
  run = qsort_stop f (pre ++ (seg ++ post)) low high h;
  sorted = s;
  perm = Perm.rfl;
}

qsort_step : (f : ℕ) → QuickSortsAll f → QuickSortsAll (suc f)
unfolding QuickSortsAll
qsort_step f sort pre [] post low high b e small c = stopped f pre [] post low high (omega arith) tt
qsort_step f sort pre (x ∷ []) post low high b e small c =
    stopped f pre (x ∷ []) post low high (omega arith) (tt, tt)
qsort_step f sort pre (x ∷ y ∷ xs) post low high b e small c =
    let s = partition_by_ts_lem x pre (y ∷ xs) post low high b (omega arith) small in
    let count : length s.less + length s.others ≡ suc (length xs) =
      sym (length-append s.less s.others) ∙ length-Perm (s.less ++ s.others) (y ∷ xs) s.perm in
    let w =
      fronts f x pre (y ∷ xs) post low high sort b (omega arith) (omega arith) small (omega arith)
        s in
    let same = length-Perm w.front s.less w.perm in
    let behind : length (pre ++ (w.front ++ x ∷ [])) ≡ length pre + length w.front + 1 =
      omega (arith, length-append pre (w.front ++ x ∷ []), length-append w.front (x ∷ [])) in
    QuickSorts-join x pre s.less s.others (y ∷ xs) post f high _ s.perm s.before s.behind w (
      sort (pre ++ (w.front ++ x ∷ [])) s.others post (length pre + length w.front + 1) high behind
        (omega arith) small (omega arith))

qsort_all : (f : ℕ) → QuickSortsAll f
unfolding QuickSortsAll
qsort_all zero pre seg post low high b e small c = absurd (omega arith)
qsort_all (suc f) pre seg post low high b e small c =
    qsort_step f (qsort_all f) pre seg post low high b e small c

-- `_trace_infomap_qsort_by_ts` on a range of an array, with bounds below 2 ^ 63 and a depth of
-- recursion that is greater than the length of the range, ends without an access out of bounds,
-- though its indices are unsigned: the range then holds its infos in ascending order of time
-- stamps, and the array in front of it and behind it is as before.
pub infomap_qsort_by_ts_lem :
    (f : ℕ) (pre seg post : List TraceInfo) (high : ℕ)
    → length pre + length seg ≡ suc high
    → high < 2 ^ 63
    → length seg < f
    → (infos : List TraceInfo) × (infomap_qsort_by_ts f (pre ++ (seg ++ post)) (length pre) high
        ≡ ok (pre ++ (infos ++ post)))
      × IsSorted infos
      × Perm infos seg
unfolding QuickSortsAll
infomap_qsort_by_ts_lem f pre seg post high e small c =
    let s = qsort_all f pre seg post (length pre) high refl e small c in
    (s.infos, s.run, s.sorted, s.perm)
