-- ===== src/Sort/Quick/Pivot.antt =====
-- `_partition_by_ts` of helper/replay.c: the pivot between the two sides.
use nvm_tools.Base.{
  All-Perm, ℕ, suc, ◌+◌, ◌%◌, ◌^◌, ◌<◌, ◌≤◌, ◌≡◌, refl, sym, ap, ◌∙◌, some, List, [], ◌∷◌, ◌++◌,
  append-nil, append_assoc, length, length-append, All, get_elem?, set, Run, ok, ◌>>=◌, fetch,
  get_elem?_at, arith,
}
use mathlib.Core.List.{Perm, perm_middle}
use mathlib.Core.List.Perm
use nvm_tools.Base.{length-Perm}
use nvm_tools.Trace.{TraceInfo}
use nvm_tools.Sort.Quick.{partition_from, partition_by_ts}
use native.Mathlib.Bridge.{le_prop}
use nvm_tools.Sort.Quick.Partition.{set_at, partition_from_lem}

-- A list is empty or has a last entry.
data Ends (l : List TraceInfo) : Type 0 where
  empty : l ≡ [] → Ends l
  last : (init : List TraceInfo) (z : TraceInfo) → l ≡ init ++ z ∷ [] → Ends l

ends : (l : List TraceInfo) → Ends l
ends [] = empty refl
ends (x ∷ l) = elim (ends l) [
  | empty e ↦ last [] x (ap (◌∷◌ x) e)
  | last init z e ↦ last (x ∷ init) z (ap (◌∷◌ x) e)
]

-- The statements behind the loop.
abbrev place : ℕ → TraceInfo → ℕ → List TraceInfo → Run (ℕ × List TraceInfo)
place low pivot li a = fetch a li >>= λ x. ok (li, set (set a low x) li pivot)

record Places (pre less rest : List TraceInfo) (pivot : TraceInfo) (li : ℕ)
    (r : Run (ℕ × List TraceInfo)) : Type 0 where
  pub front : List TraceInfo
  pub run : r ≡ ok (li, pre ++ (front ++ pivot ∷ rest))
  pub perm : Perm front less

place_lem :
    (pre less rest : List TraceInfo) (pivot : TraceInfo) (low li : ℕ)
    → length pre ≡ low
    → low + length less ≡ li
    → Places pre less rest pivot li (place low pivot li (pre ++ (pivot ∷ (less ++ rest))))
place_lem pre less rest pivot low li b e = elim (ends less) [
  | empty n ↦
      let here : length pre ≡ li = omega (arith, ap length n) in
      let only : pre ++ (pivot ∷ (less ++ rest)) ≡ pre ++ (pivot ∷ rest) =
        ap (λ l. pre ++ (pivot ∷ (l ++ rest))) n in
      let at = get_elem?_at (pre ++ (pivot ∷ rest)) pre pivot rest li refl here in
      let first = set_at (pre ++ (pivot ∷ rest)) pre rest pivot pivot low refl b in
      let second = set_at (pre ++ (pivot ∷ rest)) pre rest pivot pivot li refl here in
      record { front = []; run = rw (only, at, first, second) refl; perm = rw n Perm.rfl }
  | last init z n ↦
      let far : length (pre ++ (pivot ∷ init)) ≡ li =
        omega (arith, ap length n, length-append pre (pivot ∷ init), length-append init (z ∷ [])) in
      let far' : length (pre ++ (z ∷ init)) ≡ li =
        omega (arith, ap length n, length-append pre (z ∷ init), length-append init (z ∷ [])) in
      let split : pre ++ (pivot ∷ (less ++ rest)) ≡ pre ++ (pivot ∷ (init ++ (z ∷ rest))) =
        ap (λ l. pre ++ (pivot ∷ (l ++ rest))) n
        ∙ ap (λ l. pre ++ (pivot ∷ l)) (append_assoc init (z ∷ []) rest) in
      let at =
        get_elem?_at (pre ++ (pivot ∷ (init ++ (z ∷ rest)))) (pre ++ (pivot ∷ init)) z rest li
          (sym (append_assoc pre (pivot ∷ init) (z ∷ rest))) far in
      let first =
        set_at (pre ++ (pivot ∷ (init ++ (z ∷ rest)))) pre (init ++ (z ∷ rest)) pivot z low refl
          b in
      let second =
        set_at (pre ++ (z ∷ (init ++ (z ∷ rest)))) (pre ++ (z ∷ init)) rest z pivot li
          (sym (append_assoc pre (z ∷ init) (z ∷ rest))) far'
        ∙ append_assoc pre (z ∷ init) (pivot ∷ rest) in
      record {
        front = z ∷ init;
        run = rw (split, at, first, second) refl;
        perm = rw n (Perm.symm (Perm.trans (perm_middle init []) (rw (append-nil init) Perm.rfl)));
      }
]

-- The range of the array is parted about its first info.
pub record Partitions (pivot : TraceInfo) (low : ℕ) (pre xs post : List TraceInfo)
    (r : Run (ℕ × List TraceInfo)) : Type 0 where
  pub less : List TraceInfo
  pub others : List TraceInfo
  pub run : r ≡ ok (low + length less, pre ++ (less ++ pivot ∷ (others ++ post)))
  pub perm : Perm (less ++ others) xs
  pub before : All (λ (x : TraceInfo). x.ts < pivot.ts) less
  pub behind : All (λ (x : TraceInfo). pivot.ts ≤ x.ts) others

partition_run :
    (a a₁ : List TraceInfo) (low high li : ℕ) (pivot : TraceInfo) (r : ℕ × List TraceInfo)
    → get_elem? a low ≡ some pivot
    → (low + 1) % 2 ^ 64 ≡ low + 1
    → partition_from (length a) pivot high low (low + 1) a ≡ ok (li, a₁)
    → place low pivot li a₁ ≡ ok r
    → partition_by_ts a low high ≡ ok r
unfolding partition_by_ts
partition_run a a₁ low high li pivot r at round loop placed = rw at (rw round (rw loop placed))

pub partition_by_ts_lem :
    (pivot : TraceInfo) (pre xs post : List TraceInfo) (low high : ℕ)
    → length pre ≡ low
    → low + length xs ≡ high
    → high < 2 ^ 63
    → Partitions pivot low pre xs post (partition_by_ts (pre ++ (pivot ∷ (xs ++ post))) low high)
partition_by_ts_lem pivot pre xs post low high b e small =
    let a = pre ++ (pivot ∷ (xs ++ post)) in
    let long : length a ≡ length pre + suc (length xs + length post) =
      omega (arith, length-append pre (pivot ∷ (xs ++ post)), length-append xs post) in
    let at = get_elem?_at a pre pivot (xs ++ post) low refl b in
    let round : (low + 1) % 2 ^ 64 ≡ low + 1 = omega arith in
    let s =
      partition_from_lem pivot high small (length a) low (low + 1) (pre ++ pivot ∷ []) [] xs post
        (omega (arith, length-append pre (pivot ∷ []))) (omega arith) (omega arith) (omega arith)
        tt in
    let loop : partition_from (length a) pivot high low (low + 1) a
        ≡ ok (low + length s.less, pre ++ (pivot ∷ (s.less ++ (s.others ++ post)))) =
      ap (partition_from (length a) pivot high low (low + 1))
        (sym (append_assoc pre (pivot ∷ []) (xs ++ post)))
      ∙ s.run
      ∙ ap (λ l. ok (low + length s.less, l))
          (append_assoc pre (pivot ∷ []) (s.less ++ (s.others ++ post))) in
    let p = place_lem pre s.less (s.others ++ post) pivot low (low + length s.less) b refl in
    record {
      less = p.front;
      others = s.others;
      run =
          partition_run a (pre ++ (pivot ∷ (s.less ++ (s.others ++ post)))) low high
            (low + length s.less) pivot _ at round loop p.run
          ∙ ap (λ n. ok (low + n, pre ++ (p.front ++ pivot ∷ (s.others ++ post))))
              (sym (length-Perm p.front s.less p.perm));
      perm = Perm.trans (Perm.append_right s.others p.perm) s.perm;
      before =
          All-Perm (λ (x : TraceInfo). x.ts < pivot.ts) (λ x. hlevel (le_prop)) s.less p.front
            (Perm.symm p.perm) s.before;
      behind = s.behind;
    }
