-- ===== src/Sort/Quick/Partition.antt =====
-- For `_partition_by_ts` of helper/replay.c: what stands on each side of the pivot.
use nvm_tools.Base.{
  All-snoc, ℕ, zero, suc, ◌+◌, ◌%◌, ◌^◌, ◌<◌, ◌≤◌, ◌≡◌, refl, sym, ap, ◌∙◌, inl, inr, false, some,
  List, [], ◌∷◌, ◌++◌, append-nil, append_assoc, ltb, ◌==◌, length, length-append, All, get_elem?,
  set-append, set, Run, ok, get_elem?_at, arith, Bool-cases, lt→ltb, ge→ltb,
}
use mathlib.Core.List.{Perm, perm_middle}
use mathlib.Core.List.Perm
use nvm_tools.Trace.{TraceInfo}
use nvm_tools.Sort.Quick.{exchange_slots, partition_from}

pub set_at :
    (l pre post : List TraceInfo) (x t : TraceInfo) (i : ℕ)
    → l ≡ pre ++ x ∷ post
    → length pre ≡ i
    → set l i t ≡ pre ++ t ∷ post
set_at l pre post x t i e n = rw (e, ← n) (set-append pre post x t)

exchange_far :
    (base m rest : List TraceInfo) (g x : TraceInfo) (i l : ℕ)
    → length base ≡ l
    → i ≡ l + 1 + length m
    → exchange_slots i l (base ++ (g ∷ (m ++ (x ∷ rest)))) ≡ ok (base ++ (x ∷ (m ++ (g ∷ rest))))
unfolding exchange_slots
exchange_far base m rest g x i l e d =
    let before : length (base ++ (g ∷ m)) ≡ i = omega (arith, length-append base (g ∷ m)) in
    let apart : (i == l) ≡ false = ground arith in
    let at_i =
      get_elem?_at (base ++ (g ∷ (m ++ (x ∷ rest)))) (base ++ (g ∷ m)) x rest i
        (sym (append_assoc base (g ∷ m) (x ∷ rest))) before in
    let at_l = get_elem?_at (base ++ (g ∷ (m ++ (x ∷ rest)))) base g (m ++ (x ∷ rest)) l refl e in
    let first =
      set_at (base ++ (g ∷ (m ++ (x ∷ rest)))) (base ++ (g ∷ m)) rest x g i
        (sym (append_assoc base (g ∷ m) (x ∷ rest))) before
      ∙ append_assoc base (g ∷ m) (g ∷ rest) in
    let second = set_at (base ++ (g ∷ (m ++ (g ∷ rest)))) base (m ++ (g ∷ rest)) g x l refl e in
    rw (apart, at_i, at_l, first, second) refl

exchange_same : (i l : ℕ) (a : List TraceInfo) → i ≡ l → exchange_slots i l a ≡ ok a
unfolding exchange_slots
exchange_same i l a e = ground arith

-- What stands behind the pivot already, when the exchange has put an info in front of it.
record Moves (base gs rest : List TraceInfo) (x : TraceInfo) (r : Run (List TraceInfo))
    : Type 0 where
  pub moved : List TraceInfo
  pub run : r ≡ ok ((base ++ x ∷ []) ++ (moved ++ rest))
  pub count : length moved ≡ length gs
  pub perm : (xs : List TraceInfo) → Perm (x ∷ (moved ++ xs)) (gs ++ x ∷ xs)
  pub same :
      (n : ℕ) → All (λ (y : TraceInfo). n ≤ y.ts) gs → All (λ (y : TraceInfo). n ≤ y.ts) moved

Moves-perm :
    (m xs : List TraceInfo) (g x : TraceInfo) → Perm (x ∷ ((m ++ g ∷ []) ++ xs)) (g ∷ (m ++ x ∷ xs))
Moves-perm m xs g x = rw (append_assoc m (g ∷ []) xs) (
    Perm.trans (Perm.cons x (perm_middle m xs))
      (Perm.trans (Perm.swap g x (m ++ xs)) (Perm.cons g (Perm.symm (perm_middle m xs)))))

exchange_slots_lem :
    (base gs rest : List TraceInfo) (x : TraceInfo) (i l : ℕ)
    → length base ≡ l
    → i ≡ l + length gs
    → Moves base gs rest x (exchange_slots i l (base ++ (gs ++ (x ∷ rest))))
exchange_slots_lem base [] rest x i l b e = record {
  moved = [];
  run =
      exchange_same i l (base ++ (x ∷ rest)) (omega arith)
      ∙ ap ok (sym (append_assoc base (x ∷ []) rest));
  count = refl;
  perm = λ xs. Perm.rfl;
  same = λ n a. a;
}
exchange_slots_lem base (g ∷ m) rest x i l b e = record {
  moved = m ++ g ∷ [];
  run =
      exchange_far base m rest g x i l b (omega arith)
      ∙ ap (λ k. ok (base ++ (x ∷ k))) (sym (append_assoc m (g ∷ []) rest))
      ∙ ap ok (sym (append_assoc base (x ∷ []) ((m ++ g ∷ []) ++ rest)));
  count = omega (arith, length-append m (g ∷ []));
  perm = λ xs. Moves-perm m xs g x;
  same = λ n a. All-snoc (λ (y : TraceInfo). n ≤ y.ts) m g a.1 a.0;
}

-- The loop puts the infos before the pivot in front of the others.
pub record Parts (pivot : TraceInfo) (li : ℕ) (base mid post : List TraceInfo)
    (r : Run (ℕ × List TraceInfo)) : Type 0 where
  pub less : List TraceInfo
  pub others : List TraceInfo
  pub run : r ≡ ok (li + length less, base ++ (less ++ (others ++ post)))
  pub perm : Perm (less ++ others) mid
  pub before : All (λ (x : TraceInfo). x.ts < pivot.ts) less
  pub behind : All (λ (x : TraceInfo). pivot.ts ≤ x.ts) others

-- An info in front of the pivot, before the others are parted.
Parts-less :
    (pivot : TraceInfo) (li : ℕ) (base : List TraceInfo) (x : TraceInfo)
    (mid mid' post : List TraceInfo) (r : Run (ℕ × List TraceInfo))
    → Parts pivot (li + 1) (base ++ x ∷ []) mid post r
    → x.ts < pivot.ts
    → Perm (x ∷ mid) mid'
    → Parts pivot li base mid' post r
Parts-less pivot li base x mid mid' post r s l p = record {
  less = x ∷ s.less;
  others = s.others;
  run =
      s.run
      ∙ ap (λ n. ok (n, (base ++ x ∷ []) ++ (s.less ++ (s.others ++ post)))) (omega arith)
      ∙ ap (λ a. ok (li + length (x ∷ s.less), a))
          (append_assoc base (x ∷ []) (s.less ++ (s.others ++ post)));
  perm = Perm.trans (Perm.cons x s.perm) p;
  before = (l, s.before);
  behind = s.behind;
}

regroup_others :
    (base gs : List TraceInfo) (x : TraceInfo) (rest : List TraceInfo)
    → base ++ ((gs ++ x ∷ []) ++ rest) ≡ base ++ (gs ++ (x ∷ rest))
regroup_others base gs x rest = ap (λ l. base ++ l) (append_assoc gs (x ∷ []) rest)

module _ (pivot : TraceInfo) (high : ℕ) (small : high < 2 ^ 63) where
  from_done :
      (f li i : ℕ) (a : List TraceInfo)
      → high < i
      → partition_from (suc f) pivot high li i a ≡ ok (li, a)
  unfolding partition_from
  from_done f li i a h = ground arith

  module _ (f li i : ℕ) (a : List TraceInfo) (x : TraceInfo) (h : i ≤ high)
      (e : get_elem? a i ≡ some x) where
    from_other :
        pivot.ts ≤ x.ts
        → partition_from (suc f) pivot high li i a ≡ partition_from f pivot high li (i + 1) a
    unfolding partition_from
    from_other p =
        let round : (i + 1) % 2 ^ 64 ≡ i + 1 = omega arith in
        let stays = ge→ltb x.ts pivot.ts p in ground arith

    from_less :
        (a' : List TraceInfo)
        → li < i
        → x.ts < pivot.ts
        → exchange_slots i (li + 1) a ≡ ok a'
        → partition_from (suc f) pivot high li i a ≡ partition_from f pivot high (li + 1) (i + 1) a'
    unfolding partition_from
    from_less a' l p s =
        let round : (i + 1) % 2 ^ 64 ≡ i + 1 = omega arith in
        let up : (li + 1) % 2 ^ 64 ≡ li + 1 = omega arith in
        let goes = lt→ltb x.ts pivot.ts p in ground arith

  pub partition_from_lem :
      (f li i : ℕ) (base gs xs post : List TraceInfo)
      → length base ≡ suc li
      → i ≡ suc li + length gs
      → i + length xs ≡ suc high
      → length xs < f
      → All (λ (x : TraceInfo). pivot.ts ≤ x.ts) gs
      → Parts pivot li base
          (gs ++ xs)
          post
          (partition_from f pivot high li i (base ++ (gs ++ (xs ++ post))))
  partition_from_lem zero li i base gs xs post b d e h q = absurd (omega arith)
  partition_from_lem (suc f) li i base gs [] post b d e h q = record {
    less = [];
    others = gs;
    run =
        from_done f li i (base ++ (gs ++ post)) (omega arith)
        ∙ ap (λ n. ok (n, base ++ (gs ++ post))) (omega arith);
    perm = rw (append-nil gs) Perm.rfl;
    before = tt;
    behind = q;
  }
  partition_from_lem (suc f) li i base gs (x ∷ xs) post b d e h q =
      let at_i =
        get_elem?_at (base ++ (gs ++ (x ∷ (xs ++ post)))) (base ++ gs) x (xs ++ post) i
          (sym (append_assoc base gs (x ∷ (xs ++ post)))) (omega (arith, length-append base gs)) in
      elim (Bool-cases (ltb x.ts pivot.ts)) [
        | inl less ↦
            let before : x.ts < pivot.ts = ground arith in
            let s =
              exchange_slots_lem base gs (xs ++ post) x i (li + 1) (omega arith) (omega arith) in
            rw
              (from_less f li i (base ++ (gs ++ (x ∷ (xs ++ post)))) x (omega arith) at_i
                ((base ++ x ∷ []) ++ (s.moved ++ (xs ++ post))) (omega arith) before s.run)
              (Parts-less pivot li base x (s.moved ++ xs) (gs ++ x ∷ xs) post _
                (partition_from_lem f (li + 1) (i + 1) (base ++ x ∷ []) s.moved xs post
                  (omega (arith, length-append base (x ∷ []))) (omega (arith, s.count))
                  (omega arith) (omega arith) (s.same pivot.ts q))
                before (s.perm xs))
        | inr other ↦
            let later : pivot.ts ≤ x.ts = ground arith in
            rw
              (
                from_other f li i (base ++ (gs ++ (x ∷ (xs ++ post)))) x (omega arith) at_i later,
                ← regroup_others base gs x (xs ++ post),
                ← append_assoc gs (x ∷ []) xs,
              )
              (partition_from_lem f li (i + 1) base (gs ++ x ∷ []) xs post b
                (omega (arith, length-append gs (x ∷ []))) (omega arith) (omega arith)
                (All-snoc (λ (y : TraceInfo). pivot.ts ≤ y.ts) gs x q later))
      ]
