-- ===== src/Shuffle/Pick.antt =====
-- The blocks of the buffer of helper/shuffle_and_write.cpp, by number.
use nvm_tools.Base.{
  ℕ, zero, suc, ◌+◌, ◌*◌, ◌<◌, ◌≡◌, refl, sym, ap, subst, ◌∙◌, none, some, List, [], ◌∷◌, ◌++◌,
  append_assoc, length, length-append, All, get_elem?, ok, load, load-append, get_elem?_at, arith,
}
use mathlib.Core.List
use mathlib.Core.List.{Perm, flatten}
use mathlib.Core.List.Perm
use native.Mathlib.Nat.{mul_comm}
use nvm_tools.Assign.Chunks.{flatten-append}

-- The numbers from `from` on, `n` of them.
abbrev pub count_up : ℕ → ℕ → List ℕ
count_up from zero = []
count_up from (suc n) = from ∷ count_up (from + 1) n

-- All blocks have `granularity` bytes.
abbrev pub Blocks : ℕ → List (List ℕ) → Type 0
Blocks granularity blocks = All (λ b. length b ≡ granularity) blocks

-- The block of a number, and an empty one where there is none.
pub block_at : List (List ℕ) → ℕ → List ℕ
block_at bs m = elim (get_elem? bs m) [ none ↦ [] | some b ↦ b ]

pub block_at_lem :
    (bs : List (List ℕ)) (m : ℕ) (b : List ℕ) → get_elem? bs m ≡ some b → block_at bs m ≡ b
unfolding block_at
block_at_lem bs m b e = rw (block_at, e) refl

-- The blocks around one of them.
record Around (bs : List (List ℕ)) (m : ℕ) : Type 0 where
  front : List (List ℕ)
  block : List ℕ
  back : List (List ℕ)
  split : bs ≡ front ++ block ∷ back
  place : length front ≡ m

around : (bs : List (List ℕ)) (m : ℕ) → m < length bs → Around bs m
around [] m h = absurd (omega arith)
around (b ∷ bs) zero h = record { front = []; block = b; back = bs; split = refl; place = refl }
around (b ∷ bs) (suc m) h =
    let a = around bs m (omega arith) in
    record {
      front = b ∷ a.front;
      block = a.block;
      back = a.back;
      split = ap (λ l. b ∷ l) a.split;
      place = omega (arith, a.place);
    }

pub length-flatten :
    (granularity : ℕ) (bs : List (List ℕ))
    → Blocks granularity bs
    → length (flatten bs) ≡ granularity * length bs
unfolding flatten
length-flatten granularity [] a = omega arith
length-flatten granularity (b ∷ bs) a =
    omega (arith, length-append b (flatten bs), length-flatten granularity bs a.1, a.0)

split_Blocks :
    (granularity : ℕ) (xs : List (List ℕ)) (y : List ℕ) (ys : List (List ℕ))
    → Blocks granularity (xs ++ y ∷ ys)
    → Blocks granularity xs × (length y ≡ granularity)
split_Blocks granularity [] y ys a = (tt, a.0)
split_Blocks granularity (x ∷ xs) y ys a =
    let (l, r) = split_Blocks granularity xs y ys a.1 in ((a.0, l), r)

pub load-block :
    (granularity : ℕ) (bs : List (List ℕ)) (m : ℕ)
    → Blocks granularity bs
    → m < length bs
    → load (flatten bs) (m * granularity) granularity ≡ ok (block_at bs m)
unfolding flatten
load-block granularity bs m a h =
    let v = around bs m h in
    let (before, own) = split_Blocks granularity v.front v.block v.back (rw v.split at a) in
    let at_m : length (flatten v.front) ≡ m * granularity =
      length-flatten granularity v.front before
      ∙ ap (λ n. granularity * n) v.place
      ∙ mul_comm granularity m in
    let whole : flatten bs ≡ flatten v.front ++ (v.block ++ flatten v.back) =
      ap flatten v.split ∙ flatten-append v.front (v.block ∷ v.back) in
    let here =
      block_at_lem bs m v.block (get_elem?_at bs v.front v.block v.back m v.split v.place) in
    ap (λ l. load l (m * granularity) granularity) whole
    ∙ load-append (flatten v.front) v.block (flatten v.back) (m * granularity) granularity at_m own
    ∙ ap ok (sym here)

pub length-count_up : (n from : ℕ) → length (count_up from n) ≡ n
length-count_up zero from = refl
length-count_up (suc n) from = ap suc (length-count_up n (from + 1))

pub count_up-below : (n from : ℕ) → All (λ m. m < from + n) (count_up from n)
count_up-below zero from = tt
count_up-below (suc n) from =
    let next : from + 1 + n ≡ from + suc n = omega arith in
    (
      omega arith,
      subst (λ k. All (λ m. m < k) (count_up (from + 1) n)) next (count_up-below n (from + 1)),
    )

pub block_at-count_up :
    (bs front back : List (List ℕ)) (from : ℕ)
    → bs ≡ front ++ back
    → length front ≡ from
    → List.map (block_at bs) (count_up from (length back)) ≡ back
block_at-count_up bs front [] from e n = refl
block_at-count_up bs front (b ∷ back) from e n =
    let here = block_at_lem bs from b (get_elem?_at bs front b back from e n) in
    let rest =
      block_at-count_up bs (front ++ b ∷ []) back (from + 1)
        (e ∙ sym (append_assoc front (b ∷ []) back)) (length-append front (b ∷ []) ∙ omega arith) in
    ap (λ c. c ∷ List.map (block_at bs) (count_up (from + 1) (length back))) here
    ∙ ap (λ l. b ∷ l) rest
