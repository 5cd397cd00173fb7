-- ===== src/Base/Outcome.antt =====
-- How a piece of the program ends: with a value, by `exit`, or in undefined behaviour.
use Prim.Native.Nat.{ℕ, zero, suc, ◌+◌, ◌≤◌, ◌<◌}
use mathlib.Core.Path.{◌≡◌, refl, sym, ap, ◌∙◌}
use mathlib.Core.Option.{Option, none, some}
use mathlib.Core.List.{List, [], ◌∷◌, ◌++◌, append_assoc}
use native.Mathlib.Omega.{arith}
use nvm_tools.Base.Tests.{leb, if◌then◌else◌, le→leb, gt→leb}
use nvm_tools.Base.Lists.{
  get_elem?, length, take, drop, length-append, length-take, length-drop, take-append-drop,
}

-- `fault` is undefined behaviour: an access out of bounds or through no valid pointer, a division
-- by zero, or a signed overflow.
pub data Run {ℓ} (A : Type ℓ) : Type ℓ where
  ok : A → Run A
  exit : ℕ → Run A
  fault : Run A

infixl 5 ◌>>=◌
abbrev pub ◌>>=◌ {ℓ ρ} : {X : Type ℓ} {Y : Type ρ} → Run X → (X → Run Y) → Run Y
ok x >>= next = next x
exit status >>= next = exit status
fault >>= next = fault

abbrev pub of_option {ℓ} : {A : Type ℓ} → Option A → Run A
of_option none = fault
of_option (some a) = ok a

-- `a[i]`, a fault where nothing was stored.
abbrev pub fetch {ℓ} : {A : Type ℓ} → List A → ℕ → Run A
fetch a i = of_option (get_elem? a i)

-- The run ends in a value that satisfies `P`.
abbrev pub Returns {ℓ κ} : {A : Type ℓ} → Run A → (A → Type κ) → Type (ℓ ⊔ κ)
Returns {A} run Post = (result : A) × (run ≡ ok result) × Post result

-- The `n` bytes from offset `at` of a buffer, and a store of bytes there.
unfoldable pub load {ℓ} : {A : Type ℓ} → List A → ℕ → ℕ → Run (List A)
load a at n = if leb (at + n) (length a) then ok (take n (drop at a)) else fault

unfoldable pub store {ℓ} : {A : Type ℓ} → List A → ℕ → List A → Run (List A)
store a at new =
    if leb (at + length new) (length a)
    then ok (take at a ++ (new ++ drop (at + length new) a))
    else fault

module _ {ℓ} {A : Type ℓ} where
  pub take-append : (xs ys : List A) (n : ℕ) → length xs ≡ n → take n (xs ++ ys) ≡ xs
  take-append [] ys zero e = refl
  take-append [] ys (suc n) e = absurd (omega arith)
  take-append (x ∷ xs) ys zero e = absurd (omega arith)
  take-append (x ∷ xs) ys (suc n) e = ap (◌∷◌ x) (take-append xs ys n (omega arith))

  pub drop-append : (xs ys : List A) (n : ℕ) → length xs ≡ n → drop n (xs ++ ys) ≡ ys
  drop-append [] ys zero e = refl
  drop-append [] ys (suc n) e = absurd (omega arith)
  drop-append (x ∷ xs) ys zero e = absurd (omega arith)
  drop-append (x ∷ xs) ys (suc n) e = drop-append xs ys n (omega arith)

  pub load-append :
      (pre xs post : List A) (at n : ℕ)
      → length pre ≡ at
      → length xs ≡ n
      → load (pre ++ (xs ++ post)) at n ≡ ok xs
  unfolding load
  load-append pre xs post at n e en =
      rw
        (
          le→leb (at + n) (length (pre ++ (xs ++ post)))
              (omega (arith, length-append pre (xs ++ post), length-append xs post)),
          drop-append pre (xs ++ post) at e,
          take-append xs post n en,
        )
        refl

  pub store-append :
      (pre old post new : List A) (at : ℕ)
      → length pre ≡ at
      → length new ≡ length old
      → store (pre ++ (old ++ post)) at new ≡ ok (pre ++ (new ++ post))
  unfolding store
  store-append pre old post new at e en =
      rw
        (
          le→leb (at + length new) (length (pre ++ (old ++ post)))
              (omega (arith, length-append pre (old ++ post), length-append old post)),
          take-append pre (old ++ post) at e,
        )
        (ap (λ r. ok (pre ++ (new ++ r)))
          (ap (drop (at + length new)) (sym (append_assoc pre old post))
            ∙ drop-append (pre ++ old) post (at + length new)
                (omega (arith, length-append pre old))))

  -- A store that does not fit is undefined; one that fits keeps the length.
  pub store_outside :
      (a new : List A) (at : ℕ) → length a < at + length new → store a at new ≡ fault
  unfolding store
  store_outside a new at h = rw (gt→leb (at + length new) (length a) h)

  pub length-store :
      (a new : List A) (at : ℕ)
      → at + length new ≤ length a
      → Returns (store a at new) (λ b. length b ≡ length a)
  unfolding store
  length-store a new at h = (
    take at a ++ (new ++ drop (at + length new) a),
    rw (le→leb (at + length new) (length a) h),
    omega (
      arith,
      length-append (take at a) (new ++ drop (at + length new) a),
      length-append new (drop (at + length new) a),
      length-take at a,
      length-drop (at + length new) a,
    ),
  )

  -- A load reads what a buffer holds, and never past its end.
  pub load-take :
      (a : List A) (at n : ℕ) → at + n ≤ length a → load a at n ≡ ok (take n (drop at a))
  unfolding load
  load-take a at n h = rw (le→leb (at + n) (length a) h)

  pub regroup : (a b c d : List A) → (a ++ b) ++ (c ++ d) ≡ a ++ ((b ++ c) ++ d)
  regroup a b c d = simp append_assoc

  -- A store at the front of a region.
  pub store_front :
      (pre old post new : List A) (at k : ℕ)
      → length pre ≡ at
      → length new ≡ k
      → k ≤ length old
      → store (pre ++ (old ++ post)) at new ≡ ok ((pre ++ new) ++ (drop k old ++ post))
  store_front pre old post new at k e en h =
      let split : pre ++ (old ++ post) ≡ pre ++ (take k old ++ (drop k old ++ post)) =
        ap (λ l. pre ++ (l ++ post)) (sym (take-append-drop k old))
        ∙ ap (λ l. pre ++ l) (append_assoc (take k old) (drop k old) post) in
      rw split (
        store-append pre (take k old) (drop k old ++ post) new at e
          (omega (arith, length-take k old))
        ∙ ap ok (sym (append_assoc pre new (drop k old ++ post))))
