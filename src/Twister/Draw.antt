-- ===== src/Twister/Draw.antt =====
-- `genrand_int32_r` of helper/mt19937ar.c on a whole state.
use nvm_tools.Base.{
  ℕ, zero, suc, ◌+◌, ◌-◌, ◌<◌, ◌^◌, ◌≤◌, ◌≡◌, refl, ap, ◌∙◌, inl, inr, some, List, [], ◌∷◌, leb,
  ◌==◌, length, get_elem?, set, Run, ok, Returns, arith, Bool-cases, lt→ltb,
}
use nvm_tools.Twister.{
  Mt19937arState, state_words, store_word, twist_word, twist_at, twist_from, regenerate, temper,
  refill, genrand_int32_r,
}
use nvm_tools.Twister.Seed.{seeded, length-seeded, init_genrand_r_lem}

-- An array of `n` words again.
abbrev pub Keeps : ℕ → Run (List ℕ) → Type 0
Keeps n r = Returns r (λ a. length a ≡ n)

length-set : (a : List ℕ) (i w : ℕ) → length (set a i w) ≡ length a
length-set [] i w = refl
length-set (x ∷ a) zero w = refl
length-set (x ∷ a) (suc i) w = ap suc (length-set a i w)

fetch_inside : (a : List ℕ) (i : ℕ) → i < length a → (x : ℕ) × (get_elem? a i ≡ some x)
fetch_inside [] i h = absurd (omega arith)
fetch_inside (x ∷ a) zero h = (x, refl)
fetch_inside (x ∷ a) (suc i) h = fetch_inside a i (omega arith)

store_word_inside : (a : List ℕ) (i w : ℕ) → i < length a → store_word a i w ≡ ok (set a i w)
unfolding store_word
store_word_inside a i w h = rw (lt→ltb i (length a) h)

twist_at_lem :
    (kk next other : ℕ) (mt : List ℕ)
    → kk < length mt
    → next < length mt
    → other < length mt
    → Keeps (length mt) (twist_at kk next other mt)
unfolding twist_at
twist_at_lem kk next other mt h₁ h₂ h₃ =
    let (a, ea) = fetch_inside mt kk h₁ in
    let (b, eb) = fetch_inside mt next h₂ in
    let (c, ec) = fetch_inside mt other h₃ in
    (
      set mt kk (twist_word a b c),
      rw ea (rw eb (rw ec (store_word_inside mt kk (twist_word a b c) h₁))),
      length-set mt kk (twist_word a b c),
    )

twist_from_lem :
    (other : ℕ → ℕ) (rounds kk : ℕ) (mt : List ℕ)
    → kk + rounds < length mt
    → ((k : ℕ) → kk ≤ k → k < kk + rounds → other k < length mt)
    → Keeps (length mt) (twist_from other rounds kk mt)
unfolding twist_from
twist_from_lem other zero kk mt h inside = (mt, refl, refl)
twist_from_lem other (suc rounds) kk mt h inside =
    let (a, run, same) =
      twist_at_lem kk (kk + 1) (other kk) mt (omega arith) (omega arith)
        (inside kk (omega arith) (omega arith)) in
    let (b, rest, keep) =
      twist_from_lem other rounds (kk + 1) a (omega arith)
        (λ k lo hi. rw same (inside k (omega arith) (omega arith))) in
    (b, rw run rest, keep ∙ same)

regenerate_lem : (mt : List ℕ) → length mt ≡ 624 → Keeps 624 (regenerate mt)
unfolding regenerate
regenerate_lem mt n =
    let (a, run_a, na) =
      twist_from_lem (λ kk. kk + 397) 227 0 mt (omega arith) (λ k lo hi. omega arith) in
    let (b, run_b, nb) =
      twist_from_lem (λ kk. kk - 227) 396 227 a (omega arith) (λ k lo hi. omega arith) in
    let (c, run_c, nc) = twist_at_lem 623 0 396 b (omega arith) (omega arith) (omega arith) in
    (c, rw run_a (rw run_b run_c), nc ∙ nb ∙ na ∙ n)

-- A whole state, with a word left to draw.
abbrev IsFull : Mt19937arState → Type 0
IsFull state = (length state.mt ≡ 624) × (state.mti < 624)

refill_lem :
    (state : Mt19937arState)
    → length state.mt ≡ 624
    → state.mti < 2 ^ 31
    → Returns (refill state) IsFull
unfolding refill
refill_lem state n low =
    let sign = lt→ltb state.mti (2 ^ 31) low in
    rw sign (elim (Bool-cases (leb 624 state.mti)) [
      | inr left ↦ (state, rw left, (n, ground arith))
      | inl used ↦ elim (Bool-cases (state.mti == 625)) [
        | inl fresh ↦
            let (mt, run, keep) = regenerate_lem (seeded 5489).mt (length-seeded 5489) in
            (
              record { mt = mt; mti = 0 },
              rw used (rw fresh (rw (init_genrand_r_lem state 5489 n) (rw run))),
              (keep, omega arith),
            )
        | inr old ↦
            let (mt, run, keep) = regenerate_lem state.mt n in
            (record { mt = mt; mti = 0 }, rw used (rw old (rw run)), (keep, omega arith))
      ]
    ])

-- A draw from a state of 624 words whose index is not negative ends, also with an index past the
-- words: it reads and writes within the array, also where it seeds or regenerates the state first,
-- and leaves 624 words and an index of at most 624.
pub genrand_int32_r_lem :
    (state : Mt19937arState)
    → length state.mt ≡ state_words
    → state.mti < 2 ^ 31
    → Returns (genrand_int32_r state) (λ r. (length r.1.mt ≡ state_words) × (r.1.mti ≤ state_words))
unfolding genrand_int32_r
genrand_int32_r_lem state n low =
    let (t, run, full) = refill_lem state n low in
    let (y, here) = fetch_inside t.mt t.mti (omega (arith, full.0, full.1)) in
    ((temper y, record t { mti = t.mti + 1 }), rw run (rw here), (full.0, omega (arith, full.1)))
