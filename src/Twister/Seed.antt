-- ===== src/Twister/Seed.antt =====
-- `init_genrand_r` of helper/mt19937ar.c on a whole state.
use nvm_tools.Base.{
  ℕ, zero, suc, ◌+◌, ◌-◌, ◌%◌, ◌^◌, ◌≡◌, refl, ap, ◌∙◌, some, List, [], ◌∷◌, ◌++◌, append_assoc,
  length, length-append, get_elem?, set-append, ok, ◌>>=◌, get_elem?_at, arith, lt→ltb,
}
use nvm_tools.Twister.{
  Mt19937arState, state_words, store_word, seed_word, seed_from, init_genrand_r,
}

-- The words behind `prev`, from index `i` on.
pub words : ℕ → ℕ → ℕ → List ℕ
words zero i prev = []
words (suc n) i prev = seed_word prev i ∷ words n (i + 1) (seed_word prev i)

length-words : (n i prev : ℕ) → length (words n i prev) ≡ n
unfolding words
length-words zero i prev = refl
length-words (suc n) i prev = ap suc (length-words n (i + 1) (seed_word prev i))

abbrev full : List ℕ → Mt19937arState
full mt = record { mt = mt; mti = state_words }

-- The state that a seed gives.
unfoldable pub seeded : ℕ → Mt19937arState
unfolding words
seeded s = full ((s % 2 ^ 32) ∷ words 623 1 (s % 2 ^ 32))

pub length-seeded : (s : ℕ) → length (seeded s).mt ≡ state_words
unfolding seeded
length-seeded s = ap suc (length-words 623 1 (s % 2 ^ 32))

pub store_word-append :
    (pre post : List ℕ) (x w i : ℕ)
    → length pre ≡ i
    → store_word (pre ++ x ∷ post) i w ≡ ok (pre ++ w ∷ post)
unfolding store_word
store_word-append pre post x w i e =
    let inside =
      lt→ltb i (length (pre ++ x ∷ post)) (omega (arith, length-append pre (x ∷ post))) in
    rw inside (ap ok (rw (← e) (set-append pre post x w)))

seed_step :
    (n i : ℕ) (mt mt' : List ℕ) (prev : ℕ)
    → get_elem? mt (i - 1) ≡ some prev
    → store_word mt i (seed_word prev i) ≡ ok mt'
    → seed_from (suc n) i mt ≡ seed_from n (i + 1) mt'
unfolding seed_from
seed_step n i mt mt' prev e stored = rw e (rw stored)

seed_from_lem :
    (rest pre : List ℕ) (prev i : ℕ)
    → length pre + 1 ≡ i
    → seed_from (length rest) i (pre ++ prev ∷ rest) ≡ ok (pre ++ prev ∷ words (length rest) i prev)
unfolding words seed_from
seed_from_lem [] pre prev i e = refl
seed_from_lem (x ∷ rest) pre prev i e =
    let w = seed_word prev i in
    let assoc = append_assoc pre (prev ∷ []) in
    let here =
      get_elem?_at (pre ++ prev ∷ x ∷ rest) pre prev (x ∷ rest) (i - 1) refl (omega arith) in
    let stored =
      store_word-append (pre ++ prev ∷ []) rest x w i (length-append pre (prev ∷ []) ∙ e) in
    let next =
      seed_from_lem rest (pre ++ prev ∷ []) w (i + 1)
        (ap (λ n. n + 1) (length-append pre (prev ∷ []) ∙ e)) in
    seed_step (length rest) i (pre ++ prev ∷ x ∷ rest) (pre ++ prev ∷ w ∷ rest) prev here
      (rw (assoc (x ∷ rest), assoc (w ∷ rest)) at stored)
    ∙ rw (assoc (w ∷ rest), assoc (w ∷ words (length rest) (i + 1) w)) at next

init_steps :
    (mt : List ℕ) (w n : ℕ)
    → length mt ≡ suc n
    → (store_word mt 0 w >>= λ a. seed_from n 1 a >>= λ b. ok (full b))
      ≡ ok (full (w ∷ words n 1 w))
init_steps [] w n e = absurd (omega arith)
init_steps (x ∷ rest) w n e =
    let size : length rest ≡ n = omega arith in
    rw (store_word-append [] rest x w 0 refl)
      (ap (λ r. r >>= λ b. ok (full b)) (rw size at (seed_from_lem rest [] w 1 refl)))

pub init_genrand_r_lem :
    (state : Mt19937arState) (s : ℕ)
    → length state.mt ≡ state_words
    → init_genrand_r state s ≡ ok (seeded s)
unfolding init_genrand_r seeded
init_genrand_r_lem state s e = init_steps state.mt (s % 2 ^ 32) 623 e
