-- ===== src/Aging/Laws.antt =====
-- The punching loop of helper/aging_system.c, against the positions that the generator draws.
use nvm_tools.Base.{
  ℕ, zero, suc, ◌+◌, ◌-◌, ◌*◌, ◌/◌, ◌%◌, ◌^◌, ◌<◌, ◌≤◌, ◌≡◌, refl, ap, subst, ◌∙◌, ◌≢◌, inl, inr,
  Bool, true, false, ◌||◌, some, List, [], ◌∷◌, ◌==◌, if◌then◌else◌, length, replicate, All,
  get_elem?, set, ok, Returns, arith, Bool-cases, ==_iff,
}
use nvm_tools.Build.Slots.{get_elem?-set_same, get_elem?-set_other}
use nvm_tools.Aging.{Punching, punch_at, punch_holes, punch_phase}

abbrev pub elem : ℕ → List ℕ → Bool
elem p [] = false
elem p (q ∷ l) = p == q || elem p l

-- No position twice.
abbrev pub IsDistinct : List ℕ → Type 0
IsDistinct [] = Unit
IsDistinct (p ∷ l) = (elem p l ≡ false) × IsDistinct l

-- How many of `n` drawn positions are new, beside those in `seen`.
abbrev pub new_draws : (ℕ → ℕ) → ℕ → ℕ → ℕ → List ℕ → ℕ
new_draws rand total calls zero seen = 0
new_draws rand total calls (suc n) seen = elim (elem (rand calls % total) seen) [
  | true ↦ new_draws rand total (calls + 1) n seen
  | false ↦ suc (new_draws rand total (calls + 1) n (rand calls % total ∷ seen))
]

abbrev mark : ℕ → List ℕ → ℕ
mark p l = if elem p l then 1 else 0

-- What the loop ends with.
pub record Punches (total holes : ℕ) (s : Punching) : Type 0 where
  pub count : length s.punched ≡ holes
  pub distinct : IsDistinct s.punched
  pub within : All (λ p. p < total) s.punched

-- The invariant: the records mark what is punched.
record IsPunching (total : ℕ) (s : Punching) : Type 0 where
  each : (p : ℕ) → p < total → get_elem? s.records p ≡ some (mark p s.punched)
  distinct : IsDistinct s.punched
  within : All (λ p. p < total) s.punched

module _ (rand : ℕ → ℕ) (total : ℕ) (some_blocks : 0 < total) where
  punch_old :
      (p : ℕ) (s : Punching)
      → IsPunching total s
      → p < total
      → elem p s.punched ≡ true
      → punch_at p s ≡ ok s
  unfolding punch_at
  punch_old p s k lt old = rw (k.each p lt) (rw old)

  punch_new :
      (p : ℕ) (s : Punching)
      → IsPunching total s
      → p < total
      → elem p s.punched ≡ false
      → punch_at p s
        ≡ ok (record {
          hole_num = s.hole_num - 1;
          records = set s.records p 1;
          punched = p ∷ s.punched;
        })
  unfolding punch_at
  punch_new p s k lt new = rw (k.each p lt) (rw new)

  punch_new-IsPunching :
      (p : ℕ) (s : Punching) (left : ℕ)
      → IsPunching total s
      → p < total
      → elem p s.punched ≡ false
      → IsPunching total
          (record { hole_num = left; records = set s.records p 1; punched = p ∷ s.punched })
  punch_new-IsPunching p s left k lt new = record {
    each = λ q h. elim (Bool-cases (q == p)) [
      | inl own ↦
          let e = (==_iff q p).0 own in
          rw own (
            ap (get_elem? (set s.records p 1)) e ∙ get_elem?-set_same s.records p _ 1 (k.each p lt))
      | inr other ↦
          let ne : q ≢ p = ground arith in
          rw other (get_elem?-set_other s.records p q 1 ne ∙ k.each q h)
    ];
    distinct = (new, k.distinct);
    within = (lt, k.within);
  }

  stop :
      (f calls : ℕ) (s : Punching) → s.hole_num ≡ 0 → punch_holes (suc f) rand total calls s ≡ ok s
  unfolding punch_holes
  stop f calls s e = ground arith

  step :
      (f calls : ℕ) (s t : Punching)
      → (s.hole_num == 0) ≡ false
      → punch_at (rand calls % total) s ≡ ok t
      → punch_holes (suc f) rand total calls s ≡ punch_holes f rand total (calls + 1) t
  unfolding punch_holes
  step f calls s t more run =
      let no_zero : (total == 0) ≡ false = ground arith in
      rw (more, punch_holes) (rw (no_zero, punch_holes) (rw run))

  punch_holes_lem :
      (n calls : ℕ) (s : Punching)
      → IsPunching total s
      → s.hole_num ≤ new_draws rand total calls n s.punched
      → Returns
          (punch_holes (suc n) rand total calls s)
          (Punches total (length s.punched + s.hole_num))
  punch_holes_lem zero calls s k few = (
    s,
    stop 0 calls s (omega arith),
    record { count = omega arith; distinct = k.distinct; within = k.within },
  )
  punch_holes_lem (suc n) calls s k few = elim (Bool-cases (s.hole_num == 0)) [
    | inl done ↦
        let e = (==_iff s.hole_num 0).0 done in
        (
          s,
          stop (suc n) calls s e,
          record { count = omega arith; distinct = k.distinct; within = k.within },
        )
    | inr more ↦
        let p = rand calls % total in
        let lt : p < total = omega arith in
        elim (Bool-cases (elem p s.punched)) [
          | inl old ↦
              let (t, run, post) = punch_holes_lem n (calls + 1) s k (rw (old, new_draws) at few) in
              (t, step (suc n) calls s s more (punch_old p s k lt old) ∙ run, post)
          | inr new ↦
              let some_holes : 0 < s.hole_num = ground arith in
              let u : Punching = record {
                hole_num = s.hole_num - 1;
                records = set s.records p 1;
                punched = p ∷ s.punched;
              } in
              let less = rw (new, new_draws) at few in
              let (t, run, post) =
                punch_holes_lem n (calls + 1) u (punch_new-IsPunching p s (s.hole_num - 1) k lt new)
                  (omega (arith, less)) in
              (
                t,
                step (suc n) calls s u more (punch_new p s k lt new) ∙ run,
                record {
                  count = omega (arith, post.count);
                  distinct = post.distinct;
                  within = post.within;
                },
              )
        ]
  ]

get_elem?-replicate : (n p : ℕ) → p < n → get_elem? (replicate {A = ℕ} n 0) p ≡ some 0
get_elem?-replicate zero p h = absurd (omega arith)
get_elem?-replicate (suc n) zero h = refl
get_elem?-replicate (suc n) (suc p) h = get_elem?-replicate n p (omega arith)

-- On a file with blocks, and where the product of blocks and percentage fits 64 bits, the punching
-- loop ends within n rounds if n draws of the generator contain as many different positions as
-- there are holes to punch; it then has punched exactly that many blocks, none twice, and all of
-- them in the file.
pub punch_phase_lem :
    (rand : ℕ → ℕ) (total hole_percent n : ℕ)
    → 0 < total
    → total * hole_percent < 2 ^ 64
    → total * hole_percent / 100 ≤ new_draws rand total 0 n []
    → Returns
        (punch_phase (suc n) rand total hole_percent)
        (Punches total (total * hole_percent / 100))
unfolding punch_phase
punch_phase_lem rand total hole_percent n pos small enough =
    let holes = total * hole_percent % 2 ^ 64 / 100 in
    let same : holes ≡ total * hole_percent / 100 = omega arith in
    let start : Punching = record { hole_num = holes; records = replicate total 0; punched = [] } in
    let (t, run, post) =
      punch_holes_lem rand total pos n 0 start
        (record { each = get_elem?-replicate total; distinct = tt; within = tt })
        (rw same enough) in
    (t, run, subst (λ h. Punches total h t) (omega (arith, same)) post)
