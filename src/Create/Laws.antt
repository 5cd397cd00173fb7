-- ===== src/Create/Laws.antt =====
-- The files that helper/create_files.c creates.
use nvm_tools.Base.{
  ℕ, zero, suc, ◌+◌, ◌^◌, ◌<◌, ◌≡◌, refl, sym, ap, ◌∙◌, Bool, true, some, List, [], ◌∷◌, ◌++◌,
  length, length-append, get_elem?, ok, Returns, arith, lt→ltb,
}
use nvm_tools.Paths.{decimal}
use nvm_tools.Paths.Laws.{behind-inj, decimal-inj, length-decimal}
use nvm_tools.Create.{name_len, fit_name, create_from, create_files}
use mathlib.Core.Option.{some-injective}

-- The files with the numbers from `from` on, `n` of them.
pub record Creates (base : List ℕ) (n from : ℕ) (names : List (List ℕ)) : Type 0 where
  pub count : length names ≡ n
  pub numbered : (i : ℕ) → i < n → get_elem? names i ≡ some (base ++ decimal (from + i))

fit_name_lem : (s : List ℕ) → length s < name_len → fit_name s ≡ ok s
unfolding fit_name
fit_name_lem s h = rw (fit_name, lt→ltb (length s) name_len h) refl

module _ (creat close : List ℕ → Bool) (creates : (name : List ℕ) → creat name ≡ true)
    (closes : (name : List ℕ) → close name ≡ true) where
  create_from_lem :
      (base : List ℕ) (n from : ℕ)
      → length base < 970
      → Returns (create_from creat close base n from) (Creates base n from)
  unfolding create_from
  create_from_lem base zero from short =
      ([], refl, record { count = refl; numbered = λ i h. absurd (omega arith) })
  create_from_lem base (suc n) from short =
      let name = base ++ decimal from in
      let fits : length name < name_len =
        omega (arith, length-append base (decimal from), length-decimal from) in
      let (names, run, x) = create_from_lem base n (from + 1) short in
      (
        name ∷ names,
        rw (fit_name_lem name fits) (rw (creates name, closes name) (rw run refl)),
        record {
          count = ap suc x.count;
          numbered = λ i h.
              elim i
                  as (λ k.
                    k < suc n → get_elem? (name ∷ names) k ≡ some (base ++ decimal (from + k))) [
                      | zero ↦ λ h. ap (λ k. some (base ++ decimal k)) (omega arith)
                      | suc k ↦ λ h.
                          x.numbered k (omega arith)
                          ∙ ap (λ k. some (base ++ decimal k)) (omega arith)
                    ]
                h;
        },
      )

  -- If `creat` and `close` succeed, the base name is shorter than 970 characters and the number is
  -- not negative, `create_files` ends and creates that many files, the one of index i with i in
  -- decimal behind the base, and no two with the same name.
  pub create_files_lem :
      (atoi : List ℕ → ℕ) (base count : List ℕ)
      → length base < 970
      → atoi count < 2 ^ 31
      → Returns (create_files creat close atoi base count) (λ names.
        Creates base (atoi count) 0 names
        × ((i j : ℕ)
            → i < atoi count
            → j < atoi count
            → get_elem? names i ≡ get_elem? names j
            → i ≡ j))
  unfolding create_files
  create_files_lem atoi base count short small =
      let (names, run, x) = create_from_lem base (atoi count) 0 short in
      (
        names,
        rw (create_files, fit_name_lem base (omega arith), lt→ltb (atoi count) (2 ^ 31) small) run,
        (
          x,
          λ i j hi hj e.
              let same : decimal (0 + i) ≡ decimal (0 + j) =
                behind-inj base (decimal (0 + i)) (decimal (0 + j))
                  (some-injective _ _ (sym (x.numbered i hi) ∙ e ∙ x.numbered j hj)) in
              let number = decimal-inj (0 + i) (0 + j) (omega arith) (omega arith) same in
              omega (arith, number),
        ),
      )
