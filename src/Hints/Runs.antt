-- ===== src/Hints/Runs.antt =====
-- For the hints of helper/replay.c: the runs into which a list of infos is cut, and the hints that
-- stand for them.
use mathlib.Core.List.{flatten}
use nvm_tools.Base.{
  ℕ, ◌+◌, ◌<◌, ◌≤◌, max, ◌≡◌, refl, ap, ◌∙◌, ◌⊎◌, inl, inr, true, false, ◌&&◌, List, [], ◌∷◌, ◌++◌,
  append-nil, append_assoc, ltb, length, length-append, All, arith, Bool-cases,
}
use nvm_tools.Trace.{TraceInfo, ReplayHint}
use nvm_tools.Hints.{joins}

-- Neighbours belong together.
abbrev pub IsChained : List TraceInfo → Type 0
IsChained [] = Unit
IsChained (x ∷ []) = Unit
IsChained (x ∷ y ∷ r) = (joins x y ≡ true) × IsChained (y ∷ r)

-- A run is not empty, has at most the configured number of infos, and is chained.
pub record IsRun (max_continuous : ℕ) (run : List TraceInfo) : Type 0 where
  pub some_infos : 0 < length run
  pub bounded : length run ≤ max 1 max_continuous
  pub chained : IsChained run

abbrev first_rw : List TraceInfo → ℕ
first_rw [] = 0
first_rw (x ∷ xs) = x.rw

abbrev pub hint_of : ℕ → List TraceInfo → ReplayHint
hint_of from run = record {
  continuous_blks = length run;
  start_trace_line = from;
  rw = first_rw run;
}

-- The hints of neighbouring runs, the first of which starts at index `from`.
abbrev pub hints_of : ℕ → List (List TraceInfo) → List ReplayHint
hints_of from [] = []
hints_of from (r ∷ rs) = hint_of from r ∷ hints_of (from + length r) rs

-- Between `r` and the next run `s` there was a reason to cut.
abbrev IsCut : ℕ → List TraceInfo → List TraceInfo → Type 0
IsCut max_continuous r s =
    (max_continuous ≤ length r)
    ⊎ ((pre : List TraceInfo) × (x y : TraceInfo) × (post : List TraceInfo) × (r ≡ pre ++ x ∷ [])
        × (s ≡ y ∷ post)
        × (joins x y ≡ false))

abbrev pub IsMaximal : ℕ → List (List TraceInfo) → Type 0
IsMaximal m [] = Unit
IsMaximal m (r ∷ []) = Unit
IsMaximal m (r ∷ s ∷ rs) = IsCut m r s × IsMaximal m (s ∷ rs)

-- `hints` cut `slots` into runs.
pub record IsTiling (m : ℕ) (slots : List TraceInfo) (hints : List ReplayHint) : Type 0 where
  pub runs : List (List TraceInfo)
  pub covers : flatten runs ≡ slots
  pub hints_eq : hints ≡ hints_of 0 runs
  pub each : All (IsRun m) runs
  pub maximal : IsMaximal m runs

-- The runs of `pre ++ p ∷ rest`, where the run under way is `pre ++ p ∷ []`.
unfoldable pub runs_from : ℕ → List TraceInfo → TraceInfo → List TraceInfo → List (List TraceInfo)
runs_from m pre p [] = (pre ++ p ∷ []) ∷ []
runs_from m pre p (x ∷ rest) = elim (joins p x && ltb (length pre + 1) m) [
  | true ↦ runs_from m (pre ++ p ∷ []) x rest
  | false ↦ (pre ++ p ∷ []) ∷ runs_from m [] x rest
]

pub runs_from_join :
    (m : ℕ) (pre : List TraceInfo) (p x : TraceInfo) (rest : List TraceInfo)
    → (joins p x && ltb (length pre + 1) m) ≡ true
    → runs_from m pre p (x ∷ rest) ≡ runs_from m (pre ++ p ∷ []) x rest
unfolding runs_from
runs_from_join m pre p x rest h = rw (h, runs_from)

pub runs_from_cut :
    (m : ℕ) (pre : List TraceInfo) (p x : TraceInfo) (rest : List TraceInfo)
    → (joins p x && ltb (length pre + 1) m) ≡ false
    → runs_from m pre p (x ∷ rest) ≡ (pre ++ p ∷ []) ∷ runs_from m [] x rest
unfolding runs_from
runs_from_cut m pre p x rest h = rw (h, runs_from)

flatten-runs_from :
    (m : ℕ) (pre : List TraceInfo) (p : TraceInfo) (rest : List TraceInfo)
    → flatten (runs_from m pre p rest) ≡ pre ++ p ∷ rest
unfolding flatten runs_from
flatten-runs_from m pre p [] = append-nil (pre ++ p ∷ [])
flatten-runs_from m pre p (x ∷ rest) = elim (Bool-cases (joins p x && ltb (length pre + 1) m)) [
  | inl j ↦
      rw (runs_from_join m pre p x rest j)
        (flatten-runs_from m (pre ++ p ∷ []) x rest ∙ append_assoc pre (p ∷ []) (x ∷ rest))
  | inr c ↦ rw (runs_from_cut m pre p x rest c) (
      ap (λ l. (pre ++ p ∷ []) ++ l) (flatten-runs_from m [] x rest)
      ∙ append_assoc pre (p ∷ []) (x ∷ rest))
]

IsChained-snoc :
    (pre : List TraceInfo) (p x : TraceInfo)
    → IsChained (pre ++ p ∷ [])
    → joins p x ≡ true
    → IsChained ((pre ++ p ∷ []) ++ x ∷ [])
IsChained-snoc [] p x c j = (j, tt)
IsChained-snoc (q ∷ []) p x c j = (c.0, (j, tt))
IsChained-snoc (q ∷ r ∷ pre) p x c j = (c.0, IsChained-snoc (r ∷ pre) p x c.1 j)

closed :
    (m : ℕ) (pre : List TraceInfo) (p : TraceInfo)
    → IsChained (pre ++ p ∷ [])
    → length pre + 1 ≤ max 1 m
    → IsRun m (pre ++ p ∷ [])
closed m pre p c b =
    let n = length-append pre (p ∷ []) in
    record { some_infos = omega (arith, n); bounded = omega (arith, n); chained = c }

pub runs_from-IsRun :
    (m : ℕ) (pre : List TraceInfo) (p : TraceInfo) (rest : List TraceInfo)
    → IsChained (pre ++ p ∷ [])
    → length pre + 1 ≤ max 1 m
    → All (IsRun m) (runs_from m pre p rest)
unfolding runs_from
runs_from-IsRun m pre p [] c b = (closed m pre p c b, tt)
runs_from-IsRun m pre p (x ∷ rest) c b = elim (Bool-cases (joins p x && ltb (length pre + 1) m)) [
  | inl j ↦
      let both : (joins p x ≡ true) × (length pre + 1 < m) = ground arith in
      rw (runs_from_join m pre p x rest j) (
        runs_from-IsRun m (pre ++ p ∷ []) x rest (IsChained-snoc pre p x c both.0)
          (omega (arith, length-append pre (p ∷ []), both.1)))
  | inr n ↦
      rw (runs_from_cut m pre p x rest n)
        (closed m pre p c b, runs_from-IsRun m [] x rest tt (omega arith))
]

runs_from_head :
    (m : ℕ) (pre : List TraceInfo) (p : TraceInfo) (rest : List TraceInfo)
    → (q : List TraceInfo) × (rs : List (List TraceInfo)) × (runs_from m pre p rest
        ≡ (pre ++ p ∷ q) ∷ rs)
unfolding runs_from
runs_from_head m pre p [] = ([], [], refl)
runs_from_head m pre p (x ∷ rest) = elim (Bool-cases (joins p x && ltb (length pre + 1) m)) [
  | inl j ↦
      let (q, rs, e) = runs_from_head m (pre ++ p ∷ []) x rest in
      (
        x ∷ q,
        rs,
        runs_from_join m pre p x rest j ∙ e ∙ ap (λ l. l ∷ rs) (append_assoc pre (p ∷ []) (x ∷ q)),
      )
  | inr c ↦ ([], runs_from m [] x rest, runs_from_cut m pre p x rest c)
]

IsCut-reason :
    (m : ℕ) (pre : List TraceInfo) (p x : TraceInfo) (q : List TraceInfo)
    → (joins p x && ltb (length pre + 1) m) ≡ false
    → IsCut m (pre ++ p ∷ []) (x ∷ q)
IsCut-reason m pre p x q h = elim (Bool-cases (joins p x)) [
  | inr apart ↦ inr (pre, p, x, q, refl, refl, apart)
  | inl together ↦ inl (ground (arith, length-append pre (p ∷ [])))
]

runs_from-IsMaximal :
    (m : ℕ) (pre : List TraceInfo) (p : TraceInfo) (rest : List TraceInfo)
    → IsMaximal m (runs_from m pre p rest)
unfolding runs_from
runs_from-IsMaximal m pre p [] = tt
runs_from-IsMaximal m pre p (x ∷ rest) = elim (Bool-cases (joins p x && ltb (length pre + 1) m)) [
  | inl j ↦ rw (runs_from_join m pre p x rest j) (runs_from-IsMaximal m (pre ++ p ∷ []) x rest)
  | inr c ↦
      let (q, rs, e) = runs_from_head m [] x rest in
      let ih = runs_from-IsMaximal m [] x rest in
      rw (runs_from_cut m pre p x rest c) (rw e (IsCut-reason m pre p x q c, rw e at ih))
]

pub length-hints_of :
    (m from : ℕ) (pre : List TraceInfo) (p : TraceInfo) (rest : List TraceInfo)
    → length (hints_of from (runs_from m pre p rest)) ≤ length rest + 1
unfolding runs_from
length-hints_of m from pre p [] = omega arith
length-hints_of m from pre p (x ∷ rest) = elim (Bool-cases (joins p x && ltb (length pre + 1) m)) [
  | inl j ↦
      rw (runs_from_join m pre p x rest j)
        (omega (arith, length-hints_of m from (pre ++ p ∷ []) x rest))
  | inr n ↦
      rw (runs_from_cut m pre p x rest n)
        (omega (arith, length-hints_of m (from + length (pre ++ p ∷ [])) [] x rest))
]

-- The cut of a list that is not empty.
pub runs_from-IsTiling :
    (m : ℕ) (p : TraceInfo) (rest : List TraceInfo)
    → IsTiling m (p ∷ rest) (hints_of 0 (runs_from m [] p rest))
runs_from-IsTiling m p rest = record {
  runs = runs_from m [] p rest;
  covers = flatten-runs_from m [] p rest;
  hints_eq = refl;
  each = runs_from-IsRun m [] p rest tt (omega arith);
  maximal = runs_from-IsMaximal m [] p rest;
}
