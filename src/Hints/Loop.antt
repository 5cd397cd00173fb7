-- ===== src/Hints/Loop.antt =====
-- The loop of `assign_params_per_worker` in helper/replay.c that extracts the hints of a worker.
use nvm_tools.Base.{
  ℕ, suc, ◌+◌, ◌-◌, ◌<◌, ◌≤◌, ◌≡◌, refl, sym, ap, ◌∙◌, inl, inr, true, false, ◌&&◌, some, List, [],
  ◌∷◌, ◌++◌, append-nil, append_assoc, ltb, if◌then◌else◌, length, length-append, All, get_elem?,
  get_elem?_at, ok, ◌>>=◌, Returns, arith, Bool-cases,
}
use nvm_tools.Trace.{TraceInfo, ReplayHint}
use nvm_tools.Hints.{Extract, joins, save_hint, extract_from, extract_hints}
use nvm_tools.Hints.Runs.{
  IsTiling, hint_of, hints_of, runs_from, runs_from_join, runs_from_cut, runs_from-IsTiling,
  length-hints_of,
}

-- `_max_continuous_4K_blks` after the runs.
abbrev pub longest : ℕ → List (List TraceInfo) → ℕ
longest n [] = n
longest n (r ∷ rs) = longest (if ltb n (length r) then length r else n) rs

pub le-longest : (n : ℕ) (rs : List (List TraceInfo)) → n ≤ longest n rs
le-longest n [] = omega arith
le-longest n (r ∷ rs) = ground (arith, le-longest (if ltb n (length r) then length r else n) rs)

pub All-longest : (n : ℕ) (rs : List (List TraceInfo)) → All (λ r. length r ≤ longest n rs) rs
All-longest n [] = tt
All-longest n (r ∷ rs) =
    let next = if ltb n (length r) then length r else n in
    let up : length r ≤ next = ground arith in
    (omega (arith, up, le-longest next rs), All-longest next rs)

module _ (cap m : ℕ) (slots : List TraceInfo) where
  save_hint_lem :
      (to from mx : ℕ) (H : List ReplayHint) (done pre : List TraceInfo) (p : TraceInfo)
      (rest : List TraceInfo)
      → slots ≡ done ++ ((pre ++ p ∷ []) ++ rest)
      → length done ≡ from
      → to ≡ from + length pre + 1
      → length H < cap
      → save_hint cap slots to (record { hints = H; consecutive_start = from; max_blks = mx })
        ≡ ok (record {
          hints = H ++ hint_of from (pre ++ p ∷ []) ∷ [];
          consecutive_start = from;
          max_blks = longest mx ((pre ++ p ∷ []) ∷ []);
        })
  unfolding save_hint
  save_hint_lem to from mx H done [] p rest e ed et room =
      ground (arith, get_elem?_at slots done p rest from e ed)
  save_hint_lem to from mx H done (q ∷ pre) p rest e ed et room = ground (
    arith,
    get_elem?_at slots done q ((pre ++ p ∷ []) ++ rest) from e ed,
    length-append pre (p ∷ []),
  )

  step_join :
      (rounds j : ℕ) (x p : TraceInfo) (s : Extract)
      → get_elem? slots j ≡ some x
      → get_elem? slots (j - 1) ≡ some p
      → (joins p x && ltb (j - s.consecutive_start) m) ≡ true
      → extract_from (suc rounds) cap m slots j s ≡ extract_from rounds cap m slots (j + 1) s
  unfolding extract_from
  step_join rounds j x p s ex ep t = ground arith

  step_cut :
      (rounds j : ℕ) (x p : TraceInfo) (s s' : Extract)
      → get_elem? slots j ≡ some x
      → get_elem? slots (j - 1) ≡ some p
      → (joins p x && ltb (j - s.consecutive_start) m) ≡ false
      → save_hint cap slots j s ≡ ok s'
      → extract_from (suc rounds) cap m slots j s
        ≡ extract_from rounds cap m slots (j + 1) (record s' { consecutive_start = j })
  unfolding extract_from
  step_cut rounds j x p s s' ex ep t r = ground arith

  loop_lem :
      (rest done pre : List TraceInfo) (p : TraceInfo) (H : List ReplayHint) (from j to mx : ℕ)
      → slots ≡ done ++ (pre ++ p ∷ rest)
      → length done ≡ from
      → j ≡ from + length pre + 1
      → to ≡ j + length rest
      → length H + length rest < cap
      → (start : ℕ) × ((extract_from
              (length rest)
              cap
              m
              slots
              j
              (record { hints = H; consecutive_start = from; max_blks = mx })
            >>= save_hint cap slots to)
          ≡ ok (record {
            hints = H ++ hints_of from (runs_from m pre p rest);
            consecutive_start = start;
            max_blks = longest mx (runs_from m pre p rest);
          }))
  unfolding extract_from runs_from
  loop_lem [] done pre p H from j to mx e ed ej et room = (
    from,
    save_hint_lem to from mx H done pre p []
        (e ∙ ap (λ l. done ++ l) (sym (append-nil (pre ++ p ∷ [])))) ed (omega arith) (omega arith),
  )
  loop_lem (x ∷ rest) done pre p H from j to mx e ed ej et room =
      let n = length-append pre (p ∷ []) in
      let e' : slots ≡ done ++ ((pre ++ p ∷ []) ++ x ∷ rest) =
        e ∙ ap (λ l. done ++ l) (sym (append_assoc pre (p ∷ []) (x ∷ rest))) in
      let ex =
        get_elem?_at slots (done ++ (pre ++ p ∷ [])) x rest j
          (e' ∙ sym (append_assoc done (pre ++ p ∷ []) (x ∷ rest)))
          (omega (arith, length-append done (pre ++ p ∷ []), n)) in
      let ep =
        get_elem?_at slots (done ++ pre) p (x ∷ rest) (j - 1)
          (e ∙ sym (append_assoc done pre (p ∷ x ∷ rest)))
          (omega (arith, length-append done pre)) in
      let width : j - from ≡ length pre + 1 = omega arith in
      elim (Bool-cases (joins p x && ltb (length pre + 1) m)) [
        | inl t ↦
            let (start, run) =
              loop_lem rest done (pre ++ p ∷ []) x H from (j + 1) to mx e' ed (omega arith)
                (omega arith) (omega arith) in
            (
              start,
              rw
                  (
                    step_join (length rest) j x p
                        (record { hints = H; consecutive_start = from; max_blks = mx }) ex ep
                        (rw width t),
                    runs_from_join m pre p x rest t,
                  )
                  run,
            )
        | inr t ↦
            let saved =
              save_hint_lem j from mx H done pre p (x ∷ rest) e' ed (omega arith) (omega arith) in
            let (start, run) =
              loop_lem rest (done ++ (pre ++ p ∷ [])) [] x (H ++ hint_of from (pre ++ p ∷ []) ∷ [])
                j (j + 1) to (longest mx ((pre ++ p ∷ []) ∷ []))
                (e' ∙ sym (append_assoc done (pre ++ p ∷ []) (x ∷ rest)))
                (omega (arith, length-append done (pre ++ p ∷ []), n)) (omega arith) (omega arith)
                (omega (arith, length-append H (hint_of from (pre ++ p ∷ []) ∷ []))) in
            let next : from + length (pre ++ p ∷ []) ≡ j = omega (arith, n) in
            (
              start,
              rw
                  (
                    step_cut (length rest) j x p
                        (record { hints = H; consecutive_start = from; max_blks = mx })
                        (record {
                          hints = H ++ hint_of from (pre ++ p ∷ []) ∷ [];
                          consecutive_start = from;
                          max_blks = longest mx ((pre ++ p ∷ []) ∷ []);
                        })
                        ex ep (rw width t) saved,
                    runs_from_cut m pre p x rest t,
                  )
                  (rw next (
                    run
                    ∙ ap
                        (λ hs. ok (record {
                          hints = hs;
                          consecutive_start = start;
                          max_blks = longest mx ((pre ++ p ∷ []) ∷ runs_from m [] x rest);
                        }))
                        (append_assoc H (hint_of from (pre ++ p ∷ []) ∷ [])
                          (hints_of j (runs_from m [] x rest))))),
            )
      ]

-- What the extraction leaves: hints behind the old ones that tile the infos, and a buffer size.
pub record Extracts (m : ℕ) (slots : List TraceInfo) (old : List ReplayHint) (s : Extract)
    : Type 0 where
  pub added : List ReplayHint
  pub behind : s.hints ≡ old ++ added
  pub tiling : IsTiling m slots added
  pub few : length added ≤ length slots
  pub fits : All (λ h. h.continuous_blks ≤ s.max_blks) added

All-hints_of :
    (from n : ℕ) (rs : List (List TraceInfo))
    → All (λ r. length r ≤ n) rs
    → All (λ (h : ReplayHint). h.continuous_blks ≤ n) (hints_of from rs)
All-hints_of from n [] a = tt
All-hints_of from n (r ∷ rs) a = (a.0, All-hints_of (from + length r) n rs a.1)

-- With infos and room for a hint for each of them, the extraction ends; it adds hints behind the
-- old ones that cut the infos into runs, without gap or overlap, where a run is chained, no longer
-- than the configured number, and as long as that allows; and no hint is longer than the size it
-- computes for the buffer.
pub extract_hints_lem :
    (cap m size : ℕ) (slots : List TraceInfo) (old : List ReplayHint)
    → length slots ≡ size
    → 0 < size
    → length old + size ≤ cap
    → Returns (extract_hints cap m slots size old) (Extracts m slots old)
unfolding extract_hints
extract_hints_lem cap m size [] old e pos room = absurd (omega arith)
extract_hints_lem cap m size (p ∷ rest) old e pos room =
    let runs = runs_from m [] p rest in
    let (start, run) =
      loop_lem cap m (p ∷ rest) rest [] [] p old 0 1 size 0 refl refl refl (omega arith)
        (omega arith) in
    let rounds : length rest ≡ size - 1 = omega arith in
    (
      record {
        hints = old ++ hints_of 0 runs;
        consecutive_start = start;
        max_blks = longest 0 runs;
      },
      rw rounds at run,
      record {
        added = hints_of 0 runs;
        behind = refl;
        tiling = runs_from-IsTiling m p rest;
        few = omega (arith, length-hints_of m 0 [] p rest);
        fits = All-hints_of 0 (longest 0 runs) runs (All-longest 0 runs);
      },
    )
