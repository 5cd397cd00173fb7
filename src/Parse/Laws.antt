-- ===== src/Parse/Laws.antt =====
-- `parse_trace_info` of helper/replay.c against the list of the lines that it accepts.
use nvm_tools.Base.{
  ℕ, ◌+◌, ◌<◌, ◌≤◌, ◌≡◌, refl, sym, ap, ◌∙◌, ◌⊎◌, inl, inr, Bool, true, false, Option, none, some,
  List, [], ◌∷◌, ◌++◌, append-nil, append_assoc, if◌then◌else◌, length, length-append, All, ok,
  ◌>>=◌, Returns, arith, Bool-cases, lt→ltb,
}
use nvm_tools.Trace.{TraceInfo, Mode, write_only, read_write, append, ofs_of_lba}
use nvm_tools.Worker.{char_w}
use nvm_tools.Parse.{
  kept_info, strings_fit, Strings, TraceFormat, FiuLine, HitszLine, replay_fiu, replay_hitsz, keeps,
  strip, fiu_info, hitsz_info, keep_info, take_info, info_of_line, parse_lines, parse_trace_info,
}

-- All characters of a line but the last.
abbrev pub but_last : List ℕ → List ℕ
but_last [] = []
but_last (c ∷ []) = []
but_last (c ∷ d ∷ line) = c ∷ but_last (d ∷ line)

strip-line : (line : List ℕ) → 0 < length line → strip line ≡ ok (but_last line)
unfolding strip
strip-line [] h = absurd (omega arith)
strip-line (c ∷ []) h = refl
strip-line (c ∷ d ∷ line) h = rw (strip-line (d ∷ line) (omega arith))

-- The lines that an `accepts` test keeps.
abbrev pub accepted : (List ℕ → Bool) → List (List ℕ) → List (List ℕ)
accepted accepts [] = []
accepted accepts (l ∷ ls) =
    if accepts (but_last l) then l ∷ accepted accepts ls else accepted accepts ls

-- What the records of a trace have in common: they are as the mode wants them, and their offset is
-- that of their block address.
pub record IsParsed (mode : Mode) (x : TraceInfo) : Type 0 where
  pub kept : keeps mode x.rw ≡ true
  pub placed : x.ofs ≡ ofs_of_lba x.lba

keeps_w : (mode : Mode) → keeps mode char_w ≡ true
keeps_w write_only = refl
keeps_w read_write = refl
keeps_w append = refl

module _ (strings : TraceFormat → List ℕ → Strings) (scan_fiu : List ℕ → Option FiuLine)
    (scan_hitsz : List ℕ → Option HitszLine) (memory : ℕ → TraceInfo) (mode : Mode) where
  -- A line is accepted if it has all fields and, in the FIU format, an access that the mode keeps.
  abbrev pub accepts : TraceFormat → List ℕ → Bool
  accepts replay_fiu line = elim (scan_fiu line) [ none ↦ false | some f ↦ keeps mode f.rw ]
  accepts replay_hitsz line = elim (scan_hitsz line) [ none ↦ false | some f ↦ true ]

  -- The info at index `i` comes from the line `l`.
  abbrev Records : TraceFormat → ℕ → List (List ℕ) → List TraceInfo → Type 0
  Records format i [] [] = Unit
  Records format i [] (x ∷ xs) = ⊥
  Records format i (l ∷ ls) [] = ⊥
  Records format i (l ∷ ls) (x ∷ xs) =
      (kept_info strings scan_fiu scan_hitsz memory mode format i (but_last l) ≡ some x)
      × Records format (i + 1) ls xs

  pub record Parses (format : TraceFormat) (lines : List (List ℕ)) (infos : List TraceInfo)
      : Type 0 where
    pub records : Records format 0 (accepted (accepts format) lines) infos
    pub parsed : All (IsParsed mode) infos
    pub bounded : length infos ≤ length lines

  -- What becomes of a line, against whether it is accepted.
  abbrev Judged : TraceFormat → ℕ → List ℕ → Type 0
  Judged format i line =
      ((kept_info strings scan_fiu scan_hitsz memory mode format i line ≡ none)
        × (accepts format line ≡ false))
      ⊎ ((x : TraceInfo) × (kept_info strings scan_fiu scan_hitsz memory mode format i line
            ≡ some x)
          × (accepts format line ≡ true)
          × IsParsed mode x)

  judge_fiu :
      (i : ℕ) (line : List ℕ) (o : Option FiuLine) → scan_fiu line ≡ o → Judged replay_fiu i line
  unfolding kept_info
  judge_fiu i line none e = inl (rw (e, kept_info), rw (e, accepts))
  judge_fiu i line (some f) e = elim (Bool-cases (keeps mode f.rw)) [
    | inl k ↦ inr (
      fiu_info (strings replay_fiu line).md5 f,
      rw (e, kept_info) (rw k),
      rw (e, accepts) k,
      record { kept = k; placed = refl },
    )
    | inr k ↦ inl (rw (e, kept_info) (rw k), rw (e, accepts) k)
  ]

  judge_hitsz :
      (i : ℕ) (line : List ℕ) (o : Option HitszLine)
      → scan_hitsz line ≡ o
      → Judged replay_hitsz i line
  unfolding kept_info
  judge_hitsz i line none e = inl (rw (e, kept_info), rw (e, accepts))
  judge_hitsz i line (some f) e = inr (
    hitsz_info (memory i) (strings replay_hitsz line).md5 f,
    rw (e, kept_info),
    rw (e, accepts),
    record { kept = keeps_w mode; placed = refl },
  )

  judge : (format : TraceFormat) (i : ℕ) (line : List ℕ) → Judged format i line
  judge replay_fiu i line = judge_fiu i line (scan_fiu line) refl
  judge replay_hitsz i line = judge_hitsz i line (scan_hitsz line) refl

  kept :
      (limit : ℕ) (infos : List TraceInfo) (x : TraceInfo)
      → length infos < limit
      → keep_info limit infos x ≡ ok (infos ++ x ∷ [])
  unfolding keep_info
  kept limit infos x room = rw (lt→ltb (length infos) limit room)

  skip_line :
      (format : TraceFormat) (limit : ℕ) (line : List ℕ) (lines : List (List ℕ))
      (infos : List TraceInfo)
      → 0 < length line
      → strings_fit (strings format (but_last line)) ≡ true
      → kept_info strings scan_fiu scan_hitsz memory mode format (length infos) (but_last line)
        ≡ none
      → parse_lines strings scan_fiu scan_hitsz memory mode format limit (line ∷ lines) infos
        ≡ parse_lines strings scan_fiu scan_hitsz memory mode format limit lines infos
  unfolding parse_lines take_info info_of_line
  skip_line format limit line lines infos h w e = rw (strip-line line h) (
      rw w (
        ap
          (λ o.
            take_info limit o infos
            >>= parse_lines strings scan_fiu scan_hitsz memory mode format limit lines)
          e))

  keep_line :
      (format : TraceFormat) (limit : ℕ) (line : List ℕ) (lines : List (List ℕ))
      (infos : List TraceInfo) (x : TraceInfo)
      → 0 < length line
      → strings_fit (strings format (but_last line)) ≡ true
      → kept_info strings scan_fiu scan_hitsz memory mode format (length infos) (but_last line)
        ≡ some x
      → length infos < limit
      → parse_lines strings scan_fiu scan_hitsz memory mode format limit (line ∷ lines) infos
        ≡ parse_lines strings scan_fiu scan_hitsz memory mode format limit lines (infos ++ x ∷ [])
  unfolding parse_lines take_info info_of_line
  keep_line format limit line lines infos x h w e room = rw (strip-line line h) (
      rw w (
        ap
          (λ o.
            take_info limit o infos
            >>= parse_lines strings scan_fiu scan_hitsz memory mode format limit lines)
          e
        ∙ ap (λ r. r >>= parse_lines strings scan_fiu scan_hitsz memory mode format limit lines)
            (kept limit infos x room)))

  -- A line is not empty, and what it stores to the two arrays fits.
  abbrev pub IsLine : TraceFormat → List ℕ → Type 0
  IsLine format l = (0 < length l) × (strings_fit (strings format (but_last l)) ≡ true)

  parse_lines_lem :
      (format : TraceFormat) (lines : List (List ℕ)) (limit : ℕ) (infos : List TraceInfo)
      → All (IsLine format) lines
      → length infos + length lines ≤ limit
      → (added : List TraceInfo) × (parse_lines strings scan_fiu scan_hitsz memory mode format limit
            lines infos
          ≡ ok (infos ++ added))
        × Records format (length infos) (accepted (accepts format) lines) added
        × All (IsParsed mode) added
        × (length added ≤ length lines)
  unfolding parse_lines
  parse_lines_lem format [] limit infos h room =
      ([], ap ok (sym (append-nil infos)), tt, tt, omega arith)
  parse_lines_lem format (l ∷ lines) limit infos h room =
      elim (judge format (length infos) (but_last l)) [
        | inl p ↦
            let (dropped, rejected) = p in
            let (added, run, records, parsed, few) =
              parse_lines_lem format lines limit infos h.1 (omega arith) in
            (
              added,
              skip_line format limit l lines infos h.0.0 h.0.1 dropped ∙ run,
              rw rejected records,
              parsed,
              omega arith,
            )
        | inr q ↦
            let (x, read, taken, good) = q in
            let next : length (infos ++ x ∷ []) ≡ length infos + 1 = length-append infos (x ∷ []) in
            let (added, run, records, parsed, few) =
              parse_lines_lem format lines limit (infos ++ x ∷ []) h.1 (omega arith) in
            (
              x ∷ added,
              keep_line format limit l lines infos x h.0.0 h.0.1 read (omega arith)
                  ∙ run
                  ∙ ap ok (append_assoc infos (x ∷ []) added),
              rw taken (read, rw next at records),
              (good, parsed),
              omega arith,
            )
      ]

  pub parse_trace_info_lem :
      (format : TraceFormat) (lines : List (List ℕ))
      → All (IsLine format) lines
      → Returns
          (parse_trace_info strings scan_fiu scan_hitsz memory mode format false lines)
          (Parses format lines)
  unfolding parse_trace_info
  parse_trace_info_lem format lines h =
      let (infos, run, records, parsed, few) =
        parse_lines_lem format lines (length lines) [] h (omega arith) in
      (infos, run, record { records = records; parsed = parsed; bounded = few })
