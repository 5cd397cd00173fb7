-- ===== src/Worker/Whole.antt =====
-- `replay_worker` of helper/replay.c as a whole, against one system call for each info.
use mathlib.Core.List.{flatten}
use mathlib.Core.Bool.{not}
use nvm_tools.Base.{
  All-append, ℕ, ◌+◌, ◌-◌, ◌*◌, ◌^◌, ◌<◌, ◌≤◌, ◌≡◌, refl, sym, ap, ◌∙◌, inl, inr, Bool, true, false,
  ◌&&◌, some, List, [], ◌∷◌, ◌++◌, append_assoc, ◌==◌, if◌then◌else◌, length, length-append, All,
  Run, Returns, get_elem?_at, arith, Bool-cases,
}
use nvm_tools.Trace.{TraceInfo, ReplayHint, Mode, write_only, read_write, append, blk_size}
use nvm_tools.Fill.{RandGener}
use nvm_tools.Fill.Content.{IsReseeding}
use nvm_tools.Hints.Runs.{IsRun, IsTiling, IsChained, hint_of, hints_of}
use nvm_tools.Worker.{
  Os, WorkerState, char_w, hint_bytes, is_append, replay_hint, replay_from, replay_worker,
  pwrite_hint, append_hint, read_hint,
}
use nvm_tools.Worker.Hint.{IsRegular, IsReplayable, write_each, pwrite_hint_lem, append_hint_lem}
use nvm_tools.Worker.Read.{read_hint_lem}
use nvm_tools.Worker.Effect.{
  writes_all, writes_none, length-hints_of_runs, effect, effect-nil, effect-append,
}

module _ (g : RandGener) (c₀ : g.Ctx) (os : Os) where
  module _ (regular : IsRegular os) (h : IsReseeding g) (slots : List TraceInfo) where
    -- After a hint of the run `x ∷ r` the file is as the mode wants it.
    abbrev Replays :
        Mode → List TraceInfo → WorkerState g.Ctx os.File → Run (WorkerState g.Ctx os.File) → Type 0
    Replays mode run s result =
        Returns result
          (λ t. (t.file ≡ effect g c₀ os mode s.file run) × (length t.buf ≡ length s.buf))

    module _ (is_dump_read : Bool) (hint : ReplayHint) (s : WorkerState g.Ctx os.File) where
      chosen :
          (b : Bool)
          → (hint.rw == char_w) ≡ b
          → replay_hint g os slots read_write is_dump_read hint s ≡ (
              if b then pwrite_hint g os slots hint s else read_hint g os slots is_dump_read hint s)
      unfolding replay_hint
      chosen b e =
          ap
            (λ c.
              if c then pwrite_hint g os slots hint s else read_hint g os slots is_dump_read hint s)
            e

    replay_hint_lem :
        (mode : Mode) (is_dump_read : Bool) (done rest r : List TraceInfo) (x : TraceInfo)
        (s : WorkerState g.Ctx os.File)
        → slots ≡ done ++ (x ∷ r ++ rest)
        → length slots < 2 ^ 40
        → blk_size * length (x ∷ r) ≤ length s.buf
        → All IsReplayable (x ∷ r)
        → IsChained (x ∷ r)
        → Replays mode
            (x ∷ r)
            s
            (replay_hint g os slots mode is_dump_read (hint_of (length done) (x ∷ r)) s)
    unfolding replay_hint pwrite_hint append_hint
    replay_hint_lem write_only is_dump_read done rest r x s es short fits a c =
        let (t, run, post) =
          pwrite_hint_lem g c₀ os regular slots done rest r x s h es short fits a c in
        (t, run, (post.0, post.1))
    replay_hint_lem append is_dump_read done rest r x s es short fits a c =
        let (t, run, post) =
          append_hint_lem g c₀ os regular slots done rest r x s h es short fits a in
        (t, run, (post.0, post.1))
    replay_hint_lem read_write is_dump_read done rest r x s es short fits a c =
        let hint = hint_of (length done) (x ∷ r) in
        elim (Bool-cases (x.rw == char_w)) [
          | inl w ↦
              let (t, run, post) =
                pwrite_hint_lem g c₀ os regular slots done rest r x s h es short fits a c in
              (
                t,
                chosen is_dump_read hint s true w ∙ run,
                (post.0 ∙ ap (write_each g c₀ os s.file) (sym (writes_all r x c w)), post.1),
              )
          | inr n ↦
              let first = get_elem?_at slots done x (r ++ rest) (length done) es refl in
              let size : hint_bytes hint ≤ length s.buf = omega arith in
              let (t, run, post) =
                read_hint_lem g os slots is_dump_read hint s x regular first size in
              (
                t,
                chosen is_dump_read hint s false n ∙ run,
                (post.0 ∙ ap (write_each g c₀ os s.file) (sym (writes_none r x c n)), post.1),
              )
        ]

    replay_from_lem :
        (rs : List (List TraceInfo)) (mode : Mode) (is_dump_read : Bool) (m : ℕ) (room : ℕ)
        (done : List TraceInfo) (hints pre post : List ReplayHint) (s : WorkerState g.Ctx os.File)
        → slots ≡ done ++ flatten rs
        → hints ≡ pre ++ (hints_of (length done) rs ++ post)
        → length slots < 2 ^ 40
        → All (IsRun m) rs
        → room ≡ length s.buf
        → All (λ (x : ReplayHint). blk_size * x.continuous_blks ≤ room) (hints_of (length done) rs)
        → All IsReplayable (flatten rs)
        → Replays mode
            (flatten rs)
            s
            (replay_from g os slots mode is_dump_read hints (length rs) (length pre) s)
    unfolding replay_from flatten
    replay_from_lem [] mode is_dump_read m room done hints pre post s es eh short runs er fits a =
        (s, refl, (effect-nil g c₀ os mode s.file, refl))
    replay_from_lem ([] ∷ rs) mode is_dump_read m room done hints pre post s es eh short runs er
          fits a =
        absurd (omega (arith, runs.0.some_infos))
    replay_from_lem ((x ∷ r) ∷ rs) mode is_dump_read m room done hints pre post s es eh short runs
          er fits a =
        let run = x ∷ r in
        let hint = hint_of (length done) run in
        let (a₁, a₂) = All-append IsReplayable run (flatten rs) a in
        let (t, ran, post_t) =
          replay_hint_lem mode is_dump_read done (flatten rs) r x s es short (omega (arith, fits.0))
            a₁ runs.0.chained in
        let here =
          get_elem?_at hints pre hint (hints_of (length done + length run) rs ++ post) (length pre)
            eh refl in
        let next : length (done ++ run) ≡ length done + length run = length-append done run in
        let (u, rest, post_u) =
          replay_from_lem rs mode is_dump_read m room (done ++ run) hints (pre ++ hint ∷ []) post t
            (es ∙ sym (append_assoc done run (flatten rs)))
            (rw next (
              eh
              ∙ sym
                  (append_assoc pre (hint ∷ []) (hints_of (length done + length run) rs ++ post))))
            short runs.1 (er ∙ sym post_t.1) (rw next fits.1) a₂ in
        let index : length (pre ++ hint ∷ []) ≡ length pre + 1 = length-append pre (hint ∷ []) in
        (
          u,
          rw here (rw ran (rw index at rest)),
          (
            post_u.0
                ∙ ap (λ f. effect g c₀ os mode f (flatten rs)) post_t.0
                ∙ sym (effect-append g c₀ os mode s.file run (flatten rs)),
            post_u.1 ∙ post_t.1,
          ),
        )

    started :
        (mode : Mode) (is_dump_read fopens : Bool) (hints : List ReplayHint) (from to : ℕ)
        (ctx : g.Ctx) (buf : List ℕ) (file : os.File)
        → (is_dump_read && not fopens) ≡ false
        → os.open_file (not os.accessible) (is_append mode) ≡ some file
        → replay_worker g os slots mode is_dump_read fopens hints from to ctx buf
          ≡ replay_from g os slots mode is_dump_read hints
              (to - from)
              from
              (record { ctx = ctx; buf = buf; file = file; dump = [] })
    unfolding replay_worker
    started mode is_dump_read fopens hints from to ctx buf file d o = rw (d, replay_worker) (rw o)

    -- If `open` and the dump file succeed, reads succeed, writes are complete and two neighbouring
    -- ones are as one, and seeding the generator makes it forget its past and draws behind it end,
    -- then a worker whose hints tile its fewer than 2 ^ 40 replayable infos, in a buffer with room
    -- for the longest hint, ends in every mode, and what it leaves in its file is what one system
    -- call for each info would leave: blocks at the infos' offsets (write only), blocks appended
    -- (append), or the blocks of the writes alone (read and write).
    pub replay_worker_lem :
        (mode : Mode) (is_dump_read fopens : Bool) (m : ℕ) (old added later : List ReplayHint)
        (ctx : g.Ctx) (buf : List ℕ) (file : os.File)
        → IsTiling m slots added
        → All IsReplayable slots
        → length slots < 2 ^ 40
        → All (λ (x : ReplayHint). blk_size * x.continuous_blks ≤ length buf) added
        → (is_dump_read && not fopens) ≡ false
        → os.open_file (not os.accessible) (is_append mode) ≡ some file
        → Returns
            (replay_worker g os slots mode is_dump_read fopens
              (old ++ (added ++ later))
              (length old)
              (length old + length added)
              ctx
              buf)
            (λ t. t.file ≡ effect g c₀ os mode file slots)
    replay_worker_lem mode is_dump_read fopens m old added later ctx buf file t a short fits d o =
        let hints = old ++ (added ++ later) in
        let count : length added ≡ length t.runs =
          ap length t.hints_eq ∙ length-hints_of_runs 0 t.runs in
        let rounds : length old + length added - length old ≡ length t.runs = omega arith in
        let (u, ran, post) =
          replay_from_lem t.runs mode is_dump_read m (length buf) [] hints old later
            (record { ctx = ctx; buf = buf; file = file; dump = [] }) (sym t.covers)
            (ap (λ l. old ++ (l ++ later)) t.hints_eq) short t.each refl (rw t.hints_eq at fits)
            (rw (← t.covers) at a) in
        (
          u,
          started mode is_dump_read fopens hints (length old) (length old + length added) ctx buf
                file d o
              ∙ ap
                  (λ n.
                    replay_from g os slots mode is_dump_read hints n (length old)
                      (record { ctx = ctx; buf = buf; file = file; dump = [] }))
                  rounds
              ∙ ran,
          post.0 ∙ ap (effect g c₀ os mode file) t.covers,
        )
