-- ===== src/Worker/Hint.antt =====
-- One hint in `replay_worker` of helper/replay.c, written or appended.
use nvm_tools.Base.{
  ℕ, ◌+◌, ◌*◌, ◌%◌, ◌^◌, ◌<◌, ◌≤◌, ◌≡◌, refl, sym, ap, ◌∙◌, true, some, List, [], ◌∷◌, ◌++◌,
  append-nil, length, length-append, length-take, length-drop, take-append-drop, take, drop, All,
  get_elem?, ok, Returns, load, load-append, get_elem?_at, arith, ==_iff, sub64,
}
use nvm_tools.Trace.{TraceInfo, ReplayHint, blk_size}
use nvm_tools.Fill.{RandGener}
use nvm_tools.Fill.Content.{IsDigest, IsReseeding}
use nvm_tools.Hints.{joins}
use nvm_tools.Hints.Runs.{IsChained, hint_of}
use nvm_tools.Worker.{
  Os, count, WorkerState, check_ret, hint_bytes, hint_rounds, fill_infos, pwrite_hint, append_hint,
}
use nvm_tools.Worker.Blocks.{block, blocks, length-block, fill_infos_lem}

-- What is asked of the system: writes to the file complete, and a write of two pieces is the two
-- writes one behind the other; reads succeed, and give no more than was asked for.
pub record IsRegular (os : Os) : Type 0 where
  pub pwrite_complete :
      (f : os.File) (bs : List ℕ) (ofs : ℕ) → (os.pwrite f bs ofs).1 ≡ count (length bs)
  pub pwrite_splits :
      (f : os.File) (a b : List ℕ) (ofs : ℕ)
      → (os.pwrite f (a ++ b) ofs).0 ≡ (os.pwrite (os.pwrite f a ofs).0 b (ofs + length a)).0
  pub write_complete : (f : os.File) (bs : List ℕ) → (os.write f bs).1 ≡ count (length bs)
  pub write_splits :
      (f : os.File) (a b : List ℕ) → (os.write f (a ++ b)).0 ≡ (os.write (os.write f a).0 b).0
  pub pread_bounded :
      (f : os.File) (n ofs : ℕ) → (bs : List ℕ) × (os.pread f n ofs ≡ some bs) × (length bs ≤ n)

-- The offset of an info is that of its block address, and does not wrap around.
pub record IsPlaced (x : TraceInfo) : Type 0 where
  pub at_lba : x.ofs ≡ x.lba * 512
  pub low : x.lba < 2 ^ 54

-- An info that the worker can replay.
pub record IsReplayable (x : TraceInfo) : Type 0 where
  pub digest : IsDigest x.md5
  pub placed : IsPlaced x

next_ofs : (x y : TraceInfo) → IsPlaced x → IsPlaced y → joins x y ≡ true → y.ofs ≡ x.ofs + blk_size
next_ofs x y px py j =
    let apart : sub64 y.lba x.lba ≡ 8 = (==_iff (sub64 y.lba x.lba) 8).0 (ground arith) in
    omega arith

check_ret_same : (n : ℕ) → check_ret (count n) n ≡ ok tt
unfolding check_ret
check_ret_same n = rw ((==_iff (n % 2 ^ 32) (n % 2 ^ 32)).1 refl)

digests : (l : List TraceInfo) → All IsReplayable l → All (λ x. IsDigest x.md5) l
digests [] a = tt
digests (x ∷ l) a = (a.0.digest, digests l a.1)

module _ (g : RandGener) (c₀ : g.Ctx) (os : Os) where
  -- Each info's block written at the info's own offset, in order.
  abbrev pub write_each : os.File → List TraceInfo → os.File
  write_each f [] = f
  write_each f (x ∷ xs) = write_each (os.pwrite f (block g c₀ x) x.ofs).0 xs

  -- Each info's block appended.
  abbrev pub append_each : os.File → List TraceInfo → os.File
  append_each f [] = f
  append_each f (x ∷ xs) = append_each (os.write f (block g c₀ x)).0 xs

  pub write_each-append :
      (f : os.File) (xs ys : List TraceInfo)
      → write_each f (xs ++ ys) ≡ write_each (write_each f xs) ys
  write_each-append f [] ys = refl
  write_each-append f (x ∷ xs) ys = write_each-append (os.pwrite f (block g c₀ x) x.ofs).0 xs ys

  pub append_each-append :
      (f : os.File) (xs ys : List TraceInfo)
      → append_each f (xs ++ ys) ≡ append_each (append_each f xs) ys
  append_each-append f [] ys = refl
  append_each-append f (x ∷ xs) ys = append_each-append (os.write f (block g c₀ x)).0 xs ys

  module _ (regular : IsRegular os) where
    pwrite_run :
        IsReseeding g
        → (r : List TraceInfo) (x : TraceInfo) (f : os.File) → IsChained (x ∷ r)
        → All IsReplayable (x ∷ r)
        → (os.pwrite f (blocks g c₀ (x ∷ r)) x.ofs).0 ≡ write_each f (x ∷ r)
    pwrite_run h [] x f c a = rw (append-nil (block g c₀ x))
    pwrite_run h (y ∷ r) x f c a =
        let next = next_ofs x y a.0.placed a.1.0.placed c.0 in
        let long = length-block g c₀ x h a.0.digest in
        regular.pwrite_splits f (block g c₀ x) (blocks g c₀ (y ∷ r)) x.ofs
        ∙ rw (long, ← next) (pwrite_run h r y (os.pwrite f (block g c₀ x) x.ofs).0 c.1 a.1)

    -- The same for appends.
    write_run :
        (r : List TraceInfo) (x : TraceInfo) (f : os.File)
        → (os.write f (blocks g c₀ (x ∷ r))).0 ≡ append_each f (x ∷ r)
    write_run [] x f = rw (append-nil (block g c₀ x))
    write_run (y ∷ r) x f =
        regular.write_splits f (block g c₀ x) (blocks g c₀ (y ∷ r))
        ∙ write_run r y (os.write f (block g c₀ x)).0

    pwrite_hint_steps :
        (slots : List TraceInfo) (hint : ReplayHint) (s : WorkerState g.Ctx os.File) (ctx : g.Ctx)
        (buf bs : List ℕ) (first : TraceInfo)
        → fill_infos g os slots (hint_rounds hint) hint.start_trace_line 0 s.ctx s.buf
          ≡ ok (ctx, buf)
        → get_elem? slots hint.start_trace_line ≡ some first
        → load buf 0 (hint_bytes hint) ≡ ok bs
        → length bs ≡ hint_bytes hint
        → pwrite_hint g os slots hint s
          ≡ ok (record s { ctx = ctx; buf = buf; file = (os.pwrite s.file bs first.ofs).0 })
    unfolding pwrite_hint
    pwrite_hint_steps slots hint s ctx buf bs first filled e loaded n =
        rw filled
          (rw e (rw loaded (rw (regular.pwrite_complete s.file bs first.ofs, n, check_ret_same))))

    append_hint_steps :
        (slots : List TraceInfo) (hint : ReplayHint) (s : WorkerState g.Ctx os.File) (ctx : g.Ctx)
        (buf bs : List ℕ)
        → fill_infos g os slots (hint_rounds hint) hint.start_trace_line 0 s.ctx s.buf
          ≡ ok (ctx, buf)
        → load buf 0 (hint_bytes hint) ≡ ok bs
        → length bs ≡ hint_bytes hint
        → append_hint g os slots hint s
          ≡ ok (record s { ctx = ctx; buf = buf; file = (os.write s.file bs).0 })
    unfolding append_hint
    append_hint_steps slots hint s ctx buf bs filled loaded n =
        rw filled (rw loaded (rw (regular.write_complete s.file bs, n, check_ret_same)))

    -- A hint and its run, somewhere in the infos of the worker, with room for it in the buffer.
    module _ (slots done rest r : List TraceInfo) (x : TraceInfo) (s : WorkerState g.Ctx os.File)
        (h : IsReseeding g) (es : slots ≡ done ++ (x ∷ r ++ rest)) (short : length slots < 2 ^ 40)
        (fits : blk_size * length (x ∷ r) ≤ length s.buf) (a : All IsReplayable (x ∷ r)) where
      abbrev the_hint : ReplayHint
      the_hint = hint_of (length done) (x ∷ r)

      rounds_eq : hint_rounds (hint_of (length done) (x ∷ r)) ≡ length (x ∷ r)
      rounds_eq =
          omega (arith, ap length es, length-append done (x ∷ r ++ rest), length-append r rest)

      bytes_eq : hint_bytes (hint_of (length done) (x ∷ r)) ≡ blk_size * length (x ∷ r)
      bytes_eq =
          omega (arith, ap length es, length-append done (x ∷ r ++ rest), length-append r rest)

      -- If writes are complete and two neighbouring ones are as one, and seeding the generator
      -- makes it forget its past and draws behind it end, one write of a hint's run, from a buffer
      -- with room for it, ends and leaves the file as writes of the single blocks at their infos'
      -- own offsets would, for a run that is chained, of replayable infos, among fewer than 2 ^
      -- 40.
      pub pwrite_hint_lem :
          IsChained (x ∷ r)
          → Returns (pwrite_hint g os slots (hint_of (length done) (x ∷ r)) s) (λ t.
            (t.file ≡ write_each s.file (x ∷ r))
            × (length t.buf ≡ length s.buf)
            × (t.dump ≡ s.dump))
      unfolding pwrite_hint
      pwrite_hint_lem c =
          let n = blk_size * length (x ∷ r) in
          let bs = blocks g c₀ (x ∷ r) in
          let post = drop n s.buf in
          let (ctx', filled, size) =
            fill_infos_lem g c₀ os slots h (x ∷ r) done rest s.ctx [] (take n s.buf) post
              (length done) 0 es (digests (x ∷ r) a) refl refl (length-take n s.buf fits) in
          let first = get_elem?_at slots done x (r ++ rest) (length done) es refl in
          (
            record s { ctx = ctx'; buf = bs ++ post; file = (os.pwrite s.file bs x.ofs).0 },
            pwrite_hint_steps slots the_hint s ctx' (bs ++ post) bs x
                (rw rounds_eq (
                  ap (fill_infos g os slots (length (x ∷ r)) (length done) 0 s.ctx)
                    (sym (take-append-drop n s.buf))
                  ∙ filled))
                first (load-append [] bs post 0 (hint_bytes the_hint) refl (size ∙ sym bytes_eq))
                (size ∙ sym bytes_eq),
            (
              pwrite_run h r x s.file c a,
              omega (arith, length-append bs post, length-drop n s.buf),
              refl,
            ),
          )

      -- If writes are complete and two neighbouring ones are as one, and seeding the generator
      -- makes it forget its past and draws behind it end, one append of a hint's run, from a
      -- buffer with room for it, ends and leaves the file as appends of the single blocks would,
      -- for replayable infos, among fewer than 2 ^ 40.
      pub append_hint_lem : Returns (append_hint g os slots (hint_of (length done) (x ∷ r)) s) (λ t.
          (t.file ≡ append_each s.file (x ∷ r)) × (length t.buf ≡ length s.buf) × (t.dump ≡ s.dump))
      append_hint_lem =
          let n = blk_size * length (x ∷ r) in
          let bs = blocks g c₀ (x ∷ r) in
          let post = drop n s.buf in
          let (ctx', filled, size) =
            fill_infos_lem g c₀ os slots h (x ∷ r) done rest s.ctx [] (take n s.buf) post
              (length done) 0 es (digests (x ∷ r) a) refl refl (length-take n s.buf fits) in
          (
            record s { ctx = ctx'; buf = bs ++ post; file = (os.write s.file bs).0 },
            append_hint_steps slots the_hint s ctx' (bs ++ post) bs
                (rw rounds_eq (
                  ap (fill_infos g os slots (length (x ∷ r)) (length done) 0 s.ctx)
                    (sym (take-append-drop n s.buf))
                  ∙ filled))
                (load-append [] bs post 0 (hint_bytes the_hint) refl (size ∙ sym bytes_eq))
                (size ∙ sym bytes_eq),
            (write_run r x s.file, omega (arith, length-append bs post, length-drop n s.buf), refl),
          )
