-- ===== src/Worker/Read.antt =====
-- One hint in `replay_worker` of helper/replay.c that reads.
use nvm_tools.Base.{
  ℕ, zero, suc, ◌+◌, ◌-◌, ◌%◌, ◌^◌, ◌<◌, ◌≤◌, ◌≡◌, refl, ◌∙◌, inl, inr, Bool, true, false, some,
  List, [], ◌∷◌, ◌++◌, ◌==◌, if◌then◌else◌, length, length-append, length-replicate, length-take,
  take, drop, replicate, get_elem?, ok, Returns, store, length-store, load-take, arith, Bool-cases,
}
use nvm_tools.Trace.{TraceInfo, ReplayHint}
use nvm_tools.Fill.{RandGener}
use nvm_tools.Worker.{Os, WorkerState, hint_bytes, read_loop, read_hint}
use nvm_tools.Worker.Hint.{IsRegular}

module _ (g : RandGener) (os : Os) (slots : List TraceInfo) (file : os.File) where
  pub read_full :
      (f size ofs done : ℕ) (buf : List ℕ)
      → (done == size) ≡ true
      → read_loop g os slots (suc f) file buf size ofs done ≡ ok (done, buf)
  unfolding read_loop
  read_full f size ofs done buf t = rw (t, read_loop)

  pub read_end :
      (f size ofs done : ℕ) (buf : List ℕ)
      → (done == size) ≡ false
      → os.pread file (size - done) ((ofs + done) % 2 ^ 64) ≡ some []
      → read_loop g os slots (suc f) file buf size ofs done ≡ ok (done, buf)
  unfolding read_loop
  read_end f size ofs done buf t e = rw (t, read_loop) (rw e)

  pub read_more :
      (f size ofs done b : ℕ) (bs buf buf' : List ℕ)
      → (done == size) ≡ false
      → os.pread file (size - done) ((ofs + done) % 2 ^ 64) ≡ some (b ∷ bs)
      → store buf done (b ∷ bs) ≡ ok buf'
      → read_loop g os slots (suc f) file buf size ofs done
        ≡ read_loop g os slots f file buf' size ofs (done + length (b ∷ bs))
  unfolding read_loop
  read_more f size ofs done b bs buf buf' t e st = rw (t, read_loop) (rw e (rw st))

  -- The loop ends within the fuel, reads at most `size` bytes and keeps the buffer's length.
  abbrev Reads : ℕ → ℕ → ℕ → ℕ → List ℕ → Type 0
  Reads f size ofs done buf =
      Returns (read_loop g os slots f file buf size ofs done)
        (λ q. (q.0 ≤ size) × (length q.1 ≡ length buf))

  read_step :
      (f size ofs done : ℕ) (buf bs : List ℕ)
      → ((done' : ℕ) (buf' : List ℕ)
          → size - done' < f
          → done' ≤ size
          → size ≤ length buf'
          → Reads f size ofs done' buf')
      → size - done < suc f
      → done ≤ size
      → size ≤ length buf
      → (done == size) ≡ false
      → os.pread file (size - done) ((ofs + done) % 2 ^ 64) ≡ some bs
      → length bs ≤ size - done
      → Reads (suc f) size ofs done buf
  read_step f size ofs done buf [] ih lt le room more e few =
      ((done, buf), read_end f size ofs done buf more e, (le, refl))
  read_step f size ofs done buf (b ∷ bs) ih lt le room more e few =
      let (buf', st, same) = length-store buf (b ∷ bs) done (omega arith) in
      let (q, run, post) =
        ih (done + length (b ∷ bs)) buf' (omega arith) (omega arith) (omega arith) in
      (q, read_more f size ofs done b bs buf buf' more e st ∙ run, (post.0, post.1 ∙ same))

  read_loop_lem :
      (f size ofs done : ℕ) (buf : List ℕ)
      → IsRegular os
      → size - done < f
      → done ≤ size
      → size ≤ length buf
      → Reads f size ofs done buf
  read_loop_lem zero size ofs done buf reg lt le room = absurd (omega arith)
  read_loop_lem (suc f) size ofs done buf reg lt le room = elim (Bool-cases (done == size)) [
    | inl full ↦ ((done, buf), read_full f size ofs done buf full, (le, refl))
    | inr more ↦
        let (bs, e, few) = reg.pread_bounded file (size - done) ((ofs + done) % 2 ^ 64) in
        read_step f size ofs done buf bs
          (λ done' buf' lt' le' room'. read_loop_lem f size ofs done' buf' reg lt' le' room') lt le
          room more e few
  ]

module _ (g : RandGener) (os : Os) (slots : List TraceInfo) where
  -- On a system whose reads succeed and give no more than was asked for, reading a hint that fits
  -- the buffer ends within the fuel, also at the end of the file; it leaves the file alone and the
  -- buffer at its size, and makes the dump, if there is one, longer by the bytes of the hint.
  pub read_hint_lem :
      (is_dump_read : Bool) (hint : ReplayHint) (s : WorkerState g.Ctx os.File) (first : TraceInfo)
      → IsRegular os
      → get_elem? slots hint.start_trace_line ≡ some first
      → hint_bytes hint ≤ length s.buf
      → Returns (read_hint g os slots is_dump_read hint s) (λ t.
        (t.file ≡ s.file)
        × (length t.buf ≡ length s.buf)
        × (length t.dump ≡ length s.dump + (if is_dump_read then hint_bytes hint else 0)))
  unfolding read_hint
  read_hint_lem is_dump_read hint s first reg e room =
      let size = hint_bytes hint in
      let (q, run, post) =
        read_loop_lem g os slots s.file (size + 1) size first.ofs 0 s.buf reg (omega arith)
          (omega arith) room in
      let zeros : List ℕ = replicate (size - q.0) 0 in
      let (buf', stored, same) =
        length-store q.1 zeros q.0 (omega (arith, length-replicate {A = ℕ} (size - q.0) 0)) in
      let bytes = take size (drop 0 buf') in
      (
        record s { buf = buf'; dump = if is_dump_read then s.dump ++ bytes else s.dump },
        rw e (rw run (rw stored (rw (load-take buf' 0 size (omega arith))))),
        (
          refl,
          same ∙ post.1,
          dump_grows is_dump_read s.dump bytes size (length-take size buf' (omega arith)),
        ),
      )
    where
      dump_grows :
          (b : Bool) (dump bytes : List ℕ) (n : ℕ)
          → length bytes ≡ n
          → length (if b then dump ++ bytes else dump) ≡ length dump + (if b then n else 0)
      dump_grows true dump bytes n h = omega (arith, length-append dump bytes)
      dump_grows false dump bytes n h = omega arith
