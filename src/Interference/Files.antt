-- ===== src/Interference/Files.antt =====
-- `make_file` of helper/rw_interference.cpp: the bytes that it writes.
use nvm_tools.Base.{
  ℕ, zero, suc, ◌+◌, ◌*◌, ◌/◌, ◌%◌, ◌^◌, ◌≤◌, ◌≡◌, refl, sym, ap, ◌∙◌, Bool, true, false, Option,
  some, List, [], ◌∷◌, ◌++◌, append-nil, append_assoc, length, length-append, length-drop, drop, ok,
  Returns, load, store, load-append, store_front, arith,
}
use mathlib.Core.Bool.{not}
use nvm_tools.Fill.{le_bytes}
use nvm_tools.Worker.{count}
use nvm_tools.Interference.{Fs, Making, Made, long_bytes, fill_buffer, make_blocks, make_file}

-- The same word in every word of a block.
unfoldable pub word_copies : ℕ → ℕ → List ℕ
word_copies zero w = []
word_copies (suc n) w = long_bytes w ++ word_copies n w

-- `num` blocks of `words` words, which hold `start` and the numbers behind it.
unfoldable pub magic_blocks : ℕ → ℕ → ℕ → List ℕ
magic_blocks words start zero = []
magic_blocks words start (suc num) = word_copies words start ++ magic_blocks words (start + 1) num

-- A file can be opened, and then holds none of the program's bytes; a `write` writes all it is
-- given.
pub record IsWritable (fs : Fs) : Type 0 where
  pub opens : (path : List ℕ) → (f : fs.File) × (fs.open_file path ≡ some f) × (fs.written f ≡ [])
  pub complete : (f : fs.File) (bytes : List ℕ) → (fs.write f bytes).1 ≡ count (length bytes)
  pub appends :
      (f : fs.File) (bytes : List ℕ) → fs.written (fs.write f bytes).0 ≡ fs.written f ++ bytes

pub length-long_bytes : (w : ℕ) → length (long_bytes w) ≡ 8
unfolding long_bytes le_bytes
length-long_bytes w = refl

pub length-word_copies : (n w : ℕ) → length (word_copies n w) ≡ 8 * n
unfolding word_copies
length-word_copies zero w = refl
length-word_copies (suc n) w = omega (
  arith,
  length-append (long_bytes w) (word_copies n w),
  length-long_bytes w,
  length-word_copies n w,
)

fill_buffer_lem :
    (n i w : ℕ) (pre old : List ℕ)
    → length pre ≡ i * 8
    → length old ≡ 8 * n
    → fill_buffer n i w (pre ++ old) ≡ ok (pre ++ word_copies n w)
unfolding fill_buffer word_copies
fill_buffer_lem zero i w pre [] e h = refl
fill_buffer_lem zero i w pre (b ∷ old) e h = absurd (omega arith)
fill_buffer_lem (suc n) i w pre old e h =
    let put : store (pre ++ old) (i * 8) (long_bytes w) ≡ ok ((pre ++ long_bytes w) ++ drop 8 old) =
      rw (append-nil old, append-nil (drop 8 old)) at
        (store_front pre old [] (long_bytes w) (i * 8) 8 e (length-long_bytes w) (omega arith)) in
    rw put (
      fill_buffer_lem n (i + 1) w (pre ++ long_bytes w) (drop 8 old)
        (omega (arith, length-append pre (long_bytes w), length-long_bytes w))
        (omega (arith, length-drop 8 old))
      ∙ ap ok (append_assoc pre (long_bytes w) (word_copies n w)))

module _ (fs : Fs) (laws : IsWritable fs) (malloc : ℕ → Option (List ℕ)) (words : ℕ) where
  -- What the loop leaves.
  record Writes (start rounds block : ℕ) (s t : Making fs.File) : Type 0 where
    pub bytes : fs.written t.file ≡ fs.written s.file ++ magic_blocks words (start + block) rounds
    pub counted : t.progress ≡ block + rounds
    pub intact : t.broken ≡ s.broken

  write_one :
      (f : fs.File) (buf : List ℕ) (start block w rounds : ℕ) (progress : ℕ) (broken : Bool)
      → length buf ≡ 8 * words
      → (start + block) % 2 ^ 64 ≡ w
      → make_blocks fs malloc
          (8 * words)
          start
          (suc rounds)
          block
          (record { file = f; buf = buf; progress = progress; broken = broken })
        ≡ make_blocks fs malloc (8 * words) start rounds (block + 1) (record {
          file = (fs.write f (word_copies words w)).0;
          buf = word_copies words w;
          progress = block + 1;
          broken = broken;
        })
  unfolding make_blocks
  write_one f buf start block w rounds progress broken h e =
      let n : 8 * words / 8 ≡ words = omega arith in
      let fill = fill_buffer_lem words 0 w [] buf refl h in
      let read : load (word_copies words w) 0 (8 * words) ≡ ok (word_copies words w) =
        rw (append-nil (word_copies words w)) at (
          load-append [] (word_copies words w) [] 0 (8 * words) refl
            (length-word_copies words w)) in
      rw (n, e, fill, read, laws.complete f (word_copies words w)) refl

  make_blocks_lem :
      (start rounds block : ℕ) (f : fs.File) (buf : List ℕ) (broken : Bool)
      → length buf ≡ 8 * words
      → start + block + rounds ≤ 2 ^ 64
      → Returns
          (make_blocks fs malloc
            (8 * words)
            start
            rounds
            block
            (record { file = f; buf = buf; progress = block; broken = broken }))
          (Writes start rounds block
            (record { file = f; buf = buf; progress = block; broken = broken }))
  unfolding make_blocks magic_blocks
  make_blocks_lem start zero block f buf broken h small = (
    record { file = f; buf = buf; progress = block; broken = broken },
    refl,
    record { bytes = sym (append-nil (fs.written f)); counted = omega arith; intact = refl },
  )
  make_blocks_lem start (suc rounds) block f buf broken h small =
      let magic : (start + block) % 2 ^ 64 ≡ start + block = omega arith in
      let w = word_copies words (start + block) in
      let next : start + (block + 1) ≡ start + block + 1 = omega arith in
      let (t, run, x) =
        make_blocks_lem start rounds (block + 1) (fs.write f w).0 w broken
          (length-word_copies words (start + block)) (omega arith) in
      (
        t,
        write_one f buf start block (start + block) rounds block broken h magic ∙ run,
        record {
          bytes =
              x.bytes
              ∙ ap (λ l. l ++ magic_blocks words (start + (block + 1)) rounds) (laws.appends f w)
              ∙ append_assoc (fs.written f) w (magic_blocks words (start + (block + 1)) rounds)
              ∙ ap (λ n. fs.written f ++ (w ++ magic_blocks words n rounds)) next;
          counted = omega (arith, x.counted);
          intact = x.intact;
        },
      )

  -- What a file holds that `make_file` returns 0 for.
  pub record MakesFile (rounds start : ℕ) (m : Made fs.File) : Type 0 where
    pub made : fs.File
    pub opened : m.file ≡ some made
    pub bytes : fs.written made ≡ magic_blocks words start rounds
    pub counted : m.progress ≡ rounds
    pub done : m.done ≡ true

  pub make_file_lem :
      (path : List ℕ) (rounds start : ℕ) (buf : List ℕ)
      → malloc (8 * words) ≡ some buf
      → length buf ≡ 8 * words
      → start + rounds ≤ 2 ^ 64
      → Returns (make_file fs malloc (8 * words) path rounds start) (MakesFile rounds start)
  unfolding make_file
  make_file_lem path rounds start buf mem size small =
      let (f, opened, new) = laws.opens path in
      let (t, run, x) = make_blocks_lem start rounds 0 f buf false size (omega arith) in
      let first : start + 0 ≡ start = omega arith in
      (
        record { file = some t.file; progress = t.progress; done = not t.broken },
        rw (make_file, opened, mem, run) refl,
        record {
          made = t.file;
          opened = refl;
          bytes =
              x.bytes
              ∙ ap (λ l. l ++ magic_blocks words (start + 0) rounds) new
              ∙ ap (λ n. magic_blocks words n rounds) first;
          counted = omega (arith, x.counted);
          done = ap not x.intact;
        },
      )
