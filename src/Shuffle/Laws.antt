-- ===== src/Shuffle/Laws.antt =====
-- helper/shuffle_and_write.cpp: the blocks that are written, against those that were read.
use nvm_tools.Base.{
  All-Perm, length-Perm, take-append, drop-append, ℕ, zero, suc, ◌+◌, ◌*◌, ◌/◌, ◌^◌, ◌<◌, ◌≡◌, refl,
  sym, ap, subst, ◌∙◌, true, false, Option, some, List, [], ◌∷◌, ◌++◌, append-nil, append_assoc,
  ltb, ◌==◌, length, length-append, length-replicate, length-drop, take, drop, replicate, All,
  set-append, ok, Returns, store, store_front, get_elem?_at, arith, lt→ltb,
}
use mathlib.Core.List
use mathlib.Core.List.{Perm, flatten}
use mathlib.Core.List.Perm
use native.Mathlib.Bridge.{le_prop}
use native.Mathlib.Nat.{suc-mul, mul-add-div, div-eq_of_lt}
use nvm_tools.Interference.{Fs}
use nvm_tools.Interference.Files.{IsWritable}
use nvm_tools.Shuffle.{Source, init_map, block_count, read_blocks, write_blocks, shuffle_and_write}
use nvm_tools.Shuffle.Pick.{
  count_up, length-count_up, Blocks, block_at, load-block, length-flatten, count_up-below,
  block_at-count_up,
}

-- A `read` of a regular file gives what is left of it, up to the number of bytes that are asked for.
pub record IsReadable (src : Source) : Type 0 where
  pub rest : src.File → List ℕ
  pub sized : (f : src.File) → src.size f ≡ length (rest f)
  pub reads : (f : src.File) (n : ℕ) → (src.read f n).1 ≡ take n (rest f)
  pub goes_on : (f : src.File) (n : ℕ) → rest (src.read f n).0 ≡ drop n (rest f)

init_map_lem :
    (n : ℕ) (done old : List ℕ)
    → length old ≡ n
    → init_map n (length done) (done ++ old) ≡ ok (done ++ count_up (length done) n)
unfolding init_map
init_map_lem zero done [] h = refl
init_map_lem zero done (o ∷ old) h = absurd (omega arith)
init_map_lem (suc n) done [] h = absurd (omega arith)
init_map_lem (suc n) done (o ∷ old) h =
    let pos = length done in
    let room : ltb pos (length (done ++ o ∷ old)) ≡ true =
      lt→ltb pos (length (done ++ o ∷ old)) (omega (arith, length-append done (o ∷ old))) in
    let next : length (done ++ pos ∷ []) ≡ pos + 1 = length-append done (pos ∷ []) in
    rw room (
      ap (init_map n (pos + 1)) (set-append done old o pos ∙ sym (append_assoc done (pos ∷ []) old))
      ∙ ap (λ k. init_map n k ((done ++ pos ∷ []) ++ old)) (sym next)
      ∙ init_map_lem n (done ++ pos ∷ []) old (omega arith)
      ∙ ap ok (append_assoc done (pos ∷ []) (count_up (length (done ++ pos ∷ [])) n))
      ∙ ap (λ k. ok (done ++ pos ∷ count_up k n)) next)

module _ (src : Source) (readable : IsReadable src) (fs : Fs) (writable : IsWritable fs)
    (granularity : ℕ) where
  read_blocks_lem :
      (bs : List (List ℕ)) (i : ℕ) (f : src.File) (done old tail : List ℕ)
      → Blocks granularity bs
      → length done ≡ i * granularity
      → length old ≡ granularity * length bs
      → readable.rest f ≡ flatten bs ++ tail
      → read_blocks src fs granularity (length bs) i f (done ++ old) ≡ ok (done ++ flatten bs)
  unfolding read_blocks flatten
  read_blocks_lem [] i f done [] tail a e h r = refl
  read_blocks_lem [] i f done (c ∷ old) tail a e h r = absurd (omega arith)
  read_blocks_lem (b ∷ bs) i f done old tail a e h r =
      let rest : readable.rest f ≡ b ++ (flatten bs ++ tail) =
        r ∙ append_assoc b (flatten bs) tail in
      let got : (src.read f granularity).1 ≡ b =
        readable.reads f granularity
        ∙ ap (take granularity) rest
        ∙ take-append b (flatten bs ++ tail) granularity a.0 in
      let left : readable.rest (src.read f granularity).0 ≡ flatten bs ++ tail =
        readable.goes_on f granularity
        ∙ ap (drop granularity) rest
        ∙ drop-append b (flatten bs ++ tail) granularity a.0 in
      let put : store (done ++ old) (i * granularity) b ≡ ok ((done ++ b) ++ drop granularity old) =
        rw (append-nil old, append-nil (drop granularity old)) at
          (store_front done old [] b (i * granularity) granularity e a.0 (omega arith)) in
      rw got (
        rw put (
          read_blocks_lem bs (i + 1) (src.read f granularity).0 (done ++ b) (drop granularity old)
            tail a.1 (length-append done b ∙ omega (arith, e, a.0, suc-mul i granularity))
            (omega (arith, length-drop granularity old, h)) left
          ∙ ap ok (append_assoc done b (flatten bs))))

  write_blocks_lem :
      (bs : List (List ℕ)) (front ms map : List ℕ) (i : ℕ) (out : fs.File)
      → Blocks granularity bs
      → map ≡ front ++ ms
      → length front ≡ i
      → All (λ m. m < length bs) ms
      → Returns
          (write_blocks src fs granularity map (length ms) i out (flatten bs))
          (λ t. fs.written t ≡ fs.written out ++ flatten (List.map (block_at bs) ms))
  unfolding write_blocks flatten
  write_blocks_lem bs front [] map i out a e n below =
      (out, refl, sym (append-nil (fs.written out)))
  write_blocks_lem bs front (m ∷ ms) map i out a e n below =
      let here = get_elem?_at map front m ms i e n in
      let block = block_at bs m in
      let next = (fs.write out block).0 in
      let (t, run, post) =
        write_blocks_lem bs (front ++ m ∷ []) ms map (i + 1) next a
          (e ∙ sym (append_assoc front (m ∷ []) ms)) (length-append front (m ∷ []) ∙ omega arith)
          below.1 in
      (
        t,
        rw here (rw (load-block granularity bs m a below.0) run),
        post
            ∙ ap (λ l. l ++ flatten (List.map (block_at bs) ms)) (writable.appends out block)
            ∙ append_assoc (fs.written out) block (flatten (List.map (block_at bs) ms)),
      )

  block_count_lem :
      (f : src.File) (n : ℕ) (tail : List ℕ)
      → 0 < granularity
      → 0 < n
      → length (readable.rest f) ≡ granularity * n + length tail
      → length tail < granularity
      → block_count (src.size f) granularity ≡ ok n
  unfolding block_count
  block_count_lem f n tail pos more e small =
      let divides : (granularity == 0) ≡ false = ground arith in
      let blocks : src.size f / granularity ≡ n =
        ap (λ s. s / granularity) (readable.sized f ∙ e)
        ∙ mul-add-div pos n (length tail)
        ∙ ap (λ k. n + k) (div-eq_of_lt small)
        ∙ omega arith in
      let some_blocks : (n == 0) ≡ false = ground arith in rw (divides, blocks, some_blocks) refl

  -- If the file consists of one to 2 ^ 31 - 1 whole blocks and a rest shorter than a block, memory
  -- is granted, reads and writes are complete and the shuffle gives a permutation, then
  -- `shuffle_and_write` ends and writes exactly the blocks of the file, each once, in some order.
  pub shuffle_and_write_lem :
      (malloc : ℕ → Option (List ℕ)) (shuffle : List ℕ → List ℕ) (file : src.File) (out : fs.File)
      (bs : List (List ℕ)) (tail large : List ℕ)
      → ((l : List ℕ) → Perm l (shuffle l))
      → 0 < granularity
      → 0 < length bs
      → length bs < 2 ^ 31
      → Blocks granularity bs
      → readable.rest file ≡ flatten bs ++ tail
      → length tail < granularity
      → malloc (granularity * length bs) ≡ some large
      → length large ≡ granularity * length bs
      → Returns (shuffle_and_write src fs true malloc shuffle granularity file out) (λ t.
        (shuffled : List (List ℕ)) × Perm bs shuffled
        × (fs.written t ≡ fs.written out ++ flatten shuffled))
  unfolding shuffle_and_write
  shuffle_and_write_lem malloc shuffle file out bs tail large perm pos more few a e small mem size =
      let n = length bs in
      let shape =
        ap length e
        ∙ length-append (flatten bs) tail
        ∙ ap (λ k. k + length tail) (length-flatten granularity bs a) in
      let counted = block_count_lem file n tail pos more shape small in
      let filled = init_map_lem n [] (replicate n 0) (length-replicate n 0) in
      let read = read_blocks_lem bs 0 file [] large tail a (omega arith) size e in
      let numbers = perm (count_up 0 n) in
      let below =
        All-Perm (λ m. m < n) (λ m. le_prop) (count_up 0 n) (shuffle (count_up 0 n)) numbers
          (subst (λ k. All (λ m. m < k) (count_up 0 n)) (omega arith) (count_up-below n 0)) in
      let rounds : length (shuffle (count_up 0 n)) ≡ n =
        sym (length-Perm (count_up 0 n) (shuffle (count_up 0 n)) numbers) ∙ length-count_up n 0 in
      let (t, run, post) =
        write_blocks_lem bs [] (shuffle (count_up 0 n)) (shuffle (count_up 0 n)) 0 out a refl refl
          below in
      (
        t,
        rw counted (
            rw (lt→ltb n (2 ^ 31) few) (
              rw filled (
                rw mem (
                  rw read (
                    subst
                      (λ k.
                        write_blocks src fs granularity (shuffle (count_up 0 n)) k 0 out
                          (flatten bs)
                        ≡ ok t)
                      rounds run))))),
        (
          List.map (block_at bs) (shuffle (count_up 0 n)),
          rw (block_at-count_up bs [] bs 0 refl refl) at (Perm.map (block_at bs) numbers),
          post,
        ),
      )
