-- ===== src/Exhaust/Laws.antt =====
-- helper/exhaust_nvmm.c, on a device that takes a number of blocks and no more.
use nvm_tools.Base.{
  ℕ, zero, suc, ◌+◌, ◌*◌, ◌<◌, ◌≡◌, refl, sym, ap, ◌∙◌, Bool, true, false, some, List, [], ◌∷◌,
  ◌++◌, append-nil, append_assoc, if◌then◌else◌, length, length-append, length-replicate,
  length-drop, drop, replicate, ok, ◌>>=◌, Returns, load, store, load-append, store_front, arith,
}
use nvm_tools.Fill.{le_bytes}
use nvm_tools.Fill.Content.{length-le_bytes}
use nvm_tools.Interference.{Fs}
use nvm_tools.Exhaust.{block_bytes, fill_buf_from, fill_buf, is_full, exhaust_from, exhaust_nvmm}

-- The bytes of `n` calls of the generator.
unfoldable pub random_bytes : (ℕ → ℕ) → ℕ → ℕ → List ℕ
random_bytes rand calls zero = []
random_bytes rand calls (suc n) = le_bytes (rand calls) ++ random_bytes rand (calls + 1) n

-- A device with room for a number of blocks: a block for which there is room is written, and behind
-- the last one no `write` returns a whole block.
pub record IsLimited (fs : Fs) : Type 0 where
  pub room : fs.File → ℕ
  pub takes :
      (f : fs.File) (k : ℕ) (bytes : List ℕ)
      → room f ≡ suc k
      → length bytes ≡ block_bytes
      → (is_full (fs.write f bytes).1 ≡ true)
        × (room (fs.write f bytes).0 ≡ k)
        × (fs.written (fs.write f bytes).0 ≡ fs.written f ++ bytes)
  pub refuses : (f : fs.File) (bytes : List ℕ) → room f ≡ 0 → is_full (fs.write f bytes).1 ≡ false

length-random_bytes : (rand : ℕ → ℕ) (calls n : ℕ) → length (random_bytes rand calls n) ≡ 4 * n
unfolding random_bytes le_bytes
length-random_bytes rand calls zero = refl
length-random_bytes rand calls (suc n) = omega (
  arith,
  length-append (le_bytes (rand calls)) (random_bytes rand (calls + 1) n),
  length-random_bytes rand (calls + 1) n,
)

fill_buf_from_lem :
    (rand : ℕ → ℕ) (n i calls : ℕ) (pre old : List ℕ)
    → length pre ≡ i * 4
    → length old ≡ 4 * n
    → fill_buf_from rand n i calls (pre ++ old) ≡ ok (pre ++ random_bytes rand calls n)
unfolding fill_buf_from random_bytes
fill_buf_from_lem rand zero i calls pre [] e h = refl
fill_buf_from_lem rand zero i calls pre (b ∷ old) e h = absurd (omega arith)
fill_buf_from_lem rand (suc n) i calls pre old e h =
    let word = le_bytes (rand calls) in
    let put : store (pre ++ old) (i * 4) word ≡ ok ((pre ++ word) ++ drop 4 old) =
      rw (append-nil old, append-nil (drop 4 old)) at
        (store_front pre old [] word (i * 4) 4 e (length-le_bytes (rand calls)) (omega arith)) in
    rw put (
      fill_buf_from_lem rand n (i + 1) (calls + 1) (pre ++ word) (drop 4 old)
        (omega (arith, length-append pre word, length-le_bytes (rand calls)))
        (omega (arith, length-drop 4 old))
      ∙ ap ok (append_assoc pre word (random_bytes rand (calls + 1) n)))

fill_buf_lem :
    (rand : ℕ → ℕ) (calls : ℕ) (buf : List ℕ)
    → length buf ≡ block_bytes
    → fill_buf rand calls buf ≡ ok (random_bytes rand calls 1024)
unfolding fill_buf
fill_buf_lem rand calls buf h = fill_buf_from_lem rand 1024 0 calls [] buf refl h

random_bytes-append :
    (rand : ℕ → ℕ) (calls m n : ℕ)
    → random_bytes rand calls m ++ random_bytes rand (calls + m) n ≡ random_bytes rand calls (m + n)
unfolding random_bytes
random_bytes-append rand calls zero n =
    let start : calls + 0 ≡ calls = omega arith in
    let all : n ≡ 0 + n = omega arith in
    ap (λ i. random_bytes rand i n) start ∙ ap (random_bytes rand calls) all
random_bytes-append rand calls (suc m) n =
    let start : calls + suc m ≡ calls + 1 + m = omega arith in
    let all : suc (m + n) ≡ suc m + n = omega arith in
    append_assoc (le_bytes (rand calls)) (random_bytes rand (calls + 1) m)
      (random_bytes rand (calls + suc m) n)
    ∙ ap (λ i. le_bytes (rand calls) ++ (random_bytes rand (calls + 1) m ++ random_bytes rand i n))
        start
    ∙ ap (λ l. le_bytes (rand calls) ++ l) (random_bytes-append rand (calls + 1) m n)
    ∙ ap (random_bytes rand calls) all

no_bytes : (rand : ℕ → ℕ) (calls : ℕ) → random_bytes rand calls 0 ≡ []
unfolding random_bytes
no_bytes rand calls = refl

module _ (fs : Fs) (limited : IsLimited fs) (rand : ℕ → ℕ) where
  load_block :
      (calls : ℕ)
      → load (random_bytes rand calls 1024) 0 block_bytes ≡ ok (random_bytes rand calls 1024)
  load_block calls =
      let block = random_bytes rand calls 1024 in
      rw (append-nil block) at
        (load-append [] block [] 0 block_bytes refl (length-random_bytes rand calls 1024))

  one_round :
      (f calls cnt : ℕ) (file : fs.File) (buf : List ℕ) (full : Bool)
      → length buf ≡ block_bytes
      → is_full (fs.write file (random_bytes rand calls 1024)).1 ≡ full
      → exhaust_from fs rand (suc f) calls cnt file buf ≡ (
          if full
          then exhaust_from fs rand f
              (calls + 1024)
              (cnt + 1)
              (fs.write file (random_bytes rand calls 1024)).0
              (random_bytes rand calls 1024)
          else ok (cnt, (fs.write file (random_bytes rand calls 1024)).0))
  unfolding exhaust_from
  one_round f calls cnt file buf full h e =
      let block = random_bytes rand calls 1024 in
      let after = (fs.write file block).0 in
      rw (fill_buf_lem rand calls buf h, load_block calls)
        (ap
          (λ b.
            if b
            then exhaust_from fs rand f (calls + 1024) (cnt + 1) after block
            else ok (cnt, after))
          e)

  pub exhaust_from_lem :
      (k f calls cnt : ℕ) (file : fs.File) (buf : List ℕ)
      → limited.room file ≡ k
      → k < f
      → length buf ≡ block_bytes
      → Returns (exhaust_from fs rand f calls cnt file buf) (λ r.
        (r.0 ≡ cnt + k)
        × ((last : fs.File) × (limited.room last ≡ 0)
            × (r.1 ≡ (fs.write last (random_bytes rand (calls + 1024 * k) 1024)).0)
            × (fs.written last ≡ fs.written file ++ random_bytes rand calls (1024 * k))))
  exhaust_from_lem k zero calls cnt file buf room enough h = absurd (omega arith)
  exhaust_from_lem zero (suc f) calls cnt file buf room enough h =
      let start : calls + 1024 * 0 ≡ calls = omega arith in
      let block = random_bytes rand calls 1024 in
      (
        (cnt, (fs.write file block).0),
        one_round f calls cnt file buf false h (limited.refuses file block room),
        (
          omega arith,
          (
            file,
            room,
            ap (λ i. (fs.write file (random_bytes rand i 1024)).0) (sym start),
            sym (append-nil (fs.written file))
                ∙ ap (λ l. fs.written file ++ l) (sym (no_bytes rand calls)),
          ),
        ),
      )
  exhaust_from_lem (suc k) (suc f) calls cnt file buf room enough h =
      let block = random_bytes rand calls 1024 in
      let whole = length-random_bytes rand calls 1024 in
      let (fits, left, content) = limited.takes file k block room whole in
      let (r, run, (counted, (last, none_left, ends, bytes))) =
        exhaust_from_lem k f (calls + 1024) (cnt + 1) (fs.write file block).0 block left
          (omega arith) whole in
      let calls_on : calls + 1024 + 1024 * k ≡ calls + 1024 * suc k = omega arith in
      let all : 1024 + 1024 * k ≡ 1024 * suc k = omega arith in
      (
        r,
        one_round f calls cnt file buf true h fits ∙ run,
        (
          omega (arith, counted),
          (
            last,
            none_left,
            ends ∙ ap (λ i. (fs.write last (random_bytes rand i 1024)).0) calls_on,
            bytes
                ∙ ap (λ l. l ++ random_bytes rand (calls + 1024) (1024 * k)) content
                ∙ append_assoc (fs.written file) block (random_bytes rand (calls + 1024) (1024 * k))
                ∙ ap (λ l. fs.written file ++ l) (random_bytes-append rand calls 1024 (1024 * k))
                ∙ ap (λ n. fs.written file ++ random_bytes rand calls n) all,
          ),
        ),
      )

  -- If the file is new and can be opened, on a device with room for a number of blocks, the
  -- endless loop is left: within one round more than that number the program reports exactly that
  -- many blocks, has written consecutive draws of the generator into them, and the one `write`
  -- behind them is the last.
  pub exhaust_nvmm_lem :
      (f : ℕ) (path : List ℕ) (file : fs.File)
      → fs.open_file path ≡ some file
      → fs.written file ≡ []
      → limited.room file < f
      → Returns (exhaust_nvmm fs rand f false path) (λ o.
        (last end : fs.File) × (o ≡ some (limited.room file, end))
        × (limited.room last ≡ 0)
        × (end ≡ (fs.write last (random_bytes rand (1024 * limited.room file) 1024)).0)
        × (fs.written last ≡ random_bytes rand 0 (1024 * limited.room file)))
  unfolding exhaust_nvmm
  exhaust_nvmm_lem f path file opened empty enough =
      let k = limited.room file in
      let ((cnt, end), run, (counted, (last, none_left, ends, bytes))) =
        exhaust_from_lem k f 0 0 file (replicate block_bytes 0) refl enough
          (length-replicate {A = ℕ} block_bytes 0) in
      let number : cnt ≡ k = omega (arith, counted) in
      let calls : 0 + 1024 * k ≡ 1024 * k = omega arith in
      (
        some (cnt, end),
        rw (exhaust_nvmm, opened) (ap (λ r. r >>= λ r. ok (some r)) run),
        (
          last,
          end,
          ap (λ n. some (n, end)) number,
          none_left,
          ends ∙ ap (λ n. (fs.write last (random_bytes rand n 1024)).0) calls,
          bytes ∙ ap (λ l. l ++ random_bytes rand 0 (1024 * k)) empty,
        ),
      )
