-- ===== src/Pages/Laws.antt =====
-- The pages that helper/write_1G.c and helper/aging_system.c write.
use nvm_tools.Base.{
  ℕ, zero, suc, ◌+◌, ◌*◌, ◌%◌, ◌^◌, ◌<◌, ◌≤◌, ◌≡◌, refl, sym, ap, ◌∙◌, Bool, true, false, List, [],
  ◌∷◌, ◌++◌, append-nil, append_assoc, leb, ◌==◌, length, length-append, length-take, length-drop,
  take-append-drop, take, drop, ok, ◌>>=◌, Returns, load, load-append, store_front, regroup, arith,
  ==_iff, lt→ltb, gt→leb,
}
use nvm_tools.Interference.{Fs, long_bytes}
use nvm_tools.Interference.Files.{
  IsWritable, word_copies, magic_blocks, length-long_bytes, length-word_copies,
}
use nvm_tools.Pages.{
  step, page_size, fill_page_from, fill_page, fill_pages, write_step, write_steps, fname_base,
  first_page, write_1G,
}

fill_page_from_lem :
    (n at v : ℕ) (pre old post : List ℕ)
    → length pre ≡ at
    → length old ≡ 8 * n
    → fill_page_from n at v (pre ++ (old ++ post)) ≡ ok (pre ++ (word_copies n v ++ post))
unfolding fill_page_from word_copies
fill_page_from_lem zero at v pre [] post e h = refl
fill_page_from_lem zero at v pre (b ∷ old) post e h = absurd (omega arith)
fill_page_from_lem (suc n) at v pre old post e h =
    rw (store_front pre old post (long_bytes v) at 8 e (length-long_bytes v) (omega arith)) (
      fill_page_from_lem n (at + 8) v (pre ++ long_bytes v) (drop 8 old) post
        (omega (arith, length-append pre (long_bytes v), length-long_bytes v))
        (omega (arith, length-drop 8 old))
      ∙ ap ok (regroup pre (long_bytes v) (word_copies n v) post))

fill_page_lem :
    (at v : ℕ) (pre old post : List ℕ)
    → length pre ≡ at
    → length old ≡ page_size
    → fill_page at v (pre ++ (old ++ post)) ≡ ok (pre ++ (word_copies 512 v ++ post))
unfolding fill_page
fill_page_lem at v pre old post e h = fill_page_from_lem 512 at v pre old post e h

length-page : (v : ℕ) → length (word_copies 512 v) ≡ page_size
length-page v = length-word_copies 512 v

-- One page, at the front of what is left of the step.
fill_one :
    (n j v : ℕ) (pre old : List ℕ)
    → length pre ≡ j
    → page_size ≤ length old
    → fill_pages (suc n) j v (pre ++ old)
      ≡ fill_pages n
          (j + page_size)
          ((v + 1) % 2 ^ 64)
          ((pre ++ word_copies 512 v) ++ drop page_size old)
unfolding fill_pages
fill_one n j v pre old e h =
    let split : pre ++ old ≡ pre ++ (take page_size old ++ drop page_size old) =
      ap (λ l. pre ++ l) (sym (take-append-drop page_size old)) in
    let page =
      fill_page_lem j v pre (take page_size old) (drop page_size old) e
        (omega (arith, length-take page_size old)) in
    ap (λ l. fill_page j v l >>= fill_pages n (j + page_size) ((v + 1) % 2 ^ 64)) split
    ∙ ap (λ r. r >>= fill_pages n (j + page_size) ((v + 1) % 2 ^ 64)) page
    ∙ ap (fill_pages n (j + page_size) ((v + 1) % 2 ^ 64))
        (sym (append_assoc pre (word_copies 512 v) (drop page_size old)))

fill_pages_lem :
    (n j v : ℕ) (pre old : List ℕ)
    → length pre ≡ j
    → length old ≡ page_size * n
    → v + n < 2 ^ 64
    → fill_pages n j v (pre ++ old) ≡ ok (v + n, pre ++ magic_blocks 512 v n)
unfolding fill_pages magic_blocks
fill_pages_lem zero j v pre [] e h small = ap (λ n. ok (n, pre ++ [])) (omega arith)
fill_pages_lem zero j v pre (b ∷ old) e h small = absurd (omega arith)
fill_pages_lem (suc n) j v pre old e h small =
    let next : (v + 1) % 2 ^ 64 ≡ v + 1 = omega arith in
    let last : v + 1 + n ≡ v + suc n = omega arith in
    let page = word_copies 512 v in
    fill_one n j v pre old e (omega arith)
    ∙ ap (λ w. fill_pages n (j + page_size) w ((pre ++ page) ++ drop page_size old)) next
    ∙ fill_pages_lem n (j + page_size) (v + 1) (pre ++ page) (drop page_size old)
        (omega (arith, length-append pre page, length-page v))
        (omega (arith, length-drop page_size old)) (omega arith)
    ∙ ap (λ w. ok (w, (pre ++ page) ++ magic_blocks 512 (v + 1) n)) last
    ∙ ap (λ l. ok (v + suc n, l)) (append_assoc pre page (magic_blocks 512 (v + 1) n))

length-magic_blocks : (v n : ℕ) → length (magic_blocks 512 v n) ≡ page_size * n
unfolding magic_blocks
length-magic_blocks v zero = refl
length-magic_blocks v (suc n) = omega (
  arith,
  length-append (word_copies 512 v) (magic_blocks 512 (v + 1) n),
  length-page v,
  length-magic_blocks (v + 1) n,
)

magic_blocks-append :
    (words v m n : ℕ)
    → magic_blocks words v m ++ magic_blocks words (v + m) n ≡ magic_blocks words v (m + n)
unfolding magic_blocks
magic_blocks-append words v zero n =
    let start : v + 0 ≡ v = omega arith in
    let all : n ≡ 0 + n = omega arith in
    ap (λ i. magic_blocks words i n) start ∙ ap (magic_blocks words v) all
magic_blocks-append words v (suc m) n =
    let start : v + suc m ≡ v + 1 + m = omega arith in
    let all : suc (m + n) ≡ suc m + n = omega arith in
    append_assoc (word_copies words v) (magic_blocks words (v + 1) m)
      (magic_blocks words (v + suc m) n)
    ∙ ap (λ i. word_copies words v ++ (magic_blocks words (v + 1) m ++ magic_blocks words i n))
        start
    ∙ ap (λ l. word_copies words v ++ l) (magic_blocks-append words (v + 1) m n)
    ∙ ap (magic_blocks words v) all

no_blocks : (v : ℕ) → magic_blocks 512 v 0 ≡ []
unfolding magic_blocks
no_blocks v = refl

module _ (fs : Fs) (laws : IsWritable fs) where
  write_step_lem :
      (file : fs.File) (buf : List ℕ)
      → length buf ≡ step
      → write_step fs file buf ≡ ok (fs.write file buf).0
  unfolding write_step
  write_step_lem file buf h =
      let read : load buf 0 step ≡ ok buf =
        rw (append-nil buf) at (load-append [] buf [] 0 step refl h) in
      let all : (length buf == step) ≡ true = (==_iff (length buf) step).1 h in
      rw (write_step, read, laws.complete file buf, all) refl

  step_one :
      (rounds v : ℕ) (buf : List ℕ) (file : fs.File)
      → length buf ≡ step
      → v + 512 < 2 ^ 64
      → write_steps fs (suc rounds) v buf file
        ≡ write_steps fs rounds
            (v + 512)
            (magic_blocks 512 v 512)
            (fs.write file (magic_blocks 512 v 512)).0
  unfolding write_steps
  step_one rounds v buf file h small =
      rw
        (
          fill_pages_lem 512 0 v [] buf refl h small,
          write_step_lem file (magic_blocks 512 v 512) (length-magic_blocks v 512),
        )
        refl

  pub write_steps_lem :
      (rounds v : ℕ) (buf : List ℕ) (file : fs.File)
      → length buf ≡ step
      → v + 512 * rounds < 2 ^ 64
      → Returns (write_steps fs rounds v buf file) (λ t.
        (fs.written t.0 ≡ fs.written file ++ magic_blocks 512 v (512 * rounds))
        × (length t.1 ≡ step))
  unfolding write_steps
  write_steps_lem zero v buf file h small = (
    (file, buf),
    refl,
    (sym (append-nil (fs.written file)) ∙ ap (λ l. fs.written file ++ l) (sym (no_blocks v)), h),
  )
  write_steps_lem (suc rounds) v buf file h small =
      let now = magic_blocks 512 v 512 in
      let count : 512 + 512 * rounds ≡ 512 * suc rounds = omega arith in
      let (t, run, (post, full)) =
        write_steps_lem rounds (v + 512) now (fs.write file now).0 (length-magic_blocks v 512)
          (omega arith) in
      (
        t,
        step_one rounds v buf file h (omega arith) ∙ run,
        (
          post
              ∙ ap (λ l. l ++ magic_blocks 512 (v + 512) (512 * rounds)) (laws.appends file now)
              ∙ append_assoc (fs.written file) now (magic_blocks 512 (v + 512) (512 * rounds))
              ∙ ap (λ l. fs.written file ++ l) (magic_blocks-append 512 v 512 (512 * rounds))
              ∙ ap (λ n. fs.written file ++ magic_blocks 512 v n) count,
          full,
        ),
      )

  -- If the file is new and can be written, the argument is shorter than 85 characters and a seed
  -- below 2 ^ 13, `write_1G` ends and the file is 2 ^ 18 pages, each filled with its number, from
  -- seed times 2 ^ 18 on.
  pub write_1G_lem :
      (atoi : List ℕ → ℕ) (exists_file : List ℕ → Bool) (buf arg : List ℕ)
      → length buf ≡ step
      → length arg < 85
      → ((path : List ℕ) → exists_file path ≡ false)
      → atoi arg < 2 ^ 13
      → Returns
          (write_1G fs atoi exists_file buf arg)
          (λ t. fs.written t ≡ magic_blocks 512 (atoi arg * 2 ^ 18) (2 ^ 18))
  unfolding write_1G first_page
  write_1G_lem atoi exists_file buf arg h short new small =
      let (file, opened, nothing) = laws.opens (fname_base ++ arg) in
      let fits : leb 100 (length (fname_base ++ arg)) ≡ false =
        gt→leb 100 (length (fname_base ++ arg)) (omega (arith, length-append fname_base arg)) in
      let ((t, last), run, (post, full)) =
        write_steps_lem 512 (atoi arg * 2 ^ 18) buf file h (omega arith) in
      (
        t,
        rw (write_1G, fits, new (fname_base ++ arg), opened, lt→ltb (atoi arg) (2 ^ 13) small, run)
            refl,
        post ∙ ap (λ l. l ++ magic_blocks 512 (atoi arg * 2 ^ 18) (2 ^ 18)) nothing,
      )

-- Of two seeds below 2 ^ 13, the first page of the greater is behind all 2 ^ 18 pages of the
-- smaller.
pub first_page-apart :
    (a b : ℕ)
    → a < b
    → b < 2 ^ 13
    → (v w : ℕ) × (first_page a ≡ ok v) × (first_page b ≡ ok w) × (v + 2 ^ 18 ≤ w)
unfolding first_page
first_page-apart a b h small = (
  a * 2 ^ 18,
  b * 2 ^ 18,
  rw (lt→ltb a (2 ^ 13) (omega arith)) refl,
  rw (lt→ltb b (2 ^ 13) small) refl,
  omega arith,
)
