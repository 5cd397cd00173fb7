-- ===== src/Paths/Laws.antt =====
-- `sprintf` of numbers against reading them, and the names of helper/replay.c for its workers.
use nvm_tools.Base.{
  ℕ, zero, suc, ◌+◌, ◌-◌, ◌*◌, ◌/◌, ◌%◌, ◌^◌, ◌<◌, ◌≤◌, ◌≡◌, refl, sym, ap, subst, ◌∙◌, ◌≢◌, inl,
  inr, true, List, [], ◌∷◌, ◌++◌, ltb, length, length-append, drop, Run, ok, exit, fault, arith,
  Bool-cases, lt→ltb,
}
use native.Mathlib.Nat.{pow-suc}
use nvm_tools.Options.{max_name_len}
use nvm_tools.Paths.{
  digits_before, decimal, print_behind, trace_name, dump_name, dstfilepath, drfilepath,
}

-- The number that a string of digits stands for, behind `n`.
abbrev pub value : ℕ → List ℕ → ℕ
value n [] = n
value n (c ∷ cs) = value (n * 10 + (c - b'0')) cs

value-digits_before :
    (f n : ℕ) (rest : List ℕ)
    → n < 10 ^ suc f
    → value 0 (digits_before (suc f) n rest) ≡ value n rest
unfolding digits_before
value-digits_before zero n rest h =
    let small : ltb n 10 ≡ true = ground arith in rw small (ap (λ m. value m rest) (omega arith))
value-digits_before (suc f) n rest h = elim (Bool-cases (ltb n 10)) [
  | inl small ↦ rw small (ap (λ m. value m rest) (omega arith))
  | inr more ↦
      let fewer : n / 10 < 10 ^ suc f = omega (arith, pow-suc 10 (suc f)) in
      rw more (
        value-digits_before f (n / 10) ((b'0' + n % 10) ∷ rest) fewer
        ∙ ap (λ m. value m rest) (omega arith))
]

pub value-decimal : (n : ℕ) → n < 2 ^ 64 → value 0 (decimal n) ≡ n
unfolding decimal
value-decimal n h = value-digits_before 19 n [] (omega arith)

pub decimal-inj : (m n : ℕ) → m < 2 ^ 64 → n < 2 ^ 64 → decimal m ≡ decimal n → m ≡ n
decimal-inj m n hm hn h = sym (value-decimal m hm) ∙ ap (value 0) h ∙ value-decimal n hn

-- What is printed behind the same directory is told apart by what is printed.
pub behind-inj : (path xs ys : List ℕ) → path ++ xs ≡ path ++ ys → xs ≡ ys
behind-inj [] xs ys h = h
behind-inj (c ∷ path) xs ys h = behind-inj path xs ys (ap (drop 1) h)

-- If the outcome is a string, it is `s`.
abbrev OnlyPrints : List ℕ → Run (List ℕ) → Type 0
OnlyPrints s (ok file) = file ≡ s
OnlyPrints s (exit n) = Unit
OnlyPrints s fault = Unit

print_behind-OnlyPrints : (path s : List ℕ) → OnlyPrints (path ++ s) (print_behind path s)
unfolding print_behind
print_behind-OnlyPrints path s = elim (Bool-cases (ltb (length (path ++ s)) max_name_len)) [
  | inl fits ↦ rw fits refl
  | inr over ↦ rw over tt
]

print_behind-ok : (path s file : List ℕ) → print_behind path s ≡ ok file → file ≡ path ++ s
print_behind-ok path s file h = subst (OnlyPrints (path ++ s)) h (print_behind-OnlyPrints path s)

-- Two workers with different 64-bit numbers, where their paths fit, do not replay to the same
-- file.
pub dstfilepath-distinct :
    (dstpath : List ℕ) (i j : ℕ) (file file' : List ℕ)
    → i < 2 ^ 64
    → j < 2 ^ 64
    → i ≢ j
    → dstfilepath dstpath i ≡ ok file
    → dstfilepath dstpath j ≡ ok file'
    → file ≢ file'
unfolding dstfilepath
dstfilepath-distinct dstpath i j file file' hi hj ne at_i at_j e =
    let same : dstpath ++ trace_name i ≡ dstpath ++ trace_name j =
      sym (print_behind-ok dstpath (trace_name i) file at_i)
      ∙ e
      ∙ print_behind-ok dstpath (trace_name j) file' at_j in
    ne (decimal-inj i j hi hj (ap (drop 6) (behind-inj dstpath (trace_name i) (trace_name j) same)))

length-digits_before : (f n : ℕ) (rest : List ℕ) → length (digits_before f n rest) ≤ f + length rest
unfolding digits_before
length-digits_before zero n rest = omega arith
length-digits_before (suc f) n rest =
    let shorter = length-digits_before f (n / 10) ((b'0' + n % 10) ∷ rest) in ground arith

pub length-decimal : (i : ℕ) → length (decimal i) ≤ 20
unfolding decimal
length-decimal i = length-digits_before 20 i []

-- For a directory of fewer than 230 characters the path of every worker fits its array of 256, and
-- is the directory with `trace_` and the number behind it.
pub dstfilepath-Returns :
    (dstpath : List ℕ) (i : ℕ)
    → length dstpath < 230
    → dstfilepath dstpath i ≡ ok (dstpath ++ trace_name i)
unfolding dstfilepath print_behind
dstfilepath-Returns dstpath i h =
    let digits : length (decimal i) ≤ 20 = length-decimal i in
    let bound : length (dstpath ++ trace_name i) < max_name_len =
      omega (arith, length-append dstpath (trace_name i)) in
    rw (lt→ltb (length (dstpath ++ trace_name i)) max_name_len bound) refl

-- The path of a dump likewise, for a directory of fewer than 226 characters.
pub drfilepath-Returns :
    (dump_read_path : List ℕ) (i : ℕ)
    → length dump_read_path < 226
    → drfilepath dump_read_path i ≡ ok (dump_read_path ++ dump_name i)
unfolding drfilepath print_behind
drfilepath-Returns dump_read_path i h =
    let digits : length (decimal i) ≤ 20 = length-decimal i in
    let bound : length (dump_read_path ++ dump_name i) < max_name_len =
      omega (arith, length-append dump_read_path (dump_name i)) in
    rw (lt→ltb (length (dump_read_path ++ dump_name i)) max_name_len bound) refl
