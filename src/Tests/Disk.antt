-- ===== src/Tests/Disk.antt =====
-- A file as the log of its written bytes, each with its offset: a system that completes writes.

use nvm_tools.Base.{
  ℕ, zero, suc, ◌+◌, ◌≤◌, ◌≡◌, refl, sym, ap, ◌∙◌, true, some, List, [], ◌∷◌, ◌++◌, append_assoc,
  length, length-append, take, drop, take-append-drop, arith, ◌<◌,
}
use nvm_tools.Worker.{Os, count}
use nvm_tools.Worker.Hint.{IsRegular}
use nvm_tools.Worker.Dump.{Gives}
use mathlib.Core.List.{cons≢nil}

abbrev pub tagged : ℕ → List ℕ → List (ℕ × ℕ)
tagged ofs [] = []
tagged ofs (b ∷ bs) = (ofs, b) ∷ tagged (ofs + 1) bs

abbrev pub values : List (ℕ × ℕ) → List ℕ
values [] = []
values (e ∷ log) = e.1 ∷ values log

abbrev pub log_os : Os
log_os = record {
  File = List (ℕ × ℕ);
  accessible = true;
  open_file = λ create append. some [];
  pwrite = λ file bytes ofs. (file ++ tagged ofs bytes, count (length bytes));
  write = λ file bytes. (file ++ tagged (length file) bytes, count (length bytes));
  pread = λ file n ofs. some (take n (drop ofs (values file)));
}

tagged-append :
    (ofs : ℕ) (a b : List ℕ) → tagged ofs (a ++ b) ≡ tagged ofs a ++ tagged (ofs + length a) b
tagged-append ofs [] b = ap (λ n. tagged n b) (omega arith)
tagged-append ofs (x ∷ a) b =
    ap (◌∷◌ (ofs, x))
      (tagged-append (ofs + 1) a b ∙ ap (λ n. tagged (ofs + 1) a ++ tagged n b) (omega arith))

length-tagged : (ofs : ℕ) (a : List ℕ) → length (tagged ofs a) ≡ length a
length-tagged ofs [] = refl
length-tagged ofs (x ∷ a) = ap suc (length-tagged (ofs + 1) a)

length-take_le : (n : ℕ) (l : List ℕ) → length (take n l) ≤ n
length-take_le zero l = omega arith
length-take_le (suc n) [] = omega arith
length-take_le (suc n) (x ∷ l) = omega (arith, length-take_le n l)

pub log_os-IsRegular : IsRegular log_os
log_os-IsRegular = record {
  pwrite_complete = λ f bs ofs. refl;
  pwrite_splits = λ f a b ofs.
      ap (λ l. f ++ l) (tagged-append ofs a b)
      ∙ sym (append_assoc f (tagged ofs a) (tagged (ofs + length a) b));
  write_complete = λ f bs. refl;
  write_splits = λ f a b.
      ap (λ l. f ++ l) (tagged-append (length f) a b)
      ∙ sym (append_assoc f (tagged (length f) a) (tagged (length f + length a) b))
      ∙ ap (λ n. (f ++ tagged (length f) a) ++ tagged n b)
          (sym (
            length-append f (tagged (length f) a)
            ∙ ap (λ n. length f + n) (length-tagged (length f) a)));
  pread_bounded =
      λ f n ofs. (take n (drop ofs (values f)), refl, length-take_le n (drop ofs (values f)));
}

drop-nil : (n : ℕ) → drop {A = ℕ} n [] ≡ []
drop-nil zero = refl
drop-nil (suc n) = refl

drop-add : (m n : ℕ) (l : List ℕ) → drop (m + n) l ≡ drop n (drop m l)
drop-add zero n l = ap (λ k. drop k l) (omega arith)
drop-add (suc m) n [] = drop-nil (suc m + n) ∙ sym (drop-nil n)
drop-add (suc m) n (x ∷ l) =
    let next : suc m + n ≡ suc (m + n) = omega arith in
    ap (λ k. drop k (x ∷ l)) next ∙ drop-add m n l

drop-taken : (n : ℕ) (l : List ℕ) → drop (length (take n l)) l ≡ drop n l
drop-taken zero l = refl
drop-taken (suc n) [] = refl
drop-taken (suc n) (x ∷ l) = drop-taken n l

take-ended : (n : ℕ) (l : List ℕ) → take n l ≡ [] → 0 < n → l ≡ []
take-ended zero l e h = absurd (omega arith)
take-ended (suc n) [] e h = refl
take-ended (suc n) (x ∷ l) e h = absurd (cons≢nil e)

-- The log gives its bytes.
pub log_os-Gives :
    (file : List (ℕ × ℕ)) (n o : ℕ) → Gives log_os file (λ k. drop k (values file)) n o
log_os-Gives file n o =
    let rest = drop o (values file) in
    record {
      bytes = take n rest;
      run = refl;
      front =
          sym (take-append-drop n rest)
          ∙ ap (λ l. take n rest ++ l)
              (sym (drop-add o (length (take n rest)) (values file) ∙ drop-taken n rest));
      few = length-take_le n rest;
      ended = take-ended n rest;
    }
