-- ===== src/Base/Reorder.antt =====
-- Permutations of lists, and their length on the native numbers.
use Prim.Native.Nat.{suc}
use mathlib.Core.Path.{◌≡◌, refl, sym, ap, ◌∙◌}
use mathlib.Core.List
use mathlib.Core.List.{List, [], ◌∷◌, Perm}
use mathlib.Core.List.Perm
use native.Mathlib.Bridge.{from_ℕ}
use nvm_tools.Base.Lists.{length}

from_ℕ-length {ℓ} : {A : Type ℓ} (l : List A) → from_ℕ (List.length l) ≡ length l
from_ℕ-length [] = refl
from_ℕ-length (x ∷ l) = ap suc (from_ℕ-length l)

pub length-Perm {ℓ} : {A : Type ℓ} (xs ys : List A) → Perm xs ys → length xs ≡ length ys
length-Perm xs ys p = sym (from_ℕ-length xs) ∙ ap from_ℕ (Perm.length-eq p) ∙ from_ℕ-length ys
