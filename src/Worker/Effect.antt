-- ===== src/Worker/Effect.antt =====
-- For `replay_worker` of helper/replay.c: what each mode should make of a list of infos.

use nvm_tools.Base.{
  ℕ, suc, ◌+◌, ◌≡◌, refl, ap, ◌∙◌, true, false, List, [], ◌∷◌, ◌++◌, ◌==◌, if◌then◌else◌, length,
  arith, ==_iff,
}
use nvm_tools.Trace.{TraceInfo, Mode, write_only, read_write, append}
use nvm_tools.Fill.{RandGener}
use nvm_tools.Hints.{joins}
use nvm_tools.Hints.Runs.{IsChained, hints_of}
use nvm_tools.Worker.{Os, char_w}
use nvm_tools.Worker.Hint.{write_each, append_each, write_each-append, append_each-append}

-- The infos that record a write.
abbrev pub writes : List TraceInfo → List TraceInfo
writes [] = []
writes (x ∷ xs) = if x.rw == char_w then x ∷ writes xs else writes xs

pub writes-append : (xs ys : List TraceInfo) → writes (xs ++ ys) ≡ writes xs ++ writes ys
writes-append [] ys = refl
writes-append (x ∷ xs) ys = ground (arith, writes-append xs ys)

pub same_rw : (x y : TraceInfo) → joins x y ≡ true → (y.rw == char_w) ≡ (x.rw == char_w)
same_rw x y j = let e : y.rw ≡ x.rw = (==_iff y.rw x.rw).0 (ground arith) in ap (λ c. c == char_w) e

-- All infos of a run record the same kind of access.
pub writes_all :
    (xs : List TraceInfo) (x : TraceInfo)
    → IsChained (x ∷ xs)
    → (x.rw == char_w) ≡ true
    → writes (x ∷ xs) ≡ x ∷ xs
writes_all [] x c w = rw w
writes_all (y ∷ xs) x c w = rw w (ap (◌∷◌ x) (writes_all xs y c.1 (same_rw x y c.0 ∙ w)))

pub writes_none :
    (xs : List TraceInfo) (x : TraceInfo)
    → IsChained (x ∷ xs)
    → (x.rw == char_w) ≡ false
    → writes (x ∷ xs) ≡ []
writes_none [] x c w = rw w
writes_none (y ∷ xs) x c w = rw w (writes_none xs y c.1 (same_rw x y c.0 ∙ w))

pub length-hints_of_runs :
    (from : ℕ) (rs : List (List TraceInfo)) → length (hints_of from rs) ≡ length rs
length-hints_of_runs from [] = refl
length-hints_of_runs from (r ∷ rs) = ap suc (length-hints_of_runs (from + length r) rs)

module _ (g : RandGener) (c₀ : g.Ctx) (os : Os) where
  -- What the mode should make of a list of infos: each block at its info's own offset, or each
  -- block appended, or only the writes at their own offsets.
  abbrev pub effect : Mode → os.File → List TraceInfo → os.File
  effect write_only f l = write_each g c₀ os f l
  effect append f l = append_each g c₀ os f l
  effect read_write f l = write_each g c₀ os f (writes l)

  pub effect-nil : (mode : Mode) (f : os.File) → f ≡ effect mode f []
  effect-nil write_only f = refl
  effect-nil append f = refl
  effect-nil read_write f = refl

  pub effect-append :
      (mode : Mode) (f : os.File) (xs ys : List TraceInfo)
      → effect mode f (xs ++ ys) ≡ effect mode (effect mode f xs) ys
  effect-append write_only f xs ys = write_each-append g c₀ os f xs ys
  effect-append append f xs ys = append_each-append g c₀ os f xs ys
  effect-append read_write f xs ys =
      ap (write_each g c₀ os f) (writes-append xs ys)
      ∙ write_each-append g c₀ os f (writes xs) (writes ys)
