-- ===== src/Tests/Ageing.antt =====
-- All phases of helper/aging_system.c, with a generator that counts.
use nvm_tools.Base.{
  ℕ, zero, suc, ◌+◌, ◌*◌, ◌/◌, ◌%◌, ◌^◌, ◌<◌, ◌≤◌, ◌≡◌, refl, sym, ap, subst, ◌∙◌, true, false,
  List, [], ◌∷◌, ◌==◌, length, length-replicate, replicate, All, Returns, arith,
}
use nvm_tools.Pages.{step}
use native.Mathlib.Nat.{mod-eq_of_lt}
use nvm_tools.Aging.Laws.{new_draws, elem}
use nvm_tools.Aging.Phases.{AgingParams, aging_system}
use nvm_tools.Aging.Whole.{Ages, aging_system_lem}
use nvm_tools.Tests.Device.{plain_fs, plain_fs-IsWritable}

abbrev itself : ℕ → ℕ
itself n = n

not_seen : (p : ℕ) (seen : List ℕ) → All (λ q. q < p) seen → elem p seen ≡ false
not_seen p [] below = refl
not_seen p (q ∷ seen) below =
    let other : (p == q) ≡ false = ground arith in rw other (not_seen p seen below.1)

still_below : (p : ℕ) (seen : List ℕ) → All (λ q. q < p) seen → All (λ q. q < p + 1) seen
still_below p [] below = tt
still_below p (q ∷ seen) below = (omega arith, still_below p seen below.1)

draw_new :
    (rand : ℕ → ℕ) (total calls n : ℕ) (seen : List ℕ)
    → elem (rand calls % total) seen ≡ false
    → new_draws rand total calls (suc n) seen
      ≡ suc (new_draws rand total (calls + 1) n (rand calls % total ∷ seen))
draw_new rand total calls n seen e = rw (new_draws, e) refl

all_new :
    (total calls n : ℕ) (seen : List ℕ)
    → All (λ q. q < calls) seen
    → calls + n ≤ total
    → new_draws itself total calls n seen ≡ n
all_new total calls zero seen below room = refl
all_new total calls (suc n) seen below room =
    let drawn : calls % total ≡ calls = mod-eq_of_lt (omega arith) in
    let rest =
      all_new total (calls + 1) n (calls ∷ seen) (omega arith, still_below calls seen below)
        (omega arith) in
    draw_new itself total calls n seen (ap (λ p. elem p seen) drawn ∙ not_seen calls seen below)
    ∙ ap (λ p. suc (new_draws itself total (calls + 1) n (p ∷ seen))) drawn
    ∙ ap suc rest

-- A 1 GiB file of which half is punched.
abbrev one_gib : AgingParams
one_gib = record {
  filepath = b'/' ∷ b'm' ∷ b'n' ∷ b't' ∷ [];
  dirlen = 4;
  size = 1;
  hole_percent = 50;
  phase = 4;
}

-- A buffer of 2 MiB.
full_step : List ℕ
full_step = replicate step 0

length-full_step : length full_step ≡ step
unfolding full_step
length-full_step = length-replicate {A = ℕ} step 0

many_draws : (total n k : ℕ) → n ≤ total → k ≤ n → k ≤ new_draws itself total 0 n []
many_draws total n k room few = subst (λ l. k ≤ l) (sym (all_new total 0 n [] tt (omega arith))) few

enough_draws : 1 * 2 ^ 18 * 50 / 100 ≤ new_draws itself (1 * 2 ^ 18) 0 131072 []
enough_draws = many_draws (1 * 2 ^ 18) 131072 (1 * 2 ^ 18 * 50 / 100) (omega arith) (omega arith)

aging_system_example :
    Returns
      (aging_system plain_fs (λ path. true) (λ seed. itself) (suc 131072) one_gib full_step)
      (Ages plain_fs plain_fs-IsWritable (λ path. true) (λ seed. itself) (1 * 2 ^ 18) 50)
aging_system_example =
    aging_system_lem plain_fs plain_fs-IsWritable (λ path. true) (λ seed. itself) 131072 one_gib
      full_step refl (omega arith) (omega arith) (omega arith) (omega arith) length-full_step
      (λ path. refl) enough_draws
