-- ===== src/Replay/Gener.antt =====
-- The generators of `-g` in helper/replay.c, against what `fill_blk` relies on.
use mathlib.Core.Bool.{true≢false}
use nvm_tools.Base.{ℕ, ◌≡◌, refl, Bool, true, false}
use nvm_tools.Fill.{stdlib_seed_wrapper, stdlib_gen_wrapper}
use nvm_tools.Fill.Content.{IsReseeding}
use nvm_tools.Twister.Gener.{mt19937ar_gener-IsReseeding}
use nvm_tools.Options.{GenerType, random_mt19937ar, random_stdlib, random_lcg, random_null}
use nvm_tools.Replay.{gener_for}

-- The generator whose draws overflow.
abbrev pub is_lcg : GenerType → Bool
is_lcg random_mt19937ar = false
is_lcg random_stdlib = false
is_lcg random_lcg = true
is_lcg random_null = false

-- Every generator of `-g` but the linear congruential one, whose draws overflow, forgets its past
-- when it is seeded, and draws behind that end.
pub gener_for-IsReseeding :
    (rand_r : ℕ → ℕ × ℕ) (type : GenerType)
    → is_lcg type ≡ false
    → IsReseeding (gener_for rand_r type)
unfolding stdlib_seed_wrapper stdlib_gen_wrapper
gener_for-IsReseeding rand_r random_mt19937ar h = mt19937ar_gener-IsReseeding
gener_for-IsReseeding rand_r random_stdlib h = record {
  forgets = λ c c' s. refl;
  draws = (λ c. true, λ c s. refl, λ c e. ((_, _), refl, refl));
}
gener_for-IsReseeding rand_r random_lcg h = absurd (true≢false h)
gener_for-IsReseeding rand_r random_null h = record { forgets = λ c c' s. refl; draws = tt }
