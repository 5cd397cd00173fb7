-- ===== src/Tests/Contents.antt =====
-- The content of blocks, and the generators.
use nvm_tools.Base.{
  ℕ, ◌≡◌, refl, true, List, [], ◌∷◌, ◌++◌, length, length-replicate, replicate, ok, fault, arith,
}
use nvm_tools.Trace.{blk_size}
use nvm_tools.Fill.{
  RandGener, stdlib_gener, null_gener, lcg_rand_r, stdlib_seed_wrapper, stdlib_gen_wrapper,
  fill_blk,
}
use nvm_tools.Fill.Content.{IsReseeding, fill_blk-deterministic}
use nvm_tools.Fill.Overrun.{fill_blk_overrun}
use nvm_tools.Fill.Lcg.{lcg_rand_r_overflow}
use nvm_tools.Tests.Data.{digest, digest-IsDigest}

-- A generator of the C library that gives its seed.
abbrev seed_gener : RandGener
seed_gener = stdlib_gener (λ s. (s, s))

seed_gener-IsReseeding : IsReseeding seed_gener
unfolding stdlib_seed_wrapper stdlib_gen_wrapper
seed_gener-IsReseeding = record {
  forgets = λ c c' s. refl;
  draws = (λ c. true, λ c s. refl, λ c e. ((_, _), refl, refl));
}

lcg_runs : lcg_rand_r 1 ≡ ok 1103527590
unfolding lcg_rand_r
lcg_runs = refl

lcg_rand_r_overflow_example : lcg_rand_r 2 ≡ fault
lcg_rand_r_overflow_example = lcg_rand_r_overflow 2 (omega arith) (omega arith)

abbrev old_block : List ℕ
old_block = replicate 4096 0

fill_blk_deterministic_example :
    (block : List ℕ) × (d d' : ℕ) × (length block ≡ blk_size)
    × (fill_blk seed_gener 0 ([] ++ (old_block ++ [])) 0 digest (length digest)
        ≡ ok (d, [] ++ (block ++ [])))
    × (fill_blk seed_gener 5 ((9 ∷ []) ++ (old_block ++ (8 ∷ []))) 1 digest (length digest)
        ≡ ok (d', (9 ∷ []) ++ (block ++ (8 ∷ []))))
fill_blk_deterministic_example =
    fill_blk-deterministic seed_gener 0 5 digest [] old_block [] (9 ∷ []) old_block (8 ∷ []) 0 1
      seed_gener-IsReseeding digest-IsDigest refl (length-replicate {A = ℕ} 4096 0) refl
      (length-replicate {A = ℕ} 4096 0)

abbrev long_digest : List ℕ
long_digest = replicate 96 (b'a')

fill_blk_overrun_example :
    fill_blk null_gener tt old_block 0 long_digest (length long_digest) ≡ fault
fill_blk_overrun_example =
    fill_blk_overrun null_gener tt old_block long_digest 0 refl (omega arith) (omega arith)
      (omega arith) (length-replicate {A = ℕ} 4096 0)
