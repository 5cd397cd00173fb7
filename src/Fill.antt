-- ===== src/Fill.antt =====
-- helper/replay.c, helper/lcg.c: the random generators, and `fill_blk`, which makes the content of
-- a 4 KiB block from the digest of a trace record. A buffer is the list of its bytes.
pub mod Content
pub mod Overrun
pub mod Lcg
use nvm_tools.Base.{
  ℕ, zero, suc, ◌+◌, ◌-◌, ◌*◌, ◌/◌, ◌%◌, ◌^◌, Option, none, some, List, [], ◌∷◌, ltb, leb, ◌==◌,
  if◌then◌else◌, Run, ok, fault, ◌>>=◌, load, store,
}
use nvm_tools.Trace.{blk_size}

-- `rand_gener_t`: the context, and the two functions, of which `genrandom` may be NULL.
pub record RandGener : Type 1 where
  pub Ctx : Type 0
  pub fedseed : Ctx → ℕ → Ctx
  pub genrandom : Option (Ctx → Run (ℕ × Ctx))

-- The multiplier of `lcg_rand_r`.
abbrev pub lcg_factor : ℕ
lcg_factor = 1103515245

-- `lcg_rand_r`, on the 32-bit pattern of an `int`: a negative one is `2 ^ 32 - rseed` below zero. The
-- product and the sum are signed, so that an overflow is a fault.
unfoldable pub lcg_rand_r : ℕ → Run ℕ
lcg_rand_r rseed =
    if ltb rseed (2 ^ 31)
    then (if ltb (rseed * lcg_factor + 12345) (2 ^ 31)
        then ok ((rseed * lcg_factor + 12345) % 2 ^ 31)
        else fault)
    else (if leb ((2 ^ 32 - rseed) * lcg_factor) (2 ^ 31)
        then ok ((2 ^ 32 + 12345 - (2 ^ 32 - rseed) * lcg_factor) % 2 ^ 31)
        else fault)

unfoldable pub lcg_seed_wrapper : ℕ → ℕ → ℕ
lcg_seed_wrapper ctx s = s

unfoldable pub lcg_gen_wrapper : ℕ → Run (ℕ × ℕ)
unfolding lcg_rand_r
lcg_gen_wrapper ctx = do r ← lcg_rand_r ctx; ok (r, r)

unfoldable pub stdlib_seed_wrapper : ℕ → ℕ → ℕ
stdlib_seed_wrapper ctx s = s

-- `rand_r` of the C library gives a value and the new seed through its pointer; the wrapper then
-- stores the value over that seed.
unfoldable pub stdlib_gen_wrapper : (ℕ → ℕ × ℕ) → ℕ → Run (ℕ × ℕ)
stdlib_gen_wrapper rand_r ctx = let (r, next) = rand_r ctx in ok (r, r)

-- The settings that `assign_params_per_worker` makes for `-g`, but for mt19937ar.
abbrev pub lcg_gener : RandGener
lcg_gener = record { Ctx = ℕ; fedseed = lcg_seed_wrapper; genrandom = some lcg_gen_wrapper }

abbrev pub stdlib_gener : (ℕ → ℕ × ℕ) → RandGener
stdlib_gener rand_r = record {
  Ctx = ℕ;
  fedseed = stdlib_seed_wrapper;
  genrandom = some (stdlib_gen_wrapper rand_r);
}

abbrev pub null_gener : RandGener
null_gener = record { Ctx = Unit {0}; fedseed = λ c s. c; genrandom = none }

-- The four bytes of a `uint32_t` on a little-endian machine, and the value of four bytes.
unfoldable pub le_bytes : ℕ → List ℕ
le_bytes w = (w % 256) ∷ (w / 256 % 256) ∷ (w / 65536 % 256) ∷ (w / 16777216 % 256) ∷ []

unfoldable pub le_value : List ℕ → ℕ
le_value [] = 0
le_value (b ∷ bs) = b + 256 * le_value bs

-- `for (j = 0; j < blk_size_per_step; j += 32) memcpy(blk + j, md5, 32)`.
pub fill_copies : ℕ → List ℕ → ℕ → List ℕ → Run (List ℕ)
fill_copies zero buf at digest = ok buf
fill_copies (suc rounds) buf at digest = do
  buf' ← store buf at digest
  fill_copies rounds buf' (at + 32) digest

module _ {Ctx : Type 0} where
  -- `for (j = 0; j < blk_size_per_step; j += 4) *(uint32_t *)(blk + j) = genrandom(ctx)`.
  pub fill_words : (Ctx → Run (ℕ × Ctx)) → ℕ → Ctx → List ℕ → ℕ → Run (Ctx × List ℕ)
  fill_words genrandom zero ctx buf at = ok (ctx, buf)
  fill_words genrandom (suc rounds) ctx buf at = do
    (w, ctx') ← genrandom ctx
    buf' ← store buf at (le_bytes w)
    fill_words genrandom rounds ctx' buf' (at + 4)

  module _ (fedseed : Ctx → ℕ → Ctx) where
    -- One round of the outer loop: `per` bytes from offset `at`, from the digest at `md5_at`.
    pub fill_step :
        Option (Ctx → Run (ℕ × Ctx)) → ℕ → Ctx → List ℕ → ℕ → List ℕ → ℕ → Run (Ctx × List ℕ)
    fill_step none per ctx buf at md5 md5_at = do
      digest ← load md5 md5_at 32
      buf' ← fill_copies ((per + 31) / 32) buf at digest
      ok (ctx, buf')
    fill_step (some genrandom) per ctx buf at md5 md5_at = do
      seed ← load md5 md5_at 4
      fill_words genrandom ((per + 3) / 4) (fedseed ctx (le_value seed)) buf at

    -- The outer loop, with `n` rounds left.
    pub fill_steps :
        Option (Ctx → Run (ℕ × Ctx)) → ℕ → ℕ → Ctx → List ℕ → ℕ → List ℕ → ℕ → Run (Ctx × List ℕ)
    fill_steps gen zero per ctx buf at md5 md5_at = ok (ctx, buf)
    fill_steps gen (suc n) per ctx buf at md5 md5_at = do
      (ctx', buf') ← fill_step gen per ctx buf at md5 md5_at
      fill_steps gen n per ctx' buf' (at + per) md5 (md5_at + 32)

-- `fill_blk` on the block at offset `at` of `buf`; `BLK_SIZE / step` divides by zero for a digest
-- of less than 32 characters.
unfoldable pub fill_blk : (g : RandGener) → g.Ctx → List ℕ → ℕ → List ℕ → ℕ → Run (g.Ctx × List ℕ)
unfolding fill_steps fill_step fill_words fill_copies
fill_blk g ctx buf at md5 md5_len =
    let step = md5_len / 32 in
    if step == 0
    then fault
    else fill_steps g.fedseed g.genrandom step (blk_size / step) ctx buf at md5 0
