-- ===== src/Fill/Overrun.antt =====
-- `fill_blk` of helper/replay.c, without a generator, on digests that do not divide the block
-- evenly.
use native.Mathlib.Decide.{ℕ_discrete}
use nvm_tools.Base.{
  ℕ, zero, suc, ◌+◌, ◌*◌, ◌/◌, ◌<◌, ◌≤◌, ◌≡◌, refl, ◌∙◌, ◌≢◌, inl, inr, false, none, List, leb,
  ◌==◌, length, length-take, length-drop, take, drop, fault, Returns, store_outside, length-store,
  load-take, arith, Bool-cases, leb→le,
}
use nvm_tools.Trace.{blk_size}
use nvm_tools.Fill.{RandGener, fill_copies, fill_step, fill_steps, fill_blk}

length-fill_copies :
    (n : ℕ) (buf digest : List ℕ) (at : ℕ)
    → length digest ≡ 32
    → at + 32 * n ≤ length buf
    → Returns (fill_copies n buf at digest) (λ b. length b ≡ length buf)
unfolding fill_copies
length-fill_copies zero buf digest at e h = (buf, refl, refl)
length-fill_copies (suc n) buf digest at e h =
    let (b, run, same) = length-store buf digest at (omega arith) in
    let (b', run', same') = length-fill_copies n b digest (at + 32) e (omega arith) in
    (b', rw run run', same' ∙ same)

fill_copies_outside :
    (n : ℕ) (buf digest : List ℕ) (at : ℕ)
    → length digest ≡ 32
    → at ≤ length buf
    → length buf < at + 32 * n
    → fill_copies n buf at digest ≡ fault
unfolding fill_copies
fill_copies_outside zero buf digest at e a h = absurd (omega arith)
fill_copies_outside (suc n) buf digest at e a h = elim (Bool-cases (leb (at + 32) (length buf))) [
  | inl fits ↦
      let le = leb→le (at + 32) (length buf) fits in
      let (b, run, same) = length-store buf digest at (omega arith) in
      rw run (fill_copies_outside n b digest (at + 32) e (omega arith) (omega arith))
  | inr over ↦ rw (store_outside buf digest at (ground arith))
]

-- The bytes that one part of `per` bytes really writes, without a generator.
abbrev written : ℕ → ℕ
written per = 32 * ((per + 31) / 32)

module _ {Ctx : Type 0} (fedseed : Ctx → ℕ → Ctx) where
  length-fill_step :
      (per : ℕ) (ctx : Ctx) (buf md5 : List ℕ) (at md5_at : ℕ)
      → md5_at + 32 ≤ length md5
      → at + written per ≤ length buf
      → Returns (fill_step fedseed none per ctx buf at md5 md5_at) (λ r. length r.1 ≡ length buf)
  unfolding fill_step
  length-fill_step per ctx buf md5 at md5_at m h =
      let digest = take 32 (drop md5_at md5) in
      let (b, run, same) =
        length-fill_copies ((per + 31) / 32) buf digest at
          (length-take 32 (drop md5_at md5) (omega (arith, length-drop md5_at md5))) h in
      ((ctx, b), rw (load-take md5 md5_at 32 m) (rw run), same)

  fill_step_outside :
      (per : ℕ) (ctx : Ctx) (buf md5 : List ℕ) (at md5_at : ℕ)
      → md5_at + 32 ≤ length md5
      → at ≤ length buf
      → length buf < at + written per
      → fill_step fedseed none per ctx buf at md5 md5_at ≡ fault
  unfolding fill_step
  fill_step_outside per ctx buf md5 at md5_at m a h =
      let digest = take 32 (drop md5_at md5) in
      rw (load-take md5 md5_at 32 m) (
        rw (
          fill_copies_outside ((per + 31) / 32) buf digest at
            (length-take 32 (drop md5_at md5) (omega (arith, length-drop md5_at md5))) a h))

  -- The last of `n + 1` parts ends behind the buffer.
  fill_steps_outside :
      (n per : ℕ) (ctx : Ctx) (buf md5 : List ℕ) (at md5_at : ℕ)
      → md5_at + 32 * suc n ≤ length md5
      → at + n * per ≤ length buf
      → length buf < at + n * per + written per
      → fill_steps fedseed none (suc n) per ctx buf at md5 md5_at ≡ fault
  unfolding fill_steps
  fill_steps_outside zero per ctx buf md5 at md5_at m a h =
      rw (fill_step_outside per ctx buf md5 at md5_at (omega arith) (omega arith) (omega arith))
  fill_steps_outside (suc n) per ctx buf md5 at md5_at m a h =
      elim (Bool-cases (leb (at + written per) (length buf))) [
        | inl fits ↦
            let le = leb→le (at + written per) (length buf) fits in
            let (r, run, same) = length-fill_step per ctx buf md5 at md5_at (omega arith) le in
            rw run (
              fill_steps_outside n per r.0 r.1 md5 (at + per) (md5_at + 32) (omega arith)
                (grind arith) (grind arith))
        | inr over ↦
            rw (
              fill_step_outside per ctx buf md5 at md5_at (omega arith) (grind arith)
                (ground arith))
      ]

overrun_by_parts :
    (g : RandGener) (ctx : g.Ctx) (buf md5 : List ℕ) (at n per : ℕ)
    → g.genrandom ≡ none
    → length md5 / 32 ≡ suc n
    → blk_size / suc n ≡ per
    → n * per ≤ blk_size
    → blk_size < n * per + written per
    → length buf ≡ at + blk_size
    → fill_blk g ctx buf at md5 (length md5) ≡ fault
unfolding fill_blk
overrun_by_parts g ctx buf md5 at n per plain parts width fits over e =
    let some_parts : (length md5 / 32 == 0) ≡ false = ground arith in
    rw plain (
      rw (some_parts, parts, width)
        (fill_steps_outside g.fedseed n per ctx buf md5 at 0 (omega arith) (omega arith)
          (omega arith)))

-- Without a generator, a digest of 96 to 127 or of 160 to 255 characters makes `fill_blk` write
-- past the end of a buffer whose last block it fills.
pub fill_blk_overrun :
    (g : RandGener) (ctx : g.Ctx) (buf md5 : List ℕ) (at : ℕ)
    → g.genrandom ≡ none
    → 3 ≤ length md5 / 32
    → length md5 / 32 ≤ 7
    → length md5 / 32 ≢ 4
    → length buf ≡ at + blk_size
    → fill_blk g ctx buf at md5 (length md5) ≡ fault
fill_blk_overrun g ctx buf md5 at plain lo hi ne e = elim (ℕ_discrete (length md5 / 32) 3) [
  | yes p ↦ overrun_by_parts g ctx buf md5 at 2 1365 plain p refl (omega arith) (omega arith) e
  | no p ↦ elim (ℕ_discrete (length md5 / 32) 5) [
    | yes q ↦ overrun_by_parts g ctx buf md5 at 4 819 plain q refl (omega arith) (omega arith) e
    | no q ↦ elim (ℕ_discrete (length md5 / 32) 6) [
      | yes r ↦ overrun_by_parts g ctx buf md5 at 5 682 plain r refl (omega arith) (omega arith) e
      | no r ↦
          overrun_by_parts g ctx buf md5 at 6 585 plain (omega arith) refl (omega arith)
            (omega arith) e
    ]
  ]
]
