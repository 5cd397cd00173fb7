-- ===== src/Fill/Lcg.antt =====
-- `lcg_rand_r` of helper/lcg.c.
use nvm_tools.Base.{
  ℕ, ◌-◌, ◌*◌, ◌^◌, ◌<◌, ◌≡◌, inl, inr, fault, ltb, leb, ◌+◌, refl, false, arith, Bool-cases,
}
use nvm_tools.Fill.{lcg_factor, lcg_rand_r}

-- The linear congruential generator overflows a signed `int` on every 32-bit state but 0, 1 and
-- -1.
pub lcg_rand_r_overflow : (x : ℕ) → 1 < x → x < 2 ^ 32 - 1 → lcg_rand_r x ≡ fault
unfolding lcg_rand_r
lcg_rand_r_overflow x lo hi = elim (Bool-cases (ltb x (2 ^ 31))) [
  | inl small ↦
      let over : ltb (x * lcg_factor + 12345) (2 ^ 31) ≡ false = ground arith in
      rw small (rw over refl)
  | inr large ↦
      let over : leb ((2 ^ 32 - x) * lcg_factor) (2 ^ 31) ≡ false = ground arith in
      rw large (rw over refl)
]
