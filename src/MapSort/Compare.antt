-- ===== src/MapSort/Compare.antt =====
-- `trace_container_cmp` of helper/replay.c, against the order of block addresses.
use nvm_tools.Base.{
  ℕ, ◌+◌, ◌-◌, ◌%◌, ◌^◌, ◌<◌, ◌≤◌, ◌≡◌, ◌≢◌, ◌⊎◌, inl, inr, false, ltb, ◌==◌, arith, Bool-cases,
  ==_iff, lt→ltb, ge→ltb, ltb→lt, sub64,
}
use nvm_tools.MapSort.{trace_container_cmp_gt}

-- The `int` is zero or negative.
not_positive :
    (a b : ℕ)
    → (sub64 a b % 2 ^ 32 ≡ 0) ⊎ (2 ^ 31 ≤ sub64 a b % 2 ^ 32)
    → trace_container_cmp_gt a b ≡ false
unfolding trace_container_cmp_gt
not_positive a b (inl e) = rw e
not_positive a b (inr h) =
    let d = sub64 a b % 2 ^ 32 in rw (lt→ltb 0 d (omega arith)) (ge→ltb d (2 ^ 31) h)

-- For 64-bit block addresses that are less than 2 ^ 31 apart, in whichever order, the comparison
-- is positive exactly if the first is greater.
pub trace_container_cmp_gt_lem :
    (a b : ℕ)
    → a < 2 ^ 64
    → b < 2 ^ 64
    → a < b + 2 ^ 31
    → b < a + 2 ^ 31
    → trace_container_cmp_gt a b ≡ ltb b a
unfolding trace_container_cmp_gt
trace_container_cmp_gt_lem a b ha hb h k = elim (Bool-cases (ltb b a)) [
  | inl above ↦
      let lt = ltb→lt b a above in
      let d : sub64 a b % 2 ^ 32 ≡ a - b = omega arith in
      rw (d, above) (rw (lt→ltb 0 (a - b) (omega arith)) (lt→ltb (a - b) (2 ^ 31) (omega arith)))
  | inr below ↦
      let le : a ≤ b = ground arith in
      rw below (elim (Bool-cases (a == b)) [
        | inl same ↦ let e : a ≡ b = (==_iff a b).0 same in not_positive a b (inl (omega arith))
        | inr apart ↦ let ne : a ≢ b = ground arith in not_positive a b (inr (omega arith))
      ])
]

-- For 64-bit block addresses of which the first is greater by 2 ^ 31 to 2 ^ 32, the comparison is
-- not positive.
pub trace_container_cmp_gt-wraps :
    (a b : ℕ) → a < 2 ^ 64 → b + 2 ^ 31 ≤ a → a ≤ b + 2 ^ 32 → trace_container_cmp_gt a b ≡ false
trace_container_cmp_gt-wraps a b ha h k = elim (Bool-cases (a == b + 2 ^ 32)) [
  | inl same ↦
      let e : a ≡ b + 2 ^ 32 = (==_iff a (b + 2 ^ 32)).0 same in
      not_positive a b (inl (omega arith))
  | inr apart ↦ let ne : a ≢ b + 2 ^ 32 = ground arith in not_positive a b (inr (omega arith))
]
