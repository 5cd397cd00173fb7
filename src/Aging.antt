-- ===== src/Aging.antt =====
-- helper/aging_system.c: the loop of phase 2, which punches holes of 4 KiB at random positions of a
-- file. The n-th call of `genrand_int32` is a function of n.
pub mod Laws
pub mod Phases
pub mod Whole
use nvm_tools.Base.{
  ℕ, zero, suc, ◌+◌, ◌-◌, ◌*◌, ◌/◌, ◌%◌, ◌^◌, true, false, List, [], ◌∷◌, ◌==◌, if◌then◌else◌, set,
  replicate, Run, ok, fault, ◌>>=◌, fetch,
}

-- `hole_num`, `records`, and the positions of the `fallocate` calls, the last one first. A call
-- that fails is reported, and the hole counted.
pub record Punching : Type 0 where
  pub hole_num : ℕ
  pub records : List ℕ
  pub punched : List ℕ

-- The body, once `pos` is drawn.
unfoldable pub punch_at : ℕ → Punching → Run Punching
punch_at pos s = do
  r ← fetch s.records pos
  if r == 0
      then ok (record {
        hole_num = s.hole_num - 1;
        records = set s.records pos 1;
        punched = pos ∷ s.punched;
      })
      else ok s

-- `while (hole_num)`, behind `calls` calls of the generator.
pub punch_holes : ℕ → (ℕ → ℕ) → ℕ → ℕ → Punching → Run Punching
punch_holes zero rand total calls s = fault
punch_holes (suc f) rand total calls s = elim (s.hole_num == 0) [
  | true ↦ ok s
  | false ↦ elim (total == 0) [
    | true ↦ fault
    | false ↦ do s' ← punch_at (rand calls % total) s; punch_holes f rand total (calls + 1) s'
  ]
]

-- The start of the phase, on a file of `total` blocks.
unfoldable pub punch_phase : ℕ → (ℕ → ℕ) → ℕ → ℕ → Run Punching
unfolding punch_holes punch_at
punch_phase f rand total hole_percent = punch_holes f rand total 0 (record {
  hole_num = total * hole_percent % 2 ^ 64 / 100;
  records = replicate total 0;
  punched = [];
})
