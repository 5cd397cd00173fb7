-- ===== src/Tests/Holes.antt =====
-- Punching holes at positions that a counter draws.
use nvm_tools.Base.{ℕ, suc, ◌*◌, ◌/◌, ◌≡◌, refl, [], ◌∷◌, ok, Returns, arith}
use nvm_tools.Aging.{punch_phase}
use nvm_tools.Aging.Laws.{Punches, punch_phase_lem}

-- The counter draws every position twice.
abbrev counter : ℕ → ℕ
counter n = n / 2

two_holes :
    punch_phase 4 counter 4 50
    ≡ ok (record { hole_num = 0; records = 1 ∷ 1 ∷ 0 ∷ 0 ∷ []; punched = 1 ∷ 0 ∷ [] })
unfolding punch_phase
two_holes = refl

punch_phase_example : Returns (punch_phase (suc 3) counter 4 50) (Punches 4 (4 * 50 / 100))
punch_phase_example = punch_phase_lem counter 4 50 3 (omega arith) (omega arith) (omega arith)
