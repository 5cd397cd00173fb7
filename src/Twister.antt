-- ===== src/Twister.antt =====
-- helper/mt19937ar.c, helper/mt19937ar.h: the variants of the Mersenne twister that keep their state
-- in a structure, which this repository adds to the authors' file.
pub mod Seed
pub mod Draw
pub mod Gener
use Prim.Native.Nat.{bit_and, bit_or, bit_xor}
use nvm_tools.Base.{
  ℕ, zero, suc, ◌&&◌, ◌+◌, ◌-◌, ◌*◌, ◌/◌, ◌%◌, ◌^◌, List, ltb, leb, ◌==◌, if◌then◌else◌, length,
  set, Run, ok, fault, ◌>>=◌, fetch,
}

-- `struct mt19937ar_state`; `mti` is the 32-bit pattern of an `int`, so that a negative one is at least
-- `2 ^ 31`, and a read at it is before the array.
pub record Mt19937arState : Type 0 where
  pub mt : List ℕ
  pub mti : ℕ

-- `N`.
abbrev pub state_words : ℕ
state_words = 624

-- `mt_r[i] = w`.
unfoldable pub store_word : List ℕ → ℕ → ℕ → Run (List ℕ)
store_word mt i w = if ltb i (length mt) then ok (set mt i w) else fault

-- What `init_genrand_r` puts behind the word `prev`, at index `i`.
unfoldable pub seed_word : ℕ → ℕ → ℕ
seed_word prev i = (1812433253 * bit_xor prev (prev / 2 ^ 30) + i) % 2 ^ 64 % 2 ^ 32

-- Its loop, with `rounds` rounds left.
pub seed_from : ℕ → ℕ → List ℕ → Run (List ℕ)
seed_from zero i mt = ok mt
seed_from (suc rounds) i mt = do
  prev ← fetch mt (i - 1)
  mt' ← store_word mt i (seed_word prev i)
  seed_from rounds (i + 1) mt'

unfoldable pub init_genrand_r : Mt19937arState → ℕ → Run Mt19937arState
unfolding seed_from store_word seed_word
init_genrand_r state s = do
  mt ← store_word state.mt 0 (s % 2 ^ 32)
  mt' ← seed_from (state_words - 1) 1 mt
  ok (record { mt = mt'; mti = state_words })

-- `mag01`.
unfoldable pub mag01 : ℕ → ℕ
mag01 x = if x == 0 then 0 else 0x9908_b0df

-- `mt_r[other] ^ (y >> 1) ^ mag01[y & 1]`, from the words `a`, `b` that `y` is made of and `c`.
unfoldable pub twist_word : ℕ → ℕ → ℕ → ℕ
unfolding mag01
twist_word a b c =
    let y = bit_or (bit_and a 0x8000_0000) (bit_and b 0x7fff_ffff) in
    bit_xor (bit_xor c (y / 2)) (mag01 (bit_and y 1))

-- `mt_r[kk] = mt_r[other] ^ (y >> 1) ^ mag01[y & 1]`, where `y` has the upper bit of `mt_r[kk]` and
-- the lower bits of the word behind it.
unfoldable pub twist_at : ℕ → ℕ → ℕ → List ℕ → Run (List ℕ)
unfolding store_word twist_word
twist_at kk next other mt = do
  a ← fetch mt kk
  b ← fetch mt next
  c ← fetch mt other
  store_word mt kk (twist_word a b c)

-- A loop over `kk`, with `rounds` rounds left.
pub twist_from : (ℕ → ℕ) → ℕ → ℕ → List ℕ → Run (List ℕ)
twist_from other zero kk mt = ok mt
twist_from other (suc rounds) kk mt = do
  mt' ← twist_at kk (kk + 1) (other kk) mt
  twist_from other rounds (kk + 1) mt'

-- The block that generates the words anew: `kk` goes from 0 to N - M, then to N - 1.
unfoldable pub regenerate : List ℕ → Run (List ℕ)
unfolding twist_from twist_at
regenerate mt = do
  mt₁ ← twist_from (λ kk. kk + 397) 227 0 mt
  mt₂ ← twist_from (λ kk. kk - 227) 396 227 mt₁
  twist_at 623 0 396 mt₂

-- The tempering of a word; `unsigned long` has 64 bits.
unfoldable pub temper : ℕ → ℕ
temper y₀ =
    let y₁ = bit_xor y₀ (y₀ / 2 ^ 11) in
    let y₂ = bit_xor y₁ (bit_and (y₁ * 2 ^ 7 % 2 ^ 64) 0x9d2c_5680) in
    let y₃ = bit_xor y₂ (bit_and (y₂ * 2 ^ 15 % 2 ^ 64) 0xefc6_0000) in bit_xor y₃ (y₃ / 2 ^ 18)

-- `if (state->mti >= N)` with its body.
unfoldable pub refill : Mt19937arState → Run Mt19937arState
unfolding regenerate init_genrand_r
refill state =
    if ltb state.mti (2 ^ 31) && leb state_words state.mti
    then (do
      seeded ← (if state.mti == state_words + 1 then init_genrand_r state 5489 else ok state)
      mt ← regenerate seeded.mt
      ok (record { mt = mt; mti = 0 }))
    else ok state

unfoldable pub genrand_int32_r : Mt19937arState → Run (ℕ × Mt19937arState)
unfolding refill temper
genrand_int32_r state = do
  full ← refill state
  y ← fetch full.mt full.mti
  ok (temper y, record full { mti = full.mti + 1 })
