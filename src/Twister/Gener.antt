-- ===== src/Twister/Gener.antt =====
-- The wrappers of helper/replay.c around the twister, as a generator whose state is whole.
use mathlib.Core.Bool.{true≢false}
use nvm_tools.Base.{
  ℕ, ◌%◌, ◌^◌, ◌≡◌, refl, sym, ◌∙◌, inl, inr, ◌⊎◌, false, Bool, true, some, length, Run, ok, fault,
  Returns, ltb, ltb→lt, lt→ltb, arith, Bool-cases,
}
use nvm_tools.Fill.{RandGener}
use nvm_tools.Fill.Content.{IsReseeding}
use nvm_tools.Twister.{Mt19937arState, state_words, init_genrand_r}
use nvm_tools.Twister.Seed.{seeded, length-seeded, init_genrand_r_lem}
use nvm_tools.Twister.Draw.{genrand_int32_r_lem}

-- `ctx` points to a state of 624 words.
pub record MtContext : Type 0 where
  pub state : Mt19937arState
  pub whole : length state.mt ≡ state_words

-- `init_genrand_r(ctx, s)`, which ends in a whole state.
unfoldable pub seed_run :
    (ctx : MtContext) (s : ℕ)
    → Returns (init_genrand_r ctx.state s) (λ t. length t.mt ≡ state_words)
seed_run ctx s = (seeded s, init_genrand_r_lem ctx.state s ctx.whole, length-seeded s)

unfoldable pub mt19937ar_seed_wrapper : MtContext → ℕ → MtContext
unfolding seed_run
mt19937ar_seed_wrapper ctx s =
    let (t, run, whole) = seed_run ctx (s % 2 ^ 32) in record { state = t; whole = whole }

-- The index is not negative.
abbrev is_indexed : MtContext → Bool
is_indexed ctx = ltb ctx.state.mti (2 ^ 31)

-- `genrand_int32_r(ctx)`, converted to `int32_t`: its 32-bit pattern. An index that is negative is
-- before the array.
draw_at :
    (ctx : MtContext) → (is_indexed ctx ≡ true) ⊎ (is_indexed ctx ≡ false) → Run (ℕ × MtContext)
draw_at ctx (inr negative) = fault
draw_at ctx (inl low) =
    let (r, run, post) =
      genrand_int32_r_lem ctx.state ctx.whole (ltb→lt ctx.state.mti (2 ^ 31) low) in
    ok (r.0 % 2 ^ 32, record { state = r.1; whole = post.0 })

unfoldable pub mt19937ar_gen_wrapper : MtContext → Run (ℕ × MtContext)
unfolding draw_at
mt19937ar_gen_wrapper ctx = draw_at ctx (Bool-cases (is_indexed ctx))

abbrev pub mt19937ar_gener : RandGener
mt19937ar_gener = record {
  Ctx = MtContext;
  fedseed = mt19937ar_seed_wrapper;
  genrandom = some mt19937ar_gen_wrapper;
}

draw_at-Returns :
    (ctx : MtContext) (c : (is_indexed ctx ≡ true) ⊎ (is_indexed ctx ≡ false))
    → is_indexed ctx ≡ true
    → Returns (draw_at ctx c) (λ r. is_indexed r.1 ≡ true)
unfolding draw_at
draw_at-Returns ctx (inr negative) e = absurd (true≢false (sym e ∙ negative))
draw_at-Returns ctx (inl low) e =
    let (r, run, post) =
      genrand_int32_r_lem ctx.state ctx.whole (ltb→lt ctx.state.mti (2 ^ 31) low) in
    (
      (r.0 % 2 ^ 32, record { state = r.1; whole = post.0 }),
      refl,
      lt→ltb r.1.mti (2 ^ 31) (omega (arith, post.1)),
    )

pub mt19937ar_gener-IsReseeding : IsReseeding mt19937ar_gener
unfolding mt19937ar_gen_wrapper mt19937ar_seed_wrapper seed_run seeded
mt19937ar_gener-IsReseeding = record {
  forgets = λ c c' s. refl;
  draws = (is_indexed, λ c s. refl, λ c e. draw_at-Returns c (Bool-cases (is_indexed c)) e);
}
