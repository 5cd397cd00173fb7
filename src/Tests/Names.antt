-- ===== src/Tests/Names.antt =====
-- The twister, the names of files and the generators of `-g`.
use nvm_tools.Base.{
  ℕ, ◌^◌, ◌≤◌, ◌≡◌, refl, ◌≢◌, List, [], ◌∷◌, ◌++◌, length, replicate, ok, Returns, arith,
}
use nvm_tools.Paths.{decimal, trace_name, dstfilepath}
use nvm_tools.Paths.Laws.{value, value-decimal, dstfilepath-distinct, dstfilepath-Returns}
use nvm_tools.Twister.{Mt19937arState, state_words, genrand_int32_r}
use nvm_tools.Twister.Seed.{seeded, length-seeded}
use nvm_tools.Twister.Draw.{genrand_int32_r_lem}

abbrev blank : Mt19937arState
blank = record { mt = replicate 624 0; mti = 0 }

genrand_int32_r_example :
    Returns
      (genrand_int32_r (seeded 2333))
      (λ r. (length r.1.mt ≡ state_words) × (r.1.mti ≤ state_words))
unfolding seeded
genrand_int32_r_example = genrand_int32_r_lem (seeded 2333) (length-seeded 2333) (omega arith)

value_decimal_example : value 0 (decimal (2 ^ 63)) ≡ 2 ^ 63
value_decimal_example = value-decimal (2 ^ 63) (omega arith)

-- `/d/`.
abbrev directory : List ℕ
directory = b'/' ∷ b'd' ∷ b'/' ∷ []

trace_17 :
    dstfilepath directory 17
    ≡ ok (directory ++ b't' ∷ b'r' ∷ b'a' ∷ b'c' ∷ b'e' ∷ b'_' ∷ b'1' ∷ b'7' ∷ [])
unfolding dstfilepath decimal
trace_17 = refl

dstfilepath_distinct_example : directory ++ trace_name 17 ≢ directory ++ trace_name 18
dstfilepath_distinct_example =
    dstfilepath-distinct directory 17 18 (directory ++ trace_name 17) (directory ++ trace_name 18)
      (omega arith) (omega arith) (omega arith) (dstfilepath-Returns directory 17 (omega arith))
      (dstfilepath-Returns directory 18 (omega arith))

dstfilepath_returns_example : dstfilepath directory 511 ≡ ok (directory ++ trace_name 511)
dstfilepath_returns_example = dstfilepath-Returns directory 511 (omega arith)
