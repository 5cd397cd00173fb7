-- ===== src/Create.antt =====
-- helper/create_files.c: empty files with numbered names.
pub mod Laws
use nvm_tools.Base.{
  ℕ, zero, suc, ◌+◌, ◌^◌, Bool, true, false, List, [], ◌∷◌, ◌++◌, ltb, if◌then◌else◌, length, Run,
  ok, fault, ◌>>=◌,
}
use nvm_tools.Paths.{decimal}

-- `char name[1000]`.
abbrev pub name_len : ℕ
name_len = 1000

-- A string in it, with its terminating zero.
unfoldable pub fit_name : List ℕ → Run (List ℕ)
fit_name s = if ltb (length s) name_len then ok s else fault

-- `creat` and `close` on a path succeed, or fail.
module _ (creat close : List ℕ → Bool) where
  -- The loop, with `rounds` rounds left at `i`: the files that it creates. A failure ends it.
  pub create_from : List ℕ → ℕ → ℕ → Run (List (List ℕ))
  create_from base zero i = ok []
  create_from base (suc rounds) i = do
    name ← fit_name (base ++ decimal i)
    elim (creat name) [
      | false ↦ ok []
      | true ↦ elim (close name) [
        | false ↦ ok (name ∷ [])
        | true ↦ do rest ← create_from base rounds (i + 1); ok (name ∷ rest)
      ]
    ]

  -- `main` on its two arguments; the number is the 32-bit pattern of an `int`.
  unfoldable pub create_files : (List ℕ → ℕ) → List ℕ → List ℕ → Run (List (List ℕ))
  unfolding create_from fit_name
  create_files atoi base count = do
    name ← fit_name base
    create_from name (if ltb (atoi count) (2 ^ 31) then atoi count else 0) 0
