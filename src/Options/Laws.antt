-- ===== src/Options/Laws.antt =====
-- The options of `main` in helper/replay.c, with arguments that fit the arrays.

use nvm_tools.Base.{
  ℕ, ◌<◌, ◌≡◌, ◌∙◌, ◌||◌, refl, ap, ◌⊎◌, inl, inr, Bool, true, false, List, [], ◌∷◌, ◌++◌, ◌==◌,
  length, length-append, All, Run, ok, exit, ◌>>=◌, Returns, arith, Bool-cases, ==_iff, lt→ltb, sym,
  subst, if◌then◌else◌, fault,
}
use nvm_tools.Options.{
  Config, initial, Opt, opt_f, opt_d, opt_o, opt_g, opt_c, opt_t, opt_m, opt_r, opt_v, opt_h,
  opt_bad, max_name_len, slash, same, copy, last_char, set_directory, named, modes, geners, formats,
  too_many, set_option, set_options, check_config, main_options,
}

-- The run does not fault: it exits, or ends in a value that satisfies `P`.
abbrev pub Ends {ℓ κ} : {A : Type ℓ} → Run A → (A → Type κ) → Type (ℓ ⊔ κ)
Ends r P = ((n : ℕ) × (r ≡ exit n)) ⊎ Returns r P

-- The path ends in a slash, and its array holds it.
pub record IsDirectory (path : List ℕ) : Type 0 where
  pub body : List ℕ
  pub ends : path ≡ body ++ slash ∷ []
  pub fits : length path < max_name_len

abbrev IsDumpDirectory : Bool → List ℕ → Type 0
IsDumpDirectory false path = Unit
IsDumpDirectory true path = IsDirectory path

-- An argument of an option is not empty, and leaves room for a slash.
abbrev IsShort : List ℕ → Type 0
IsShort s = (0 < length s) × (length s < 255)

abbrev pub IsArgument : Opt → Type 0
IsArgument (opt_f s) = IsShort s
IsArgument (opt_d s) = IsShort s
IsArgument (opt_o s) = IsShort s
IsArgument (opt_g s) = IsShort s
IsArgument (opt_c s) = Unit
IsArgument (opt_t s) = Unit
IsArgument (opt_m s) = IsShort s
IsArgument (opt_r s) = IsShort s
IsArgument opt_v = Unit
IsArgument opt_h = Unit
IsArgument opt_bad = Unit

-- Whether the program is verbose behind an option, and whether `-r` comes when it is.
abbrev next_verbose : Bool → Opt → Bool
next_verbose v opt_v = true
next_verbose v _ = v

abbrev prints : Bool → Opt → Bool
prints v (opt_r s) = v
prints v _ = false

abbrev pub dumps_verbosely : Bool → List Opt → Bool
dumps_verbosely v [] = false
dumps_verbosely v (o ∷ opts) = prints v o || dumps_verbosely (next_verbose v o) opts

-- While the options are read, `dstpath` is empty or a directory.
record IsSetSoFar (v : Bool) (c : Config) : Type 0 where
  dst : (c.dstpath ≡ []) ⊎ IsDirectory c.dstpath
  dump : IsDumpDirectory c.is_dump_read c.dump_read_path
  verbose : c.verbose ≡ v

-- What the program goes on with.
pub record IsConfigured (c : Config) : Type 0 where
  pub file : 0 < length c.filepath
  pub dst : IsDirectory c.dstpath
  pub dump : IsDumpDirectory c.is_dump_read c.dump_read_path
  pub few_threads : too_many c.threads ≡ false

copy_lem : (s : List ℕ) → length s < 256 → copy s ≡ ok s
unfolding copy
copy_lem s h = rw (lt→ltb (length s) 256 h)

last_char_lem :
    (s : List ℕ) → 0 < length s → Returns (last_char s) (λ c. (b : List ℕ) × (s ≡ b ++ c ∷ []))
unfolding last_char
last_char_lem [] h = absurd (omega arith)
last_char_lem (c ∷ []) h = (c, refl, ([], refl))
last_char_lem (c ∷ d ∷ s) h =
    let (e, run, (b, q)) = last_char_lem (d ∷ s) (omega arith) in (e, run, (c ∷ b, ap (◌∷◌ c) q))

set_directory_lem : (s : List ℕ) → IsShort s → Returns (set_directory s) IsDirectory
unfolding set_directory
set_directory_lem s h =
    let (c, run, (b, e)) = last_char_lem s h.0 in
    elim (Bool-cases (c == slash)) [
      | inl yes_slash ↦
          let is_slash : c ≡ slash = (==_iff c slash).0 yes_slash in
          (
            s,
            rw (copy_lem s (omega arith)) (rw run (rw yes_slash)),
            record { body = b; ends = rw (← is_slash) e; fits = omega arith },
          )
      | inr no_slash ↦
          let long = length-append s (slash ∷ []) in
          (
            s ++ slash ∷ [],
            rw (copy_lem s (omega arith))
                (rw run (rw no_slash (copy_lem (s ++ slash ∷ []) (omega arith)))),
            record { body = s; ends = refl; fits = omega arith },
          )
    ]

-- A chain of tests gives a value or ends by `exit`.
named_lem {ℓ} :
    {A : Type ℓ} (names : List (List ℕ × A)) (s : List ℕ) → Ends (named names s) (λ _. Unit {0})
unfolding named
named_lem [] s = inl (255, refl)
named_lem ((name, a) ∷ names) s = elim (Bool-cases (same s name)) [
  | inl here ↦ inr (a, rw here, tt)
  | inr other ↦ rw other (named_lem names s)
]

-- A value that is stored in the configuration.
Ends_store {ℓ κ ρ} :
    {A : Type ℓ} {B : Type κ} (P : A → Type ρ) (Q : B → Type ρ) (r : Run A) (f : A → B)
    → Ends r P
    → ((a : A) → P a → Q (f a))
    → Ends (r >>= λ a. ok (f a)) Q
Ends_store P Q r f (inl (n, e)) g = inl (n, rw e)
Ends_store P Q r f (inr (a, e, p)) g = inr (f a, rw e, g a p)

neither : (a b : Bool) → (a || b) ≡ false → (a ≡ false) × (b ≡ false)
neither a b h = (ground arith, ground arith)

quiet_dump :
    (atoi : List ℕ → ℕ) (s : List ℕ) (c : Config)
    → c.verbose ≡ false
    → set_option atoi (opt_r s) c
      ≡ (set_directory s >>= λ path. ok (record c { is_dump_read = true; dump_read_path = path }))
unfolding set_option
quiet_dump atoi s c e =
    ap
      (λ b. set_directory s >>= λ path.
        if b then fault else ok (record c { is_dump_read = true; dump_read_path = path }))
      e

set_option_lem :
    (atoi : List ℕ → ℕ) (o : Opt) (v : Bool) (c : Config)
    → IsArgument o
    → prints v o ≡ false
    → IsSetSoFar v c
    → Ends (set_option atoi o c) (IsSetSoFar (next_verbose v o))
unfolding set_option
set_option_lem atoi (opt_f s) v c a p k = inr (
  record c { filepath = s },
  rw (copy_lem s (omega (arith, a.1))),
  record { dst = k.dst; dump = k.dump; verbose = k.verbose },
)
set_option_lem atoi (opt_d s) v c a p k =
    Ends_store IsDirectory (IsSetSoFar v) (set_directory s) (λ p. record c { dstpath = p })
      (inr (set_directory_lem s a))
      (λ p d. record { dst = inr d; dump = k.dump; verbose = k.verbose })
set_option_lem atoi (opt_o s) v c a p k = rw (copy_lem s (omega (arith, a.1))) (
    Ends_store (λ _. Unit) (IsSetSoFar v) (named modes s) (λ m. record c { mode = m })
      (named_lem modes s) (λ m t. record { dst = k.dst; dump = k.dump; verbose = k.verbose }))
set_option_lem atoi (opt_g s) v c a p k = rw (copy_lem s (omega (arith, a.1))) (
    Ends_store (λ _. Unit) (IsSetSoFar v) (named geners s) (λ g. record c { rand_gener_type = g })
      (named_lem geners s) (λ m t. record { dst = k.dst; dump = k.dump; verbose = k.verbose }))
set_option_lem atoi (opt_c s) v c a p k =
    inr (_, refl, record { dst = k.dst; dump = k.dump; verbose = k.verbose })
set_option_lem atoi (opt_t s) v c a p k =
    inr (_, refl, record { dst = k.dst; dump = k.dump; verbose = k.verbose })
set_option_lem atoi (opt_m s) v c a p k = rw (copy_lem s (omega (arith, a.1))) (
    Ends_store (λ _. Unit) (IsSetSoFar v) (named formats s)
      (λ f. record c { trace_format_type = f }) (named_lem formats s)
      (λ m t. record { dst = k.dst; dump = k.dump; verbose = k.verbose }))
set_option_lem atoi (opt_r s) v c a p k =
    subst (λ r. Ends r (IsSetSoFar v)) (sym (quiet_dump atoi s c (k.verbose ∙ p)))
      (Ends_store IsDirectory (IsSetSoFar v) (set_directory s)
        (λ path. record c { is_dump_read = true; dump_read_path = path })
        (inr (set_directory_lem s a))
        (λ path d. record { dst = k.dst; dump = d; verbose = k.verbose }))
set_option_lem atoi opt_v v c a p k =
    inr (_, refl, record { dst = k.dst; dump = k.dump; verbose = refl })
set_option_lem atoi opt_h v c a p k = inl (1, refl)
set_option_lem atoi opt_bad v c a p k = inl (1, refl)

set_options_lem :
    (atoi : List ℕ → ℕ) (opts : List Opt) (v : Bool) (c : Config)
    → All IsArgument opts
    → dumps_verbosely v opts ≡ false
    → IsSetSoFar v c
    → Ends (set_options atoi opts c) (λ d. (w : Bool) × IsSetSoFar w d)
unfolding set_options
set_options_lem atoi [] v c a p k = inr (c, refl, (v, k))
set_options_lem atoi (o ∷ opts) v c a p k =
    let (now, later) = neither (prints v o) (dumps_verbosely (next_verbose v o) opts) p in
    elim (set_option_lem atoi o v c a.0 now k) [
      | inl e ↦ inl (e.0, rw e.1)
      | inr r ↦ rw r.1 (set_options_lem atoi opts (next_verbose v o) r.0 a.1 later r.2)
    ]

check_config_lem :
    (fopens : List ℕ → Bool) (v : Bool) (c : Config)
    → IsSetSoFar v c
    → Ends (check_config fopens c) IsConfigured
unfolding check_config
check_config_lem fopens v c k = elim (Bool-cases (length c.filepath == 0)) [
  | inl missing ↦ inl (1, rw missing)
  | inr file ↦ elim k.dst [
    | inl e ↦ inl (1, rw file (rw e))
    | inr d ↦
        let dst : (length c.dstpath == 0) ≡ false =
          ground (arith, ap length d.ends, length-append d.body (slash ∷ [])) in
        elim (Bool-cases (fopens c.filepath)) [
          | inr closed ↦ inl (1, rw file (rw dst (rw closed)))
          | inl opens ↦ elim (Bool-cases (too_many c.threads)) [
            | inl many ↦ inl (1, rw file (rw dst (rw opens (rw many))))
            | inr few ↦ inr (
              c,
              rw file (rw dst (rw opens (rw few))),
              record { file = ground arith; dst = d; dump = k.dump; few_threads = few },
            )
          ]
        ]
  ]
]

-- If the string arguments of the options are not empty and shorter than 255 characters, `main`
-- either exits or goes on with a trace file, a destination directory that ends in a slash and fits
-- its array, likewise a dump directory if reads are dumped, and at most 512 threads, as long as
-- `-r` does not follow `-v`.
pub main_options_lem :
    (atoi : List ℕ → ℕ) (fopens : List ℕ → Bool) (opts : List Opt)
    → All IsArgument opts
    → dumps_verbosely false opts ≡ false
    → Ends (main_options atoi fopens opts) IsConfigured
unfolding main_options
main_options_lem atoi fopens opts a p =
    let start : IsSetSoFar false initial = record { dst = inl refl; dump = tt; verbose = refl } in
    elim (set_options_lem atoi opts false initial a p start) [
      | inl e ↦ inl (e.0, rw e.1)
      | inr r ↦ rw r.1 (check_config_lem fopens r.2.0 r.0 r.2.1)
    ]
