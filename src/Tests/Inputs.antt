-- ===== src/Tests/Inputs.antt =====
-- A hash map that is a list, and the parsing, gathering and options on small inputs.
use mathlib.Core.Option.{none-ne-some}
use nvm_tools.Base.{
  ℕ, ◌≡◌, refl, sym, ap, ◌≢◌, inl, inr, Bool, true, false, Option, none, some, List, [], ◌∷◌, ◌++◌,
  ◌==◌, if◌then◌else◌, length, Returns, arith, Bool-cases, ==_iff, ok, suc, ltb,
}
use nvm_tools.Trace.{TraceInfo}
use nvm_tools.Build.{LbaMap, IsLbaMap, build_trace_containers}
use nvm_tools.Build.Laws.{Gathers, build_trace_containers_lem}
use nvm_tools.MapSort.{Bucket, hashmap_sort, trace_container_cmp_gt}
use nvm_tools.MapSort.Compare.{trace_container_cmp_gt_lem, trace_container_cmp_gt-wraps}
use nvm_tools.MapSort.Chain.{sort_buckets}
use nvm_tools.MapSort.Two.{hashmap_sort_two}
use nvm_tools.Parse.{Strings, TraceFormat, FiuLine, HitszLine}
use nvm_tools.Options.{Opt, opt_f, opt_d, opt_o, opt_v, main_options}
use nvm_tools.Options.Laws.{Ends, IsConfigured, main_options_lem}
use nvm_tools.Tests.Data.{info, three}

-- Lookup in a list of keys and values, and a change of the value or a new key behind all.
abbrev pub lookup : List (ℕ × ℕ) → ℕ → Option ℕ
lookup [] k = none
lookup ((l, v) ∷ m) k = if l == k then some v else lookup m k

abbrev pub put : List (ℕ × ℕ) → ℕ → ℕ → List (ℕ × ℕ)
put [] k v = (k, v) ∷ []
put ((l, w) ∷ m) k v = if l == k then (k, v) ∷ m else (l, w) ∷ put m k v

abbrev pub list_map : LbaMap
list_map = record {
  Map = List (ℕ × ℕ);
  hashmap_create = [];
  hashmap_get = lookup;
  hashmap_set = put;
  buckets = λ m. m;
}

lookup-put_same : (m : List (ℕ × ℕ)) (k v : ℕ) → lookup (put m k v) k ≡ some v
lookup-put_same [] k v = rw ((==_iff k k).1 refl)
lookup-put_same ((l, w) ∷ m) k v = elim (Bool-cases (l == k)) [
  | inl own ↦ rw own (rw ((==_iff k k).1 refl))
  | inr other ↦ rw other (rw other (lookup-put_same m k v))
]

lookup-put_other : (m : List (ℕ × ℕ)) (k v j : ℕ) → j ≢ k → lookup (put m k v) j ≡ lookup m j
lookup-put_other [] k v j ne = let no_key : (k == j) ≡ false = ground arith in rw no_key
lookup-put_other ((l, w) ∷ m) k v j ne = elim (Bool-cases (l == k)) [
  | inl own ↦
      let e = (==_iff l k).0 own in
      let no_key : (k == j) ≡ false = ground arith in rw own (rw e (rw no_key))
  | inr other ↦ rw other (ap (λ r. if l == j then some w else r) (lookup-put_other m k v j ne))
]

put-new : (m : List (ℕ × ℕ)) (k v : ℕ) → lookup m k ≡ none → put m k v ≡ m ++ (k, v) ∷ []
put-new [] k v e = refl
put-new ((l, w) ∷ m) k v e = elim (Bool-cases (l == k)) [
  | inl own ↦ absurd (none-ne-some _ (sym (rw own at e)))
  | inr other ↦ rw other (ap (◌∷◌ (l, w)) (put-new m k v (rw other at e)))
]

pub list_map-IsLbaMap : IsLbaMap list_map
list_map-IsLbaMap = record {
  get-create = λ k. refl;
  get-set_same = lookup-put_same;
  get-set_other = lookup-put_other;
  buckets-create = refl;
  buckets-set = put-new;
}

abbrev granted : ℕ → Bool
granted n = true

build_trace_containers_example :
    Returns (build_trace_containers list_map granted three 3) (Gathers list_map three)
build_trace_containers_example =
    build_trace_containers_lem list_map list_map-IsLbaMap granted (λ n. refl) three 3 refl
      (omega arith)

-- A line is read as its first character: `W` or `R` is a record of that access.
abbrev scan_fiu : List ℕ → Option FiuLine
scan_fiu [] = none
scan_fiu (c ∷ line) =
    some (record { ts = 1; pid = 2; lba = 8; blks = 8; rw = c; major = 0; minor = 0 })

-- What is behind the first character is the digest.
abbrev strings : TraceFormat → List ℕ → Strings
strings format [] = record { pname = []; md5 = [] }
strings format (c ∷ line) = record { pname = []; md5 = line }

abbrev scan_hitsz : List ℕ → Option HitszLine
scan_hitsz line = none

abbrev memory : ℕ → TraceInfo
memory i = info 0 0

abbrev lines : List (List ℕ)
lines = (b'W' ∷ b'a' ∷ 10 ∷ []) ∷ (b'R' ∷ b'b' ∷ 10 ∷ []) ∷ (10 ∷ []) ∷ []

abbrev opts : List Opt
opts = opt_f (b't' ∷ []) ∷ opt_d (b'/' ∷ b'm' ∷ []) ∷ opt_o (b'r' ∷ b'w' ∷ []) ∷ opt_v ∷ []

abbrev atoi : List ℕ → ℕ
atoi s = length s

abbrev fopens : List ℕ → Bool
fopens s = true

main_options_example : Ends (main_options atoi fopens opts) IsConfigured
main_options_example =
    main_options_lem atoi fopens opts
      (
        (omega arith, omega arith),
        ((omega arith, omega arith), ((omega arith, omega arith), (tt, tt))),
      )
      refl

abbrev bucket : ℕ → Bucket
bucket key = record { next = none; key = key; ksize = 8; hash = 1; value = key }

hashmap_sort_two_example :
    hashmap_sort
      (suc (suc 0))
      (some 0)
      2
      (record (bucket 16) { next = some 1 } ∷ record (bucket 8) { next = none } ∷ [])
    ≡ ok (record (bucket 16) { next = some 1 } ∷ record (bucket 8) { next = none } ∷ [])
hashmap_sort_two_example = hashmap_sort_two (bucket 16) (bucket 8) 0

trace_container_cmp_gt_example : trace_container_cmp_gt 800 16 ≡ ltb 16 800
trace_container_cmp_gt_example =
    trace_container_cmp_gt_lem 800 16 (omega arith) (omega arith) (omega arith) (omega arith)

trace_container_cmp_gt_wraps_example : trace_container_cmp_gt 3000000000 8 ≡ false
trace_container_cmp_gt_wraps_example =
    trace_container_cmp_gt-wraps 3000000000 8 (omega arith) (omega arith) (omega arith)

-- Five buckets, whose addresses come as 3, 4, 5, 1, 2, are kept and not sorted.
five_buckets :
    sort_buckets ((3, 0) ∷ (4, 1) ∷ (5, 2) ∷ (1, 3) ∷ (2, 4) ∷ [])
    ≡ ok ((2, 4) ∷ (1, 3) ∷ (4, 1) ∷ (5, 2) ∷ (3, 0) ∷ [])
unfolding sort_buckets
five_buckets = refl
