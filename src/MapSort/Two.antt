-- ===== src/MapSort/Two.antt =====
-- `hashmap_sort` of helper/map.c on two buckets, the smallest map that it could sort.
use nvm_tools.Base.{
  ℕ, suc, ◌≡◌, refl, ap, inl, inr, none, some, List, [], ◌∷◌, ok, ◌>>=◌, Bool-cases,
}
use nvm_tools.MapSort.{
  Bucket, trace_container_cmp_gt, same_pointer, hashmap_swap_bucket, exchange, hashmap_merge_from,
  hashmap_merge, walk, link, merge_pass, msort_from, hashmap_sort,
}

-- The two buckets, linked.
abbrev pub linked : Bucket → Bucket → List Bucket
linked x y = record x { next = some 1 } ∷ record y { next = none } ∷ []

exchange_two : (x y : Bucket) → exchange 0 0 1 1 (linked x y) ≡ ok (linked x y)
unfolding exchange hashmap_swap_bucket
exchange_two x y = elim (Bool-cases (trace_container_cmp_gt x.key y.key)) [
  | inl more ↦ rw more
  | inr less ↦ rw less
]

hashmap_merge_two :
    (x y : Bucket) (f : ℕ) → hashmap_merge (suc f) 0 0 1 1 (linked x y) ≡ ok (1, linked x y)
unfolding hashmap_merge hashmap_merge_from same_pointer
hashmap_merge_two x y f = rw (exchange_two x y) refl

merge_pass_two :
    (x y : Bucket) (f : ℕ)
    → merge_pass (suc (suc f)) 1 0 none (some 0) (linked x y) ≡ ok (linked x y)
unfolding merge_pass walk link
merge_pass_two x y f =
    ap (λ r. r >>= λ (m : ℕ × List Bucket). merge_pass (suc f) 1 0 (some m.0) none m.1)
      (hashmap_merge_two x y f)

-- `hashmap_sort` of a map of two buckets ends, with fuel from 2 on, and leaves every field of them
-- and their order as they are, whatever their block addresses: two addresses that were added in
-- descending order stay so.
pub hashmap_sort_two :
    (x y : Bucket) (f : ℕ) → hashmap_sort (suc (suc f)) (some 0) 2 (linked x y) ≡ ok (linked x y)
unfolding hashmap_sort msort_from
hashmap_sort_two x y f =
    ap (λ r. r >>= λ heap. msort_from (suc f) 2 2 0 heap) (merge_pass_two x y f)
