-- ===== src/MapSort/Chain.antt =====
-- The list of buckets that `hashmap_sort` of helper/map.c gets and leaves: keys and values along the
-- pointers.
use nvm_tools.Base.{
  ℕ, zero, suc, ◌+◌, ◌*◌, Option, none, some, List, [], ◌∷◌, length, Run, ok, fault, ◌>>=◌, fetch,
}
use nvm_tools.MapSort.{Bucket, hashmap_sort}

-- The buckets from index `i` on, linked in order; what `ksize` and `hash` are makes no difference.
abbrev pub chained : ℕ → List (ℕ × ℕ) → List Bucket
chained i [] = []
chained i ((k, v) ∷ []) = record { next = none; key = k; ksize = 8; hash = 0; value = v } ∷ []
chained i ((k, v) ∷ b ∷ bs) =
    record { next = some (i + 1); key = k; ksize = 8; hash = 0; value = v }
    ∷ chained (i + 1) (b ∷ bs)

-- `m->first`.
abbrev pub first_of : List (ℕ × ℕ) → Option ℕ
first_of [] = none
first_of (b ∷ bs) = some 0

-- Keys and values from a pointer on, along at most as many pointers as there is fuel.
pub walked : ℕ → Option ℕ → List Bucket → Run (List (ℕ × ℕ))
walked f none heap = ok []
walked zero (some i) heap = fault
walked (suc f) (some i) heap = do
  b ← fetch heap i
  rest ← walked f b.next heap
  ok ((b.key, b.value) ∷ rest)

-- `hashmap_sort` on the buckets of a map, and the order in which it leaves them.
unfoldable pub sort_buckets : List (ℕ × ℕ) → Run (List (ℕ × ℕ))
unfolding walked hashmap_sort
sort_buckets bs = do
  heap ← hashmap_sort (4 * length bs + 4) (first_of bs) (length bs) (chained 0 bs)
  walked (length bs) (first_of bs) heap
