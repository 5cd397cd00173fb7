-- ===== src/MapSort.antt =====
-- helper/map.c, `hashmap_sort` and what it calls, with `trace_container_cmp` of helper/replay.c: the
-- merge sort of the linked buckets of the map. A pointer to a bucket is its index in a heap.
pub mod Compare
pub mod Two
pub mod Chain
use nvm_tools.Base.{
  ℕ, zero, suc, ◌-◌, ◌*◌, ◌%◌, ◌^◌, Bool, true, false, ◌&&◌, Option, none, some, List, ltb, ◌==◌,
  if◌then◌else◌, set, Run, ok, fault, ◌>>=◌, of_option, fetch, sub64,
}
use mathlib.Core.Bool.{not}

-- `struct bucket`; `key` is the block address that the pointer of that name leads to.
pub record Bucket : Type 0 where
  pub next : Option ℕ
  pub key : ℕ
  pub ksize : ℕ
  pub hash : ℕ
  pub value : ℕ

-- `trace_container_cmp(a, b) > 0`: the difference of two `unsigned long` is returned as an `int`.
unfoldable pub trace_container_cmp_gt : ℕ → ℕ → Bool
trace_container_cmp_gt a b = let d = sub64 a b % 2 ^ 32 in ltb 0 d && ltb d (2 ^ 31)

-- `p == q` on pointers.
unfoldable pub same_pointer : Option ℕ → Option ℕ → Bool
same_pointer none none = true
same_pointer none (some q) = false
same_pointer (some p) none = false
same_pointer (some p) (some q) = p == q

-- The fields but `next`, from one bucket to another.
abbrev pub move_to : Bucket → Bucket → Bucket
move_to from to = record from { next = to.next }

unfoldable pub hashmap_swap_bucket : ℕ → ℕ → List Bucket → Run (List Bucket)
hashmap_swap_bucket i j heap = do
  tmp ← fetch heap i
  b ← fetch heap j
  let heap₁ = set heap i (move_to b tmp)
  b₁ ← fetch heap₁ j
  ok (set heap₁ j (move_to tmp b₁))

-- The exchange at the start of `_hashmap_merge`.
unfoldable pub exchange : ℕ → ℕ → ℕ → ℕ → List Bucket → Run (List Bucket)
unfolding hashmap_swap_bucket trace_container_cmp_gt
exchange start1 end1 start2 end2 heap = do
  a ← fetch heap start1
  b ← fetch heap start2
  if trace_container_cmp_gt a.key b.key
      then (do heap₁ ← hashmap_swap_bucket start1 start2 heap; hashmap_swap_bucket end1 end2 heap₁)
      else ok heap

-- The test and the statements under it in the `while` loop of `_hashmap_merge`: the new `bstart`,
-- and the heap.
unfoldable pub splice : ℕ → ℕ → List Bucket → Run (Option ℕ × List Bucket)
unfolding trace_container_cmp_gt
splice astart bstart heap = do
  a ← fetch heap astart
  next ← of_option a.next
  following ← fetch heap next
  b ← fetch heap bstart
  if trace_container_cmp_gt following.key b.key
      then (do
        let heap₁ = set heap bstart (record b { next = a.next })
        a₁ ← fetch heap₁ astart
        ok (b.next, set heap₁ astart (record a₁ { next = some bstart })))
      else ok (some bstart, heap)

-- The loop: the final `astart` and `bstart`, and the heap.
pub hashmap_merge_from :
    ℕ → ℕ → Option ℕ → Option ℕ → Option ℕ → List Bucket → Run (Option ℕ × Option ℕ × List Bucket)
hashmap_merge_from zero aend bendnext astart bstart heap = fault
hashmap_merge_from (suc f) aend bendnext astart bstart heap =
    elim (not (same_pointer astart (some aend)) && not (same_pointer bstart bendnext)) [
      | false ↦ ok (astart, bstart, heap)
      | true ↦ do
        a ← of_option astart
        b ← of_option bstart
        (bstart', heap') ← splice a b heap
        moved ← fetch heap' a
        hashmap_merge_from f aend bendnext moved.next bstart' heap'
    ]

-- `_hashmap_merge`: the new `*end2`, and the heap; the other pointers stay.
unfoldable pub hashmap_merge : ℕ → ℕ → ℕ → ℕ → ℕ → List Bucket → Run (ℕ × List Bucket)
unfolding exchange hashmap_merge_from splice same_pointer
hashmap_merge f start1 end1 start2 end2 heap = do
  heap₁ ← exchange start1 end1 start2 end2 heap
  last ← fetch heap₁ end2
  (astart, bstart, heap₂) ← hashmap_merge_from f end1 last.next (some start1) (some start2) heap₁
  if same_pointer astart (some end1)
      then (do a ← fetch heap₂ end1; ok (end2, set heap₂ end1 (record a { next = bstart })))
      else ok (end1, heap₂)

-- `while (--counter && end->next) end = end->next`, with `counter` at `suc n`.
pub walk : ℕ → ℕ → List Bucket → Run ℕ
walk zero end heap = ok end
walk (suc n) end heap = do
  b ← fetch heap end
  elim b.next [ none ↦ ok end | some next ↦ walk n next heap ]

-- `prevend->next = start1`.
unfoldable pub link : Option ℕ → Option ℕ → List Bucket → Run (List Bucket)
link prevend start1 heap = do
  p ← of_option prevend
  b ← fetch heap p
  ok (set heap p (record b { next = start1 }))

-- The `while` loop of one gap, and the link behind it. `*head` stays, since `start1` does where it
-- is assigned to it.
pub merge_pass : ℕ → ℕ → ℕ → Option ℕ → Option ℕ → List Bucket → Run (List Bucket)
merge_pass zero gap head prevend start1 heap = fault
merge_pass (suc f) gap head prevend none heap = link prevend none heap
merge_pass (suc f) gap head prevend (some start1) heap = do
  end1 ← walk (gap - 1) start1 heap
  b ← fetch heap end1
  elim b.next [
    | none ↦ link prevend (some start1) heap
    | some start2 ↦ do
      end2 ← walk (gap - 1) start2 heap
      last ← fetch heap end2
      (end2', heap₁) ← hashmap_merge f start1 end1 start2 end2 heap
      heap₂ ← (if start1 == head then ok heap₁ else link prevend (some start1) heap₁)
      merge_pass f gap head (some end2') last.next heap₂
  ]

-- The `for` loop over the gaps.
pub msort_from : ℕ → ℕ → ℕ → ℕ → List Bucket → Run (List Bucket)
msort_from zero gap len head heap = fault
msort_from (suc f) gap len head heap = elim (ltb gap len) [
  | false ↦ ok heap
  | true ↦ do
    heap' ← merge_pass (suc f) gap head none (some head) heap
    msort_from f (gap * 2) len head heap'
]

-- `hashmap_sort`, for a map whose first bucket is `first`.
unfoldable pub hashmap_sort : ℕ → Option ℕ → ℕ → List Bucket → Run (List Bucket)
unfolding msort_from merge_pass hashmap_merge walk link
hashmap_sort f none count heap = ok heap
hashmap_sort f (some head) count heap = msort_from f 1 count head heap
