-- ===== src/Sort/Quick.antt =====
-- helper/replay.c: the quick sort by time stamp that `trace_container_sort_infomap_by_ts` has in a
-- comment in front of its merge sort.
pub mod Partition
pub mod Pivot
pub mod Whole
use nvm_tools.Base.{
  ℕ, zero, suc, ◌+◌, ◌-◌, ◌%◌, ◌^◌, true, false, List, ltb, leb, ◌==◌, if◌then◌else◌, length, set,
  Run, ok, fault, ◌>>=◌, fetch,
}
use nvm_tools.Trace.{TraceInfo}

-- The exchange of two slots, unless they are one.
unfoldable pub exchange_slots : ℕ → ℕ → List TraceInfo → Run (List TraceInfo)
exchange_slots i low_index a =
    if i == low_index
    then ok a
    else (do tmp ← fetch a i; other ← fetch a low_index; ok (set (set a i other) low_index tmp))

-- The `for` loop of `_partition_by_ts`, from `i` on: the final `low_index`, and the array.
pub partition_from : ℕ → TraceInfo → ℕ → ℕ → ℕ → List TraceInfo → Run (ℕ × List TraceInfo)
partition_from zero pivot high low_index i a = fault
partition_from (suc f) pivot high low_index i a = elim (leb i high) [
  | false ↦ ok (low_index, a)
  | true ↦ do
    x ← fetch a i
    elim (ltb x.ts pivot.ts) [
      | false ↦ partition_from f pivot high low_index ((i + 1) % 2 ^ 64) a
      | true ↦ do
        a' ← exchange_slots i ((low_index + 1) % 2 ^ 64) a
        partition_from f pivot high ((low_index + 1) % 2 ^ 64) ((i + 1) % 2 ^ 64) a'
    ]
]

-- The loop makes a round for each slot behind `low`, and one test more.
unfoldable pub partition_by_ts : List TraceInfo → ℕ → ℕ → Run (ℕ × List TraceInfo)
unfolding partition_from exchange_slots
partition_by_ts a low high = do
  pivot ← fetch a low
  (low_index, a₁) ← partition_from (length a) pivot high low ((low + 1) % 2 ^ 64) a
  x ← fetch a₁ low_index
  ok (low_index, set (set a₁ low x) low_index pivot)

unfoldable pub infomap_qsort_by_ts : ℕ → List TraceInfo → ℕ → ℕ → Run (List TraceInfo)
infomap_qsort_by_ts zero a low high = fault
infomap_qsort_by_ts (suc f) a low high = elim (ltb low high) [
  | false ↦ ok a
  | true ↦ do
    (pivot, a₁) ← partition_by_ts a low high
    a₂ ← elim (ltb 0 pivot) [ false ↦ ok a₁ | true ↦ infomap_qsort_by_ts f a₁ low (pivot - 1) ]
    infomap_qsort_by_ts f a₂ ((pivot + 1) % 2 ^ 64) high
]
