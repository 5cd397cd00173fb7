-- ===== src/Sort.antt =====
-- helper/replay.c: the merge sort of a container by time stamp. A `while` loop takes fuel, and a
-- run with too little is a `fault`.
pub mod Interleave
pub mod Merge
pub mod Quick
pub mod Whole
use nvm_tools.Base.{
  ℕ, zero, suc, ◌+◌, ◌*◌, ◌/◌, ◌%◌, ◌^◌, true, false, ◌&&◌, List, [], ◌∷◌, ◌++◌, ltb, leb,
  if◌then◌else◌, length, set, Run, ok, fault, ◌>>=◌, fetch, sub64,
}
use nvm_tools.Trace.{TraceInfo}
use nvm_tools.Trace.Container.{TraceContainer}

-- `temp[k++] = x`, where `temp` has room for `cap` pointers and `k` of them are written.
unfoldable pub push : ℕ → List TraceInfo → TraceInfo → Run (List TraceInfo)
push cap temp x = if ltb (length temp) cap then ok (temp ++ x ∷ []) else fault

-- `while(i <= j && m <= n)`: the final `i`, `m` and what `temp` holds.
pub merge_both :
    ℕ → ℕ → List TraceInfo → ℕ → ℕ → ℕ → ℕ → List TraceInfo → Run (ℕ × ℕ × List TraceInfo)
merge_both zero cap a i j m n temp = fault
merge_both (suc f) cap a i j m n temp = elim (leb i j && leb m n) [
  | false ↦ ok (i, m, temp)
  | true ↦ do
    x ← fetch a i
    y ← fetch a m
    elim (leb x.ts y.ts) [
      | true ↦ do temp' ← push cap temp x; merge_both f cap a (i + 1) j m n temp'
      | false ↦ do temp' ← push cap temp y; merge_both f cap a i j (m + 1) n temp'
    ]
]

-- `while(i <= j)`, and likewise `while(m <= n)`.
pub drain : ℕ → ℕ → List TraceInfo → ℕ → ℕ → List TraceInfo → Run (List TraceInfo)
drain zero cap a i j temp = fault
drain (suc f) cap a i j temp = elim (leb i j) [
  | false ↦ ok temp
  | true ↦ do x ← fetch a i; temp' ← push cap temp x; drain f cap a (i + 1) j temp'
]

-- `for(i = 0; i < k; i++) infos_map[begin + i] = temp[i]`, from the slot `at` on.
pub write_back : List TraceInfo → ℕ → List TraceInfo → Run (List TraceInfo)
write_back a at [] = ok a
write_back a at (t ∷ ts) = if ltb at (length a) then write_back (set a at t) (at + 1) ts else fault

-- The three loops that fill `temp`. Each round reads a further slot on one of two sides, so twice
-- the length of the array bounds the rounds.
abbrev pub fill_temp :
    ℕ → ℕ → List TraceInfo → ℕ → ℕ → ℕ → ℕ → List TraceInfo → Run (List TraceInfo)
fill_temp f cap a i j m n temp = do
  (i', m', temp₁) ← merge_both f cap a i j m n temp
  temp₂ ← drain f cap a i' j temp₁
  drain f cap a m' n temp₂

unfoldable pub merge_array_by_ts : ℕ → List TraceInfo → ℕ → ℕ → ℕ → Run (List TraceInfo)
unfolding merge_both drain write_back push
merge_array_by_ts cap a begin mid end = do
  temp ← fill_temp (2 * length a + 1) cap a begin mid (mid + 1) end []
  write_back a begin temp

-- `mid` is computed on `unsigned long`.
pub infomap_msort_by_ts : ℕ → ℕ → List TraceInfo → ℕ → ℕ → Run (List TraceInfo)
infomap_msort_by_ts zero cap a begin end = fault
infomap_msort_by_ts (suc f) cap a begin end = elim (ltb begin end) [
  | false ↦ ok a
  | true ↦ do
    let mid = (begin + end) % 2 ^ 64 / 2
    a₁ ← infomap_msort_by_ts f cap a begin mid
    a₂ ← infomap_msort_by_ts f cap a₁ (mid + 1) end
    merge_array_by_ts cap a₂ begin mid end
]

-- The depth of the recursion on 64-bit bounds: each call halves the range.
abbrev pub msort_depth : ℕ
msort_depth = 65

-- The `int` expression `tc->size - 1` is converted to `unsigned long`.
unfoldable pub trace_container_sort_infomap_by_ts : TraceContainer → Run TraceContainer
unfolding infomap_msort_by_ts merge_array_by_ts
trace_container_sort_infomap_by_ts tc = do
  sorted ← infomap_msort_by_ts msort_depth tc.size tc.infos_map 0 (sub64 tc.size 1)
  ok (record tc { infos_map = sorted })
