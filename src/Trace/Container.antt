-- ===== src/Trace/Container.antt =====
-- helper/replay.c: `struct trace_container` and its operations. The array is modelled by the
-- slots that have been written, in order; the other slots of the allocation hold no pointer.
pub mod Laws
use nvm_tools.Base.{
  ℕ, zero, suc, ◌+◌, ◌*◌, ◌^◌, ◌<◌, ◌≤◌, ◌≡◌, Bool, List, [], ◌∷◌, ◌++◌, ltb, ◌==◌, if◌then◌else◌,
  length, set, Run, ok, exit, fault, ◌>>=◌, fetch,
}
use nvm_tools.Trace.{TraceInfo}

pub record TraceContainer : Type 0 where
  pub infos_map : List TraceInfo
  pub meta : ℕ
  pub size : ℕ
  pub capacity : ℕ

-- `DEFAULT_COLLECTIONS_CAPACITY`.
abbrev pub default_collections_capacity : ℕ
default_collections_capacity = 64

-- Both `malloc` calls are taken to succeed: the code does not look at their results.
unfoldable pub trace_container_create : ℕ → ℕ → TraceContainer
trace_container_create capacity meta = record {
  infos_map = [];
  meta = meta;
  size = 0;
  capacity = capacity;
}

-- A store to slot `i` of an array of `capacity` slots.
unfoldable pub store_slot : ℕ → List TraceInfo → ℕ → TraceInfo → Run (List TraceInfo)
store_slot capacity slots i info =
    if ltb i capacity
    then if ltb i (length slots)
      then ok (set slots i info)
      else if i == length slots
      then ok (slots ++ info ∷ [])
      else fault
    else fault

-- The branch on a full array. `realloc n` says whether an allocation of `n` slots succeeds; a
-- doubled `int` past 2 ^ 31 - 1 is undefined.
unfoldable pub grow : (ℕ → Bool) → TraceContainer → Run TraceContainer
grow realloc tc =
    if tc.size == tc.capacity
    then if ltb (tc.capacity * 2) (2 ^ 31)
      then if realloc (tc.capacity * 2)
        then ok (record tc { capacity = tc.capacity * 2 })
        else exit 1
      else fault
    else ok tc

unfoldable pub trace_container_add : (ℕ → Bool) → TraceContainer → TraceInfo → Run TraceContainer
unfolding grow store_slot
trace_container_add realloc tc info = do
  tc' ← grow realloc tc
  slots ← store_slot tc'.capacity tc'.infos_map tc'.size info
  ok (record tc' { infos_map = slots; size = tc'.size + 1 })

-- The loop of `trace_container_add_collection`, with `rounds` rounds left.
pub add_from : (ℕ → Bool) → ℕ → ℕ → TraceContainer → TraceContainer → Run TraceContainer
add_from realloc zero i tc tc2 = ok tc
add_from realloc (suc rounds) i tc tc2 = do
  info ← fetch tc2.infos_map i
  tc' ← trace_container_add realloc tc info
  add_from realloc rounds (i + 1) tc' tc2

unfoldable pub trace_container_add_collection :
    (ℕ → Bool) → TraceContainer → TraceContainer → Run TraceContainer
unfolding add_from trace_container_add
trace_container_add_collection realloc tc tc2 = add_from realloc tc2.size 0 tc tc2

-- The written slots are the first `size`, and they fit the allocation.
pub record IsValid (tc : TraceContainer) : Type 0 where
  pub counted : length tc.infos_map ≡ tc.size
  pub fits : tc.size ≤ tc.capacity
  pub roomy : 0 < tc.capacity
