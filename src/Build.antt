-- ===== src/Build.antt =====
-- helper/replay.c, `build_trace_containers`: the infos are gathered into one container for each
-- block address. The hash map is that of helper/map.c, a copy of c-hashmap, and stays a parameter.
pub mod Slots
pub mod Group
pub mod Gathered
pub mod Laws
use nvm_tools.Base.{
  ℕ, zero, suc, ◌+◌, ◌≡◌, ◌≢◌, Bool, Option, none, some, List, [], ◌∷◌, ◌++◌, length, set, Run, ok,
  ◌>>=◌, fetch,
}
use nvm_tools.Trace.{TraceInfo}
use nvm_tools.Trace.Container.{
  TraceContainer, trace_container_create, trace_container_add, default_collections_capacity,
}

-- The map from the 8 bytes of a block address to a pointer, here the index of a container.
-- `buckets` is what `foreach_hashmap_bucket` goes through.
pub record LbaMap : Type 1 where
  pub Map : Type 0
  pub hashmap_create : Map
  pub hashmap_get : Map → ℕ → Option ℕ
  pub hashmap_set : Map → ℕ → ℕ → Map
  pub buckets : Map → List (ℕ × ℕ)

-- What its documentation says: a map of keys to values, whose buckets are linked in the order in
-- which the keys were added.
pub record IsLbaMap (h : LbaMap) : Type 0 where
  pub get-create : (k : ℕ) → h.hashmap_get h.hashmap_create k ≡ none
  pub get-set_same : (m : h.Map) (k v : ℕ) → h.hashmap_get (h.hashmap_set m k v) k ≡ some v
  pub get-set_other :
      (m : h.Map) (k v l : ℕ) → l ≢ k → h.hashmap_get (h.hashmap_set m k v) l ≡ h.hashmap_get m l
  pub buckets-create : h.buckets h.hashmap_create ≡ []
  pub buckets-set :
      (m : h.Map) (k v : ℕ)
      → h.hashmap_get m k ≡ none
      → h.buckets (h.hashmap_set m k v) ≡ h.buckets m ++ (k, v) ∷ []

-- The map, and the containers that were created, which its values point to.
pub record Gathering (M : Type 0) : Type 0 where
  pub map : M
  pub heap : List TraceContainer

module _ (h : LbaMap) (realloc : ℕ → Bool) where
  -- `trace_container_add(ptc, info)`, through the pointer.
  unfoldable pub add_at : ℕ → TraceInfo → Gathering h.Map → Run (Gathering h.Map)
  add_at ptc info s = do
    tc ← fetch s.heap ptc
    tc' ← trace_container_add realloc tc info
    ok (record s { heap = set s.heap ptc tc' })

  -- The branch without a container; the pointer of the new one is the length of the heap.
  unfoldable pub create_for : TraceInfo → Gathering h.Map → Gathering h.Map
  create_for info s = record {
    map = h.hashmap_set s.map info.lba (length s.heap);
    heap = s.heap ++ trace_container_create default_collections_capacity info.lba ∷ [];
  }

  -- One round of the loop.
  unfoldable pub gather_info : TraceInfo → Gathering h.Map → Run (Gathering h.Map)
  unfolding add_at create_for
  gather_info info s = elim (h.hashmap_get s.map info.lba) [
    | some ptc ↦ add_at ptc info s
    | none ↦ add_at (length s.heap) info (create_for info s)
  ]

  -- The loop at index `i`, with `rounds` rounds left.
  pub gather_from : ℕ → ℕ → List TraceInfo → Gathering h.Map → Run (Gathering h.Map)
  gather_from zero i infos s = ok s
  gather_from (suc rounds) i infos s = do
    info ← fetch infos i
    s' ← gather_info info s
    gather_from rounds (i + 1) infos s'

  unfoldable pub build_trace_containers : List TraceInfo → ℕ → Run (Gathering h.Map)
  unfolding gather_from gather_info
  build_trace_containers infos valid_lines =
      gather_from valid_lines 0 infos (record { map = h.hashmap_create; heap = [] })
