-- ===== src/Replay/Buckets.antt =====
-- The containers that the sorted buckets lead `assign_params_per_worker` of helper/replay.c to.
use nvm_tools.Base.{
  All-Perm, ℕ, zero, suc, ◌+◌, ◌<◌, ◌≡◌, refl, sym, ap, ◌∙◌, none, some, List, [], ◌∷◌, ◌++◌,
  append_assoc, length, length-append, All, get_elem?, ok, Returns, get_elem?_at, arith,
}
use mathlib.Core.List
use mathlib.Core.List.{Perm}
use mathlib.Core.List.Perm
use native.Mathlib.Bridge.{le_prop}
use nvm_tools.Trace.Container.{TraceContainer}
use nvm_tools.Build.Group.{numbered}
use nvm_tools.Replay.{bucket_containers}

-- The container of a bucket, and an empty one where there is none.
container_at : List TraceContainer → ℕ × ℕ → TraceContainer
container_at heap b = elim (get_elem? heap b.1) [
  | none ↦ record { infos_map = []; meta = 0; size = 0; capacity = 0 }
  | some tc ↦ tc
]

container_at_lem :
    (heap : List TraceContainer) (k i : ℕ) (tc : TraceContainer)
    → get_elem? heap i ≡ some tc
    → container_at heap (k, i) ≡ tc
unfolding container_at
container_at_lem heap k i tc e = rw (container_at, e) refl

-- The value of a bucket is a pointer to a container.
abbrev IsPointer : List TraceContainer → ℕ × ℕ → Type 0
IsPointer heap b = b.1 < length heap

get_elem?_below :
    {A : Type 0} (l : List A) (i : ℕ) → i < length l → (x : A) × (get_elem? l i ≡ some x)
get_elem?_below [] i h = absurd (omega arith)
get_elem?_below (x ∷ l) zero h = (x, refl)
get_elem?_below (x ∷ l) (suc i) h = get_elem?_below l i (omega arith)

bucket_containers-map :
    (heap : List TraceContainer) (bs : List (ℕ × ℕ))
    → All (IsPointer heap) bs
    → bucket_containers heap bs ≡ ok (List.map (container_at heap) bs)
unfolding bucket_containers
bucket_containers-map heap [] a = refl
bucket_containers-map heap ((k, i) ∷ bs) a =
    let (tc, here) = get_elem?_below heap i a.0 in
    rw here (
      rw (bucket_containers-map heap bs a.1) (
        ap (λ (t : TraceContainer). ok (t ∷ List.map (container_at heap) bs))
          (sym (container_at_lem heap k i tc here))))

container_at-numbered :
    (heap before ts : List TraceContainer) (i : ℕ)
    → heap ≡ before ++ ts
    → length before ≡ i
    → List.map (container_at heap) (numbered i ts) ≡ ts
container_at-numbered heap before [] i e n = refl
container_at-numbered heap before (t ∷ ts) i e n =
    let here = get_elem?_at heap before t ts i e n in
    let rest =
      container_at-numbered heap (before ++ t ∷ []) ts (i + 1)
        (e ∙ sym (append_assoc before (t ∷ []) ts)) (length-append before (t ∷ []) ∙ omega arith) in
    ap (λ (u : TraceContainer). u ∷ List.map (container_at heap) (numbered (i + 1) ts))
      (container_at_lem heap t.meta i t here)
    ∙ ap (λ (us : List TraceContainer). t ∷ us) rest

numbered-IsPointer :
    (heap before ts : List TraceContainer) (i : ℕ)
    → heap ≡ before ++ ts
    → length before ≡ i
    → All (IsPointer heap) (numbered i ts)
numbered-IsPointer heap before [] i e n = tt
numbered-IsPointer heap before (t ∷ ts) i e n = (
  omega (arith, ap length e, length-append before (t ∷ ts)),
  numbered-IsPointer heap (before ++ t ∷ []) ts (i + 1) (e ∙ sym (append_assoc before (t ∷ []) ts))
      (length-append before (t ∷ []) ∙ omega arith),
)

pub bucket_containers_lem :
    (heap : List TraceContainer) (bs : List (ℕ × ℕ))
    → Perm (numbered 0 heap) bs
    → Returns (bucket_containers heap bs) (Perm heap)
bucket_containers_lem heap bs p =
    let pointers =
      All-Perm (IsPointer heap) (λ b. le_prop) (numbered 0 heap) bs p
        (numbered-IsPointer heap [] heap 0 refl refl) in
    (
      List.map (container_at heap) bs,
      bucket_containers-map heap bs pointers,
      rw (container_at-numbered heap [] heap 0 refl refl) at (Perm.map (container_at heap) p),
    )
