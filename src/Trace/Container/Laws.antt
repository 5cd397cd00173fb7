-- ===== src/Trace/Container/Laws.antt =====
-- The operations of `struct trace_container` in helper/replay.c.
use nvm_tools.Base.{
  ℕ, ◌+◌, ◌*◌, ◌^◌, ◌<◌, ◌≤◌, ◌≡◌, refl, sym, ap, ◌∙◌, Bool, true, List, [], ◌∷◌, ◌++◌, append-nil,
  append_assoc, ◌==◌, length, length-append, get_elem?, get_elem?-append, some, ok, Returns, arith,
  inl, inr, Bool-cases, ==_iff, lt→ltb,
}
use nvm_tools.Trace.{TraceInfo}
use nvm_tools.Trace.Container.{
  TraceContainer, IsValid, trace_container_create, trace_container_add, grow, store_slot, add_from,
  trace_container_add_collection,
}

-- What an addition of `infos` to `tc` may leave behind.
pub record Appends (tc : TraceContainer) (infos : List TraceInfo) (tc' : TraceContainer)
    : Type 0 where
  pub valid : IsValid tc'
  pub contents : tc'.infos_map ≡ tc.infos_map ++ infos
  pub meta : tc'.meta ≡ tc.meta
  pub no_shrink : tc.capacity ≤ tc'.capacity

pub trace_container_create-IsValid :
    (capacity meta : ℕ) → 0 < capacity → IsValid (trace_container_create capacity meta)
unfolding trace_container_create
trace_container_create-IsValid capacity meta h = record {
  counted = refl;
  fits = omega arith;
  roomy = h;
}

-- A full array is doubled, any other left alone; the next slot then lies in the allocation.
grow_lem :
    (realloc : ℕ → Bool) (tc : TraceContainer)
    → IsValid tc
    → tc.size < 2 ^ 30
    → realloc (tc.capacity * 2) ≡ true
    → Returns (grow realloc tc) (λ t.
      IsValid t
      × (t.size < t.capacity)
      × (t.infos_map ≡ tc.infos_map)
      × (t.meta ≡ tc.meta)
      × (tc.capacity ≤ t.capacity)
      × (t.size ≡ tc.size))
unfolding grow
grow_lem realloc tc v small mem = elim (Bool-cases (tc.size == tc.capacity)) [
  | inl full ↦
      let e = (==_iff tc.size tc.capacity).0 full in
      (
        record tc { capacity = tc.capacity * 2 },
        rw (full, lt→ltb (tc.capacity * 2) (2 ^ 31) (omega arith), mem),
        (
          record { counted = v.counted; fits = omega arith; roomy = omega arith },
          omega arith,
          refl,
          refl,
          omega arith,
          refl,
        ),
      )
  | inr free ↦ (tc, rw free, (v, ground arith, refl, refl, omega arith, refl))
]

store_slot-append :
    (capacity : ℕ) (slots : List TraceInfo) (i : ℕ) (info : TraceInfo)
    → i < capacity
    → length slots ≡ i
    → store_slot capacity slots i info ≡ ok (slots ++ info ∷ [])
unfolding store_slot
store_slot-append capacity slots i info h e = ground arith

-- Adding an info to a valid container of fewer than 2 ^ 30 infos, where the doubled array would be
-- granted, ends, keeps the container valid, appends the info and never shrinks the array.
pub trace_container_add_lem :
    (realloc : ℕ → Bool) (tc : TraceContainer) (info : TraceInfo)
    → IsValid tc
    → tc.size < 2 ^ 30
    → realloc (tc.capacity * 2) ≡ true
    → Returns (trace_container_add realloc tc info) (Appends tc (info ∷ []))
unfolding trace_container_add
trace_container_add_lem realloc tc info v small mem =
    let (t, run, post) = grow_lem realloc tc v small mem in
    (
      record t { infos_map = t.infos_map ++ info ∷ []; size = t.size + 1 },
      rw (run, store_slot-append t.capacity t.infos_map t.size info post.1 post.0.counted),
      record {
        valid = record {
          counted = omega (arith, length-append t.infos_map (info ∷ []), post.0.counted);
          fits = omega arith;
          roomy = omega arith;
        };
        contents = rw post.2;
        meta = post.3;
        no_shrink = post.4;
      },
    )

-- From any valid container, and as long as memory is granted, adding the infos of another valid
-- container appends them in order.
add_from_lem :
    (realloc : ℕ → Bool)
    → ((n : ℕ) → realloc n ≡ true)
    → (pre post : List TraceInfo) (tc tc2 : TraceContainer) → tc2.infos_map ≡ pre ++ post
    → IsValid tc
    → tc.size + length post ≤ 2 ^ 30
    → Returns (add_from realloc (length post) (length pre) tc tc2) (Appends tc post)
unfolding add_from
add_from_lem realloc mem pre [] tc tc2 e v small = (
  tc,
  refl,
  record {
    valid = v;
    contents = sym (append-nil tc.infos_map);
    meta = refl;
    no_shrink = omega arith;
  },
)
add_from_lem realloc mem pre (x ∷ post) tc tc2 e v small =
    let (t, run, a) = trace_container_add_lem realloc tc x v (omega arith) (mem _) in
    let size : t.size ≡ tc.size + 1 = omega (
      arith,
      a.valid.counted,
      v.counted,
      ap length a.contents,
      length-append tc.infos_map (x ∷ []),
    ) in
    let (u, run', b) =
      add_from_lem realloc mem (pre ++ x ∷ []) post t tc2 (e ∙ sym (append_assoc pre (x ∷ []) post))
        a.valid (omega arith) in
    let here : get_elem? tc2.infos_map (length pre) ≡ some x = rw e (get_elem?-append pre post x) in
    let next : length (pre ++ x ∷ []) ≡ length pre + 1 = length-append pre (x ∷ []) in
    (
      u,
      rw (here, run) (rw next at run'),
      record {
        valid = b.valid;
        contents =
            b.contents ∙ ap (λ l. l ++ post) a.contents ∙ append_assoc tc.infos_map (x ∷ []) post;
        meta = b.meta ∙ a.meta;
        no_shrink = omega arith;
      },
    )

-- With memory and at most 2 ^ 30 infos in both, adding one valid container to another ends, keeps
-- the first valid and appends the infos of the second in order.
pub trace_container_add_collection_lem :
    (realloc : ℕ → Bool) (tc tc2 : TraceContainer)
    → ((n : ℕ) → realloc n ≡ true)
    → IsValid tc
    → IsValid tc2
    → tc.size + tc2.size ≤ 2 ^ 30
    → Returns (trace_container_add_collection realloc tc tc2) (Appends tc tc2.infos_map)
unfolding trace_container_add_collection
trace_container_add_collection_lem realloc tc tc2 mem v v2 small =
    rw (v2.counted) at
      (add_from_lem realloc mem [] tc2.infos_map tc tc2 refl v (omega (arith, v2.counted)))
