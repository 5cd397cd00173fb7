-- ===== src/Build/Gathered.antt =====
-- The invariant of the loop of `build_trace_containers` in helper/replay.c.
use mathlib.Core.List.{Perm, perm_middle}
use mathlib.Core.List.Perm
use mathlib.Core.Option.{none-ne-some, some-injective}
use nvm_tools.Base.{
  ℕ, ◌≡◌, sym, ap, ◌∙◌, ◌≢◌, inl, inr, Bool, none, some, List, [], ◌∷◌, ◌++◌, append-nil, ◌==◌,
  length, get_elem?, get_elem?-append, set, arith, Bool-cases, ==_iff,
}
use nvm_tools.Trace.{TraceInfo}
use nvm_tools.Trace.Container.{
  TraceContainer, IsValid, trace_container_create, default_collections_capacity,
}
use nvm_tools.Trace.Container.Laws.{Appends, trace_container_create-IsValid}
use nvm_tools.Assign.Chunks.{joined, joined-append}
use nvm_tools.Build.{LbaMap, IsLbaMap, Gathering, create_for}
use nvm_tools.Build.Slots.{
  get_elem?-set_same, get_elem?-set_other, get_elem?_front, get_elem?_snoc, joined-set,
}
use nvm_tools.Build.Group.{at_lba, numbered, at_lba_other, at_lba_own, numbered-snoc, numbered-set}

module _ (h : LbaMap) (laws : IsLbaMap h) where
  -- The invariant of the loop: the map knows each container by its block address.
  pub record IsGathered (seen : List TraceInfo) (s : Gathering h.Map) : Type 0 where
    pub each :
        (j : ℕ) (t : TraceContainer)
        → get_elem? s.heap j ≡ some t
        → (h.hashmap_get s.map t.meta ≡ some j) × (t.infos_map ≡ at_lba t.meta seen) × IsValid t
    pub found :
        (k j : ℕ)
        → h.hashmap_get s.map k ≡ some j
        → (t : TraceContainer) × (get_elem? s.heap j ≡ some t) × (t.meta ≡ k)
    pub unseen : (k : ℕ) → h.hashmap_get s.map k ≡ none → at_lba k seen ≡ []
    pub perm : Perm (joined s.heap) seen
    pub in_order : h.buckets s.map ≡ numbered 0 s.heap

  -- A new, empty container keeps it.
  pub create_for_lem :
      (realloc : ℕ → Bool) (info : TraceInfo) (seen : List TraceInfo) (s : Gathering h.Map)
      → IsGathered seen s
      → h.hashmap_get s.map info.lba ≡ none
      → IsGathered seen (create_for h realloc info s)
        × (h.hashmap_get (create_for h realloc info s).map info.lba ≡ some (length s.heap))
  unfolding create_for trace_container_create
  create_for_lem realloc info seen s g new =
      let n = length s.heap in
      let c = trace_container_create default_collections_capacity info.lba in
      let map = h.hashmap_set s.map info.lba n in
      let same = laws.get-set_same s.map info.lba n in
      (
        record {
          each = λ j t e. elim (get_elem?_snoc s.heap j t c e) [
            | inl old ↦
                let (known, c, v) = g.each j t old in
                (
                  laws.get-set_other s.map info.lba n t.meta
                        (λ m. none-ne-some _ (sym new ∙ ap (h.hashmap_get s.map) (sym m) ∙ known))
                      ∙ known,
                  c,
                  v,
                )
            | inr last ↦
                let created : t ≡ c = sym last.1 in
                rw (created, last.0)
                  (
                    same,
                    sym (g.unseen info.lba new),
                    trace_container_create-IsValid default_collections_capacity info.lba
                        (omega arith),
                  )
          ];
          found = λ k j e. elim (Bool-cases (k == info.lba)) [
            | inl own ↦
                let eq = (==_iff k info.lba).0 own in
                let index : n ≡ j =
                  some-injective _ _ (sym same ∙ ap (h.hashmap_get map) (sym eq) ∙ e) in
                (c, rw (← index) (get_elem?-append s.heap [] c), sym eq)
            | inr other ↦
                let ne : k ≢ info.lba = ground arith in
                let (t, here, m) =
                  g.found k j (sym (laws.get-set_other s.map info.lba n k ne) ∙ e) in
                (t, get_elem?_front s.heap (c ∷ []) j t here, m)
          ];
          unseen = λ k e. elim (Bool-cases (k == info.lba)) [
            | inl own ↦
                let eq = (==_iff k info.lba).0 own in
                absurd (none-ne-some _ (sym e ∙ ap (h.hashmap_get map) eq ∙ same))
            | inr other ↦
                let ne : k ≢ info.lba = ground arith in
                g.unseen k (sym (laws.get-set_other s.map info.lba n k ne) ∙ e)
          ];
          perm = rw (joined-append s.heap (c ∷ []) ∙ append-nil (joined s.heap)) g.perm;
          in_order =
              laws.buckets-set s.map info.lba n new
              ∙ ap (λ l. l ++ (info.lba, n) ∷ []) g.in_order
              ∙ sym (
                  numbered-snoc s.heap 0 c
                  ∙ ap (λ i. numbered 0 s.heap ++ (info.lba, i) ∷ []) (omega arith));
        },
        same,
      )

  -- So does the addition of an info to the container that the map gives for it.
  pub update_lem :
      (info : TraceInfo) (i : ℕ) (seen : List TraceInfo) (s : Gathering h.Map)
      (tc tc' : TraceContainer)
      → IsGathered seen s
      → h.hashmap_get s.map info.lba ≡ some i
      → get_elem? s.heap i ≡ some tc
      → tc.meta ≡ info.lba
      → Appends tc (info ∷ []) tc'
      → IsGathered (seen ++ info ∷ []) (record s { heap = set s.heap i tc' })
  update_lem info i seen s tc tc' g known here m a =
      let new = get_elem?-set_same s.heap i tc tc' here in
      let meta : tc'.meta ≡ info.lba = a.meta ∙ m in
      let contents : tc'.infos_map ≡ at_lba tc'.meta (seen ++ info ∷ []) =
        a.contents
        ∙ ap (λ l. l ++ info ∷ []) ((g.each i tc here).1 ∙ ap (λ k. at_lba k seen) m)
        ∙ sym (at_lba_own info seen)
        ∙ ap (λ k. at_lba k (seen ++ info ∷ [])) (sym meta) in
      record {
        each = λ j t e. elim (Bool-cases (j == i)) [
          | inl own ↦
              let eq = (==_iff j i).0 own in
              let same : tc' ≡ t =
                some-injective _ _ (sym new ∙ ap (get_elem? (set s.heap i tc')) (sym eq) ∙ e) in
              rw (← same, eq) (ap (h.hashmap_get s.map) meta ∙ known, contents, a.valid)
          | inr other ↦
              let ne : j ≢ i = ground arith in
              let (at_j, c, v) = g.each j t (sym (get_elem?-set_other s.heap i j tc' ne) ∙ e) in
              let apart : info.lba ≢ t.meta = λ q.
                ne (sym (some-injective _ _ (sym known ∙ ap (h.hashmap_get s.map) q ∙ at_j))) in
              (at_j, c ∙ sym (at_lba_other t.meta info seen apart), v)
        ];
        found = λ k j e. elim (Bool-cases (j == i)) [
          | inl own ↦
              let eq = (==_iff j i).0 own in
              let (t, at_j, q) = g.found k j e in
              let same : tc ≡ t =
                some-injective _ _ (sym here ∙ ap (get_elem? s.heap) (sym eq) ∙ at_j) in
              (
                tc',
                ap (get_elem? (set s.heap i tc')) eq ∙ new,
                a.meta ∙ ap (λ (c : TraceContainer). c.meta) same ∙ q,
              )
          | inr other ↦
              let ne : j ≢ i = ground arith in
              let (t, at_j, q) = g.found k j e in
              (t, get_elem?-set_other s.heap i j tc' ne ∙ at_j, q)
        ];
        unseen = λ k e.
            let apart : info.lba ≢ k =
              λ q. none-ne-some _ (sym e ∙ ap (h.hashmap_get s.map) (sym q) ∙ known) in
            at_lba_other k info seen apart ∙ g.unseen k e;
        perm = Perm.trans (joined-set s.heap i tc tc' info here a.contents) (
            Perm.trans (Perm.cons info g.perm)
              (Perm.symm (rw (append-nil seen) at (perm_middle {a = info} seen []))));
        in_order = g.in_order ∙ sym (numbered-set s.heap 0 i tc tc' here a.meta);
      }
