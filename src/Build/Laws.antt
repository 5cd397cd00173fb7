-- ===== src/Build/Laws.antt =====
-- The loop of `build_trace_containers` in helper/replay.c: its outcome.
use mathlib.Core.List.{Perm}
use mathlib.Core.List.Perm
use mathlib.Core.Option.{none-ne-some}
use nvm_tools.Base.{
  ℕ, ◌+◌, ◌^◌, ◌<◌, ◌≤◌, ◌≡◌, refl, sym, ap, subst, ◌∙◌, Bool, true, Option, none, some, List, [],
  ◌∷◌, ◌++◌, append-nil, append_assoc, length, length-append, All, Returns, get_elem?_at, arith,
}
use nvm_tools.Trace.{TraceInfo}
use nvm_tools.Trace.Container.{TraceContainer, IsValid}
use nvm_tools.Trace.Container.Laws.{trace_container_add_lem}
use nvm_tools.Assign.Chunks.{joined}
use nvm_tools.Build.{
  LbaMap, IsLbaMap, Gathering, add_at, create_for, gather_info, gather_from, build_trace_containers,
}
use nvm_tools.Build.Slots.{All-of_each}
use nvm_tools.Build.Group.{at_lba, numbered, length-at_lba}
use nvm_tools.Build.Gathered.{IsGathered, create_for_lem, update_lem}

-- What gathering leaves: the containers are valid, each has the infos of its block address, all
-- infos are in some container, and the map links the containers in the order of creation.
pub record Gathers (h : LbaMap) (infos : List TraceInfo) (s : Gathering h.Map) : Type 0 where
  pub valid : All IsValid s.heap
  pub by_lba : All (λ (t : TraceContainer). t.infos_map ≡ at_lba t.meta infos) s.heap
  pub all_infos : Perm (joined s.heap) infos
  pub in_order : h.buckets s.map ≡ numbered 0 s.heap

module _ (h : LbaMap) (laws : IsLbaMap h) where
  module _ (realloc : ℕ → Bool) (mem : (n : ℕ) → realloc n ≡ true) where
    add_at_lem :
        (info : TraceInfo) (i : ℕ) (seen : List TraceInfo) (s : Gathering h.Map)
        → IsGathered h laws seen s
        → h.hashmap_get s.map info.lba ≡ some i
        → length seen < 2 ^ 30
        → Returns (add_at h realloc i info s) (IsGathered h laws (seen ++ info ∷ []))
    unfolding add_at
    add_at_lem info i seen s g known few =
        let (tc, here, m) = g.found info.lba i known in
        let (_, contents, v) = g.each i tc here in
        let size : tc.size ≤ length seen =
          omega (arith, v.counted, ap length contents, length-at_lba tc.meta seen) in
        let (tc', run, a) = trace_container_add_lem realloc tc info v (omega arith) (mem _) in
        (_, rw here (rw run), update_lem h laws info i seen s tc tc' g known here m a)

    gather_new :
        (info : TraceInfo) (s : Gathering h.Map)
        → h.hashmap_get s.map info.lba ≡ none
        → gather_info h realloc info s
          ≡ add_at h realloc (length s.heap) info (create_for h realloc info s)
    unfolding gather_info
    gather_new info s e = rw (e, gather_info)

    gather_old :
        (info : TraceInfo) (s : Gathering h.Map) (i : ℕ)
        → h.hashmap_get s.map info.lba ≡ some i
        → gather_info h realloc info s ≡ add_at h realloc i info s
    unfolding gather_info
    gather_old info s i e = rw (e, gather_info)

    gather_info_lem :
        (info : TraceInfo) (seen : List TraceInfo) (s : Gathering h.Map) (o : Option ℕ)
        → h.hashmap_get s.map info.lba ≡ o
        → IsGathered h laws seen s
        → length seen < 2 ^ 30
        → Returns (gather_info h realloc info s) (IsGathered h laws (seen ++ info ∷ []))
    gather_info_lem info seen s (some i) e g few =
        let (t, run, post) = add_at_lem info i seen s g e few in
        (t, gather_old info s i e ∙ run, post)
    gather_info_lem info seen s none e g few =
        let (g', known) = create_for_lem h laws realloc info seen s g e in
        let (t, run, post) =
          add_at_lem info (length s.heap) seen (create_for h realloc info s) g' known few in
        (t, gather_new info s e ∙ run, post)

    gather_from_lem :
        (rest seen infos : List TraceInfo) (i : ℕ) (s : Gathering h.Map)
        → infos ≡ seen ++ rest
        → length seen ≡ i
        → length infos ≤ 2 ^ 30
        → IsGathered h laws seen s
        → Returns (gather_from h realloc (length rest) i infos s) (IsGathered h laws infos)
    unfolding gather_from
    gather_from_lem [] seen infos i s e n few g =
        (s, refl, subst (λ l. IsGathered h laws l s) (sym (e ∙ append-nil seen)) g)
    gather_from_lem (x ∷ rest) seen infos i s e n few g =
        let room : length seen < 2 ^ 30 =
          omega (arith, ap length e, length-append seen (x ∷ rest)) in
        let (t, run, g') = gather_info_lem x seen s (h.hashmap_get s.map x.lba) refl g room in
        let here = get_elem?_at infos seen x rest i e n in
        let (u, ran, post) =
          gather_from_lem rest (seen ++ x ∷ []) infos (i + 1) t
            (e ∙ sym (append_assoc seen (x ∷ []) rest)) (length-append seen (x ∷ []) ∙ omega arith)
            few g' in
        (u, rw here (rw run ran), post)

    start_lem : IsGathered h laws [] (record { map = h.hashmap_create; heap = [] })
    start_lem = record {
      each = λ j t e. absurd (none-ne-some _ e);
      found = λ k j e. absurd (none-ne-some _ (sym (laws.get-create k) ∙ e));
      unseen = λ k e. refl;
      perm = Perm.rfl;
      in_order = laws.buckets-create;
    }

    -- With a map that keeps its contract and memory, `build_trace_containers` on at most 2 ^ 30
    -- infos ends; its containers are valid, each holds the infos of its block address in order and
    -- no others, all of them together hold all infos, and the map links them in the order of
    -- creation.
    pub build_trace_containers_lem :
        (infos : List TraceInfo) (valid_lines : ℕ)
        → length infos ≡ valid_lines
        → valid_lines ≤ 2 ^ 30
        → Returns (build_trace_containers h realloc infos valid_lines) (Gathers h infos)
    unfolding build_trace_containers
    build_trace_containers_lem infos valid_lines n few =
        let (s, run, g) = gather_from_lem infos [] infos 0 _ refl refl (omega arith) start_lem in
        (
          s,
          rw n at run,
          record {
            valid = All-of_each IsValid s.heap (λ j t e. (g.each j t e).2);
            by_lba =
                All-of_each (λ (t : TraceContainer). t.infos_map ≡ at_lba t.meta infos) s.heap
                  (λ j t e. (g.each j t e).1);
            all_infos = g.perm;
            in_order = g.in_order;
          },
        )
