-- ===== src/Sort/Whole.antt =====
-- `trace_container_sort_infomap_by_ts` of helper/replay.c, on containers with infos and without.
use mathlib.Core.List.Perm
use mathlib.Core.Path.{ap₂}
use native.Mathlib.Nat.{pow-suc}
use nvm_tools.Base.{
  length-Perm, ℕ, zero, suc, ◌+◌, ◌-◌, ◌/◌, ◌%◌, ◌^◌, ◌<◌, ◌≤◌, ◌≡◌, refl, sym, ap, ◌∙◌, inl, inr,
  List, [], ◌∷◌, ◌++◌, append-nil, append_assoc, ltb, length, length-append, length-take,
  length-drop, take-append-drop, take, drop, Run, ok, ◌>>=◌, Returns, arith, Bool-cases, lt→ltb,
  ltb→lt, sub64,
}
use nvm_tools.Trace.{TraceInfo}
use nvm_tools.Trace.Container.{TraceContainer, IsValid}
use nvm_tools.Sort.{
  infomap_msort_by_ts, msort_depth, merge_array_by_ts, trace_container_sort_infomap_by_ts,
}
use nvm_tools.Sort.Interleave.{IsStableSort, interleave, interleave-IsStableSort}
use nvm_tools.Sort.Merge.{merge_array_by_ts_lem}

IsStableSort-refl : (l : List TraceInfo) → length l ≤ 1 → IsStableSort l l
IsStableSort-refl [] h = record { sorted = tt; perm = Perm.rfl; stable = λ t. refl }
IsStableSort-refl (x ∷ []) h = record { sorted = (tt, tt); perm = Perm.rfl; stable = λ t. refl }
IsStableSort-refl (x ∷ y ∷ l) h = absurd (omega arith)

length-IsStableSort : (l l' : List TraceInfo) → IsStableSort l l' → length l' ≡ length l
length-IsStableSort l l' s = length-Perm l' l s.perm

msort_stop :
    (f cap : ℕ) (a : List TraceInfo) (begin end : ℕ)
    → end ≤ begin
    → infomap_msort_by_ts (suc f) cap a begin end ≡ ok a
unfolding infomap_msort_by_ts
msort_stop f cap a begin end h = ground arith

msort_split :
    (f cap : ℕ) (a : List TraceInfo) (begin end mid : ℕ)
    → begin < end
    → (begin + end) % 2 ^ 64 / 2 ≡ mid
    → infomap_msort_by_ts (suc f) cap a begin end ≡ (
        infomap_msort_by_ts f cap a begin mid >>= λ a₁.
        infomap_msort_by_ts f cap a₁ (mid + 1) end >>= λ a₂. merge_array_by_ts cap a₂ begin mid end)
unfolding infomap_msort_by_ts
msort_split f cap a begin end mid h e = rw (lt→ltb begin end h, infomap_msort_by_ts) (rw e)

-- Sorting a range of an array replaces the range by its stable sort.
abbrev Sorts : List TraceInfo → List TraceInfo → List TraceInfo → Run (List TraceInfo) → Type 0
Sorts pre seg post r =
    (seg' : List TraceInfo) × (r ≡ ok (pre ++ (seg' ++ post))) × IsStableSort seg seg'

msort_lem :
    (f cap : ℕ) (pre seg post : List TraceInfo) (begin end : ℕ)
    → length pre ≡ begin
    → begin + length seg ≡ suc end
    → end - begin < 2 ^ f
    → end < 2 ^ 63
    → length seg ≤ cap
    → Sorts pre seg post (infomap_msort_by_ts (suc f) cap (pre ++ (seg ++ post)) begin end)
msort_lem zero cap pre seg post begin end e es small top c =
    (seg, msort_stop zero cap _ begin end (omega arith), IsStableSort-refl seg (omega arith))
msort_lem (suc f) cap pre seg post begin end e es small top c = elim (Bool-cases (ltb begin end)) [
  | inr stop ↦
      (seg, msort_stop (suc f) cap _ begin end (ground arith), IsStableSort-refl seg (ground arith))
  | inl go ↦
      let lt = ltb→lt begin end go in
      let mid = (begin + end) / 2 in
      let h = mid + 1 - begin in
      let left = take h seg in
      let right = drop h seg in
      let parts = take-append-drop h seg in
      let size = pow-suc 2 f in
      let size_l : length left ≡ h = length-take h seg (omega arith) in
      let size_r : length right ≡ length seg - h = length-drop h seg in
      let (l', run_l, sl) =
        msort_lem f cap pre left (right ++ post) begin mid e (omega arith) (omega arith)
          (omega arith) (omega arith) in
      let same_l = length-IsStableSort left l' sl in
      let (r', run_r, sr) =
        msort_lem f cap (pre ++ l') right post (mid + 1) end (omega (arith, length-append pre l'))
          (omega arith) (omega arith) top (omega arith) in
      let same_r = length-IsStableSort right r' sr in
      let merged =
        merge_array_by_ts_lem cap pre l' r' post begin mid end e (omega arith) (omega arith)
          (omega arith) in
      let array : pre ++ (seg ++ post) ≡ pre ++ (left ++ (right ++ post)) =
        ap (λ s. pre ++ (s ++ post)) (sym parts)
        ∙ ap (λ s. pre ++ s) (append_assoc left right post) in
      (
        interleave l' r',
        rw array (
            msort_split (suc f) cap _ begin end mid lt (omega arith)
            ∙ rw run_l (
                rw (← append_assoc pre l' (right ++ post))
                  (rw run_r (rw (append_assoc pre l' (r' ++ post)) merged)))),
        rw parts at (interleave-IsStableSort left right l' r' sl sr),
      )
]

msort_whole :
    (l : List TraceInfo) (size : ℕ)
    → length l ≡ size
    → 0 < size
    → size < 2 ^ 31
    → (l' : List TraceInfo) × (infomap_msort_by_ts msort_depth size l 0 (sub64 size 1) ≡ ok l')
      × IsStableSort l l'
msort_whole l size e pos small =
    let last : sub64 size 1 ≡ size - 1 = omega arith in
    let (l', run, s) =
      msort_lem 64 size [] l [] 0 (size - 1) refl (omega arith) (omega arith) (omega arith)
        (omega arith) in
    (
      l',
      ap₂ (λ a e. infomap_msort_by_ts msort_depth size a 0 e) (sym (append-nil l)) last
          ∙ run
          ∙ ap ok (append-nil l'),
      s,
    )

-- What sorting leaves of a container.
pub record SortsContainer (tc t : TraceContainer) : Type 0 where
  pub valid : IsValid t
  pub sorted : IsStableSort tc.infos_map t.infos_map
  pub size : t.size ≡ tc.size
  pub capacity : t.capacity ≡ tc.capacity
  pub meta : t.meta ≡ tc.meta

-- Sorting a valid container of 1 to 2 ^ 31 - 1 infos ends within the recursion depth 65 and leaves
-- a valid container of the same size whose infos are the stable sort by time stamp: ascending, a
-- permutation, and in the old order where time stamps are equal.
pub trace_container_sort_infomap_by_ts_lem :
    (tc : TraceContainer)
    → IsValid tc
    → 0 < tc.size
    → tc.size < 2 ^ 31
    → Returns (trace_container_sort_infomap_by_ts tc) (SortsContainer tc)
unfolding trace_container_sort_infomap_by_ts
trace_container_sort_infomap_by_ts_lem tc v some_infos small =
    let (l', run, s) = msort_whole tc.infos_map tc.size v.counted some_infos small in
    let same = length-IsStableSort tc.infos_map l' s in
    (
      record tc { infos_map = l' },
      ap (λ r. r >>= λ sorted. ok (record tc { infos_map = sorted })) run,
      record {
        valid = record { counted = same ∙ v.counted; fits = v.fits; roomy = v.roomy };
        sorted = s;
        size = refl;
        capacity = refl;
        meta = refl;
      },
    )
