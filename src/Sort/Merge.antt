-- ===== src/Sort/Merge.antt =====
-- `_merge_array_by_ts` of helper/replay.c on two neighbouring ranges of an array.
use nvm_tools.Base.{
  ℕ, zero, suc, ◌+◌, ◌*◌, ◌<◌, ◌≤◌, ◌≡◌, refl, sym, ap, ◌∙◌, ◌⊎◌, inl, inr, true, false, some, List,
  [], ◌∷◌, ◌++◌, append-nil, append_assoc, leb, length, length-append, get_elem?, set-append,
  get_elem?-append, set, ok, ◌>>=◌, arith, Bool-cases, lt→ltb, le→leb,
}
use nvm_tools.Trace.{TraceInfo}
use nvm_tools.Sort.{push, merge_both, drain, write_back, merge_array_by_ts}
use nvm_tools.Sort.Interleave.{
  interleave, interleave_left, interleave_right, nil-interleave, interleave-nil, length-interleave,
}

-- The array holds `xs` from slot `i` on.
abbrev pub Reads : List TraceInfo → ℕ → List TraceInfo → Type 0
Reads a i [] = Unit
Reads a i (x ∷ xs) = (get_elem? a i ≡ some x) × Reads a (i + 1) xs

pub Reads-append :
    (pre xs post : List TraceInfo) (i : ℕ) → length pre ≡ i → Reads (pre ++ (xs ++ post)) i xs
Reads-append pre [] post i e = tt
Reads-append pre (x ∷ xs) post i e = (
  rw (← e) (get_elem?-append pre (xs ++ post) x),
  rw (append_assoc pre (x ∷ []) (xs ++ post)) at
      (Reads-append (pre ++ x ∷ []) xs post (i + 1) (omega (arith, length-append pre (x ∷ [])))),
)

push_lem :
    (cap : ℕ) (temp : List TraceInfo) (x : TraceInfo)
    → length temp < cap
    → push cap temp x ≡ ok (temp ++ x ∷ [])
unfolding push
push_lem cap temp x h = rw (lt→ltb (length temp) cap h)

module _ (cap : ℕ) (a : List TraceInfo) where
  drain_done : (f i j : ℕ) (temp : List TraceInfo) → j < i → drain (suc f) cap a i j temp ≡ ok temp
  unfolding drain
  drain_done f i j temp h = ground arith

  drain_step :
      (f i j : ℕ) (x : TraceInfo) (temp : List TraceInfo)
      → i ≤ j
      → get_elem? a i ≡ some x
      → length temp < cap
      → drain (suc f) cap a i j temp ≡ drain f cap a (i + 1) j (temp ++ x ∷ [])
  unfolding drain
  drain_step f i j x temp h e c = rw (le→leb i j h, drain) (rw e (rw (push_lem cap temp x c)))

  drain_lem :
      (f i j : ℕ) (xs temp : List TraceInfo)
      → Reads a i xs
      → i + length xs ≡ suc j
      → length xs < f
      → length temp + length xs ≤ cap
      → drain f cap a i j temp ≡ ok (temp ++ xs)
  drain_lem zero i j xs temp r e h c = absurd (omega arith)
  drain_lem (suc f) i j [] temp r e h c = rw (drain_done f i j temp (omega arith), append-nil temp)
  drain_lem (suc f) i j (x ∷ xs) temp r e h c =
      drain_step f i j x temp (omega arith) r.0 (omega arith)
      ∙ drain_lem f (i + 1) j xs (temp ++ x ∷ []) r.1 (omega arith) (omega arith)
          (omega (arith, length-append temp (x ∷ [])))
      ∙ ap ok (append_assoc temp (x ∷ []) xs)

  both_done :
      (f i j m n : ℕ) (temp : List TraceInfo)
      → (j < i) ⊎ (n < m)
      → merge_both (suc f) cap a i j m n temp ≡ ok (i, m, temp)
  unfolding merge_both
  both_done f i j m n temp h = ground arith

  module _ (f i j m n : ℕ) (x y : TraceInfo) (temp : List TraceInfo) (hi : i ≤ j) (hm : m ≤ n)
      (ex : get_elem? a i ≡ some x) (ey : get_elem? a m ≡ some y) (c : length temp < cap) where
    both_left :
        leb x.ts y.ts ≡ true
        → merge_both (suc f) cap a i j m n temp ≡ merge_both f cap a (i + 1) j m n (temp ++ x ∷ [])
    unfolding merge_both
    both_left p = ground (arith, push_lem cap temp x c)

    both_right :
        leb x.ts y.ts ≡ false
        → merge_both (suc f) cap a i j m n temp ≡ merge_both f cap a i j (m + 1) n (temp ++ y ∷ [])
    unfolding merge_both
    both_right p = ground (arith, push_lem cap temp y c)

  fill_temp_lem :
      (f g i j m n : ℕ) (xs ys temp : List TraceInfo)
      → Reads a i xs
      → Reads a m ys
      → i + length xs ≡ suc j
      → m + length ys ≡ suc n
      → length xs + length ys < f
      → length xs + length ys < g
      → length temp + (length xs + length ys) ≤ cap
      → (merge_both f cap a i j m n temp >>= λ (i', m', temp₁).
          drain g cap a i' j temp₁ >>= λ temp₂. drain g cap a m' n temp₂)
        ≡ ok (temp ++ interleave xs ys)
  fill_temp_lem zero g i j m n xs ys temp rx ry ex ey hf hg c = absurd (omega arith)
  fill_temp_lem f zero i j m n xs ys temp rx ry ex ey hf hg c = absurd (omega arith)
  fill_temp_lem (suc f) (suc g) i j m n [] ys temp rx ry ex ey hf hg c =
      rw (both_done f i j m n temp (omega arith)) (
        rw (drain_done g i j temp (omega arith), nil-interleave)
          (drain_lem (suc g) m n ys temp ry ey (omega arith) (omega arith)))
  fill_temp_lem (suc f) (suc g) i j m n (x ∷ xs) [] temp rx ry ex ey hf hg c =
      rw (both_done f i j m n temp (omega arith)) (
        rw (drain_lem (suc g) i j (x ∷ xs) temp rx ex (omega arith) (omega arith), interleave-nil)
          (drain_done g m n (temp ++ x ∷ xs) (omega arith)))
  fill_temp_lem (suc f) (suc g) i j m n (x ∷ xs) (y ∷ ys) temp rx ry ex ey hf hg c =
      elim (Bool-cases (leb x.ts y.ts)) [
        | inl p ↦
            rw
              (
                both_left f i j m n x y temp (omega arith) (omega arith) rx.0 ry.0 (omega arith) p,
                interleave_left x y xs ys p,
                ← append_assoc temp (x ∷ []) (interleave xs (y ∷ ys)),
              )
              (fill_temp_lem f (suc g) (i + 1) j m n xs (y ∷ ys) (temp ++ x ∷ []) rx.1 ry
                (omega arith) (omega arith) (omega arith) (omega arith)
                (omega (arith, length-append temp (x ∷ []))))
        | inr p ↦
            rw
              (
                both_right f i j m n x y temp (omega arith) (omega arith) rx.0 ry.0 (omega arith) p,
                interleave_right x y xs ys p,
                ← append_assoc temp (y ∷ []) (interleave (x ∷ xs) ys),
              )
              (fill_temp_lem f (suc g) i j (m + 1) n (x ∷ xs) ys (temp ++ y ∷ []) rx ry.1
                (omega arith) (omega arith) (omega arith) (omega arith)
                (omega (arith, length-append temp (y ∷ []))))
      ]

write_back_step :
    (a temp : List TraceInfo) (at : ℕ) (t : TraceInfo)
    → at < length a
    → write_back a at (t ∷ temp) ≡ write_back (set a at t) (at + 1) temp
unfolding write_back
write_back_step a temp at t h = ground arith

-- The copy replaces a range by as many infos.
write_back_lem :
    (pre old post temp : List TraceInfo) (at : ℕ)
    → length pre ≡ at
    → length temp ≡ length old
    → write_back (pre ++ (old ++ post)) at temp ≡ ok (pre ++ (temp ++ post))
unfolding write_back
write_back_lem pre [] post [] at e h = refl
write_back_lem pre (x ∷ old) post [] at e h = absurd (omega arith)
write_back_lem pre [] post (t ∷ temp) at e h = absurd (omega arith)
write_back_lem pre (x ∷ old) post (t ∷ temp) at e h =
    let ih =
      write_back_lem (pre ++ t ∷ []) old post temp (at + 1)
        (omega (arith, length-append pre (t ∷ []))) (omega arith) in
    let written : set (pre ++ x ∷ (old ++ post)) at t ≡ pre ++ t ∷ (old ++ post) =
      rw (← e) (set-append pre (old ++ post) x t) in
    write_back_step (pre ++ x ∷ (old ++ post)) temp at t
      (omega (arith, length-append pre (x ∷ (old ++ post))))
    ∙ rw (written) (
        rw (append_assoc pre (t ∷ []) (old ++ post), append_assoc pre (t ∷ []) (temp ++ post)) at
          ih)

-- Merging two neighbouring ranges of an array, with room for both in the temporary one, ends
-- within the fuel and replaces them by their merge, ties from the left, and leaves the rest of the
-- array alone.
pub merge_array_by_ts_lem :
    (cap : ℕ) (pre xs ys post : List TraceInfo) (begin mid end : ℕ)
    → length pre ≡ begin
    → begin + length xs ≡ suc mid
    → suc mid + length ys ≡ suc end
    → length xs + length ys ≤ cap
    → merge_array_by_ts cap (pre ++ (xs ++ (ys ++ post))) begin mid end
      ≡ ok (pre ++ (interleave xs ys ++ post))
unfolding merge_array_by_ts
merge_array_by_ts_lem cap pre xs ys post begin mid end e ex ey c =
    let a = pre ++ (xs ++ (ys ++ post)) in
    let f = 2 * length a + 1 in
    let count : length a ≡ length pre + (length xs + (length ys + length post)) =
      length-append pre (xs ++ (ys ++ post))
      ∙ omega (arith, length-append xs (ys ++ post), length-append ys post) in
    let rx = Reads-append pre xs (ys ++ post) begin e in
    let ry : Reads a (mid + 1) ys =
      rw (append_assoc pre xs (ys ++ post)) at
        (Reads-append (pre ++ xs) ys post (mid + 1) (omega (arith, length-append pre xs))) in
    rw
      (fill_temp_lem cap a f f begin mid (mid + 1) end xs ys [] rx ry ex (omega arith) (omega arith)
        (omega arith) (omega arith))
      (rw (append_assoc xs ys post) at (
        write_back_lem pre (xs ++ ys) post (interleave xs ys) begin e
          (length-interleave xs ys ∙ sym (length-append xs ys))))
