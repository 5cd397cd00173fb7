-- ===== src/Assign/Deal.antt =====
-- The dealing loop of `assign_params_per_worker` in helper/replay.c, step by step.
use mathlib.Core.List.{flatten}
use mathlib.Core.Path.{ap₂}
use nvm_tools.Base.{
  ℕ, zero, suc, ◌+◌, ◌-◌, ◌*◌, ◌/◌, ◌%◌, ◌^◌, ◌<◌, ◌≤◌, ◌≡◌, refl, sym, ap, ◌∙◌, ◌≢◌, inl, inr,
  Bool, true, false, ◌&&◌, List, [], ◌∷◌, ◌++◌, append-nil, append_assoc, ltb, leb, ◌==◌, length,
  length-append, replicate, All, set-append, set, ok, ◌>>=◌, Returns, get_elem?_at, arith,
  Bool-cases, sub64,
}
use mathlib.Core.Bool.{not}
use nvm_tools.Trace.Container.{
  TraceContainer, IsValid, trace_container_create, default_collections_capacity,
}
use nvm_tools.Trace.Container.Laws.{
  Appends, trace_container_create-IsValid, trace_container_add_collection_lem,
}
use nvm_tools.Assign.Chunks.{joined, Deals, joined-append}
use nvm_tools.Assign.{
  Dealing, below_int, next_thread, roll, choose, advance, deal_one, deal_all, deal,
}
use nvm_tools.Assign.Dealt.{
  IsDealt, IsShared, next_thread-IsDealt, relabel-IsDealt, finish, start-IsDealt,
}

module _ (rand : ℕ → ℕ) (threads per : ℕ) where
  roll_lem :
      (size : ℕ) (done : List TraceContainer) (s : Dealing)
      → 0 < size
      → IsDealt threads done s
      → s.cur_thread ≢ threads - 1
      → s.cur_thread_lines ≤ per
      → Returns
          (roll rand threads per size s)
          (λ t. IsDealt threads done t × IsShared threads per t)
  unfolding roll
  roll_lem size done s pos d ne le =
      let s' = record s { calls = s.calls + 1 } in
      let d' = relabel-IsDealt threads done s s.cur_thread_lines (s.calls + 1) d in
      let p = sub64 per s.cur_thread_lines * 100 % 2 ^ 64 / size in
      let some_infos : (size == 0) ≡ false = ground arith in
      elim (Bool-cases (below_int (rand s.calls % 100) p)) [
        | inl go ↦ (
          next_thread s',
          rw some_infos (rw go),
          (next_thread-IsDealt threads done s' d' ne, λ n. omega arith),
        )
        | inr stay ↦ (s', rw some_infos (rw stay), (d', λ n. le))
      ]

  choose_lem :
      (size : ℕ) (done : List TraceContainer) (s : Dealing)
      → IsDealt threads done s
      → IsShared threads per s
      → size < 2 ^ 62
      → per < 2 ^ 62
      → Returns
          (choose rand threads per size s)
          (λ t. IsDealt threads done t × IsShared threads per t)
  unfolding choose
  choose_lem size done s d share small small' =
      elim (Bool-cases
        (not (s.cur_thread == threads - 1) && ltb per ((size + s.cur_thread_lines) % 2 ^ 64))) [
          | inr stay ↦ (s, rw stay, (d, share))
          | inl over ↦
              let ne : s.cur_thread ≢ threads - 1 = ground arith in
              let le = share ne in
              let room : per < (size + s.cur_thread_lines) % 2 ^ 64 = ground arith in
              let (t, run, post) = roll_lem size done s (omega arith) d ne le in
              (t, rw over run, post)
        ]

  advance_lem :
      (done : List TraceContainer) (s : Dealing)
      → IsDealt threads done s
      → IsDealt threads done (advance rand threads per s)
        × IsShared threads per (advance rand threads per s)
  unfolding advance
  advance_lem done s d =
      elim (Bool-cases (not (s.cur_thread == threads - 1) && leb per s.cur_thread_lines)) [
        | inl go ↦
            let ne : s.cur_thread ≢ threads - 1 = ground arith in
            rw go (next_thread-IsDealt threads done s d ne, λ n. omega arith)
        | inr stay ↦ rw stay (d, λ n. ground arith)
      ]

  hand_over :
      (tc w' : TraceContainer) (done : List TraceContainer) (s : Dealing) (lines : ℕ)
      (d : IsDealt threads done s)
      → Appends d.w tc.infos_map w'
      → IsDealt threads
          (done ++ tc ∷ [])
          (record s { workers = set s.workers s.cur_thread w'; cur_thread_lines = lines })
  hand_over tc w' done s lines d a = record {
    before = d.before;
    w = w';
    after = d.after;
    chunks = d.chunks;
    chunk = d.chunk ++ tc ∷ [];
    split = ap₂ (λ l i. set l i w') d.split (sym d.place) ∙ set-append d.before d.after d.w w';
    place = d.place;
    total = d.total;
    valid = a.valid;
    all_valid = d.all_valid;
    held = d.held;
    current =
        a.contents
        ∙ ap₂ (λ l r. l ++ r) d.current (sym (append-nil tc.infos_map))
        ∙ sym (joined-append d.chunk (tc ∷ []));
    idle = d.idle;
    dealt =
        sym (append_assoc (flatten d.chunks) d.chunk (tc ∷ [])) ∙ ap (λ l. l ++ tc ∷ []) d.dealt;
  }

  module _ (realloc : ℕ → Bool) (mem : (n : ℕ) → realloc n ≡ true) (small : per < 2 ^ 62) where
    deal_one_lem :
        (tc : TraceContainer) (done : List TraceContainer) (s : Dealing)
        → IsDealt threads done s
        → IsShared threads per s
        → IsValid tc
        → length (joined done) + tc.size ≤ 2 ^ 30
        → Returns
            (deal_one rand threads per realloc tc s)
            (λ t. IsDealt threads (done ++ tc ∷ []) t × IsShared threads per t)
    unfolding deal_one
    deal_one_lem tc done s d share v few =
        let (t, run, (d', share')) = choose_lem tc.size done s d share (omega arith) small in
        let here = get_elem?_at t.workers d'.before d'.w d'.after t.cur_thread d'.split d'.place in
        let held : d'.w.size ≤ length (joined done) = omega (
          arith,
          d'.valid.counted,
          ap length d'.current,
          ap (λ l. length (joined l)) d'.dealt,
          ap length (joined-append (flatten d'.chunks) d'.chunk),
          length-append (joined (flatten d'.chunks)) (joined d'.chunk),
        ) in
        let (w', ran, a) =
          trace_container_add_collection_lem realloc d'.w tc mem d'.valid v (omega arith) in
        let post =
          advance_lem (done ++ tc ∷ []) _
            (hand_over tc w' done t ((t.cur_thread_lines + tc.size) % 2 ^ 64) d' a) in
        (_, rw run (rw here (rw ran)), post)

    deal_all_lem :
        (tcs done : List TraceContainer) (s : Dealing)
        → IsDealt threads done s
        → IsShared threads per s
        → All IsValid tcs
        → length (joined (done ++ tcs)) ≤ 2 ^ 30
        → Returns (deal_all rand threads per realloc tcs s) (IsDealt threads (done ++ tcs))
    unfolding deal_all
    deal_all_lem [] done s d share v few = (s, refl, rw (append-nil done) d)
    deal_all_lem (tc ∷ tcs) done s d share v few =
        let n : length (joined done) + tc.size ≤ 2 ^ 30 = omega (
          arith,
          ap length (joined-append done (tc ∷ tcs)),
          length-append (joined done) (joined (tc ∷ tcs)),
          length-append tc.infos_map (joined tcs),
          v.0.counted,
        ) in
        let (t, run, post) = deal_one_lem tc done s d share v.0 n in
        let assoc = append_assoc done (tc ∷ []) tcs in
        let (u, ran, d') = deal_all_lem tcs (done ++ tc ∷ []) t post.0 post.1 v.1 (rw assoc few) in
        (u, rw run ran, rw assoc at d')

-- The function around the loop.
deal_run :
    (rand : ℕ → ℕ) (realloc : ℕ → Bool) (n valid_lines : ℕ) (tcs : List TraceContainer)
    (s : Dealing)
    → deal_all rand (suc n) (valid_lines / suc n) realloc tcs (record {
      workers = replicate (suc n) (trace_container_create default_collections_capacity 0);
      cur_thread = 0;
      cur_thread_lines = 0;
      calls = 0;
    })
      ≡ ok s
    → deal rand realloc (suc n) valid_lines tcs ≡ ok s.workers
unfolding deal
deal_run rand realloc n valid_lines tcs s run =
    let some_thread : (suc n == 0) ≡ false = ground arith in
    rw some_thread (ap (λ r. r >>= λ (t : Dealing). ok t.workers) run)

-- With memory, a worker at least and at most 2 ^ 30 infos in valid containers, dealing ends
-- whatever `rand` returns: it never indexes past the workers' array, every worker's container is
-- valid, and the workers hold consecutive stretches of the containers that together are all of
-- them.
pub deal_lem :
    (rand : ℕ → ℕ) (realloc : ℕ → Bool) (threads valid_lines : ℕ) (tcs : List TraceContainer)
    → ((n : ℕ) → realloc n ≡ true)
    → 0 < threads
    → valid_lines < 2 ^ 62
    → All IsValid tcs
    → length (joined tcs) ≤ 2 ^ 30
    → Returns (deal rand realloc threads valid_lines tcs) (Deals threads tcs)
unfolding trace_container_create
deal_lem rand realloc zero valid_lines tcs mem pos small v few = absurd (omega arith)
deal_lem rand realloc (suc n) valid_lines tcs mem pos small v few =
    let c = trace_container_create default_collections_capacity 0 in
    let (s, run, d) =
      deal_all_lem rand (suc n) (valid_lines / suc n) realloc mem (omega arith) tcs [] _
        (start-IsDealt n c (trace_container_create-IsValid 64 0 (omega arith)) refl)
        (λ ne. omega arith) v few in
    (s.workers, deal_run rand realloc n valid_lines tcs s run, finish (suc n) tcs s d)
