-- ===== src/Assign/Dealt.antt =====
-- helper/replay.c, `assign_params_per_worker`: the invariant of the dealing loop.
use mathlib.Core.List.{flatten}
use nvm_tools.Base.{
  All-join, All-snoc, ℕ, suc, ◌+◌, ◌-◌, ◌≤◌, ◌≡◌, refl, sym, ap, subst, ◌∙◌, ◌≢◌, List, [], ◌∷◌,
  ◌++◌, append-nil, append_assoc, length, length-append, length-replicate, replicate, All, arith,
}
use nvm_tools.Trace.Container.{TraceContainer, IsValid}
use nvm_tools.Assign.Chunks.{
  joined, Hold, Deals, Hold-snoc, flatten-snoc, Hold-append, Hold-idle, idle_chunks, flatten-idle,
  flatten-append, All-replicate,
}
use nvm_tools.Assign.{Dealing, next_thread}

-- `done` has been dealt: the current worker is `w`, those before it are finished and those behind
-- it are empty.
pub record IsDealt (threads : ℕ) (done : List TraceContainer) (s : Dealing) : Type 0 where
  pub before : List TraceContainer
  pub w : TraceContainer
  pub after : List TraceContainer
  pub chunks : List (List TraceContainer)
  pub chunk : List TraceContainer
  pub split : s.workers ≡ before ++ w ∷ after
  pub place : length before ≡ s.cur_thread
  pub total : length before + suc (length after) ≡ threads
  pub valid : IsValid w
  pub all_valid : All IsValid before × All IsValid after
  pub held : Hold before chunks
  pub current : w.infos_map ≡ joined chunk
  pub idle : All (λ (t : TraceContainer). t.infos_map ≡ []) after
  pub dealt : flatten chunks ++ chunk ≡ done

-- A worker that is not the last has not more than its share.
abbrev pub IsShared : ℕ → ℕ → Dealing → Type 0
IsShared threads per s = s.cur_thread ≢ threads - 1 → s.cur_thread_lines ≤ per

-- The next worker is there as long as the current one is not the last.
pub next_thread-IsDealt :
    (threads : ℕ) (done : List TraceContainer) (s : Dealing)
    → IsDealt threads done s
    → s.cur_thread ≢ threads - 1
    → IsDealt threads done (next_thread s)
next_thread-IsDealt threads done s d ne = go d.after d.split d.total d.all_valid.1 d.idle
  where
    go :
        (after : List TraceContainer)
        → s.workers ≡ d.before ++ d.w ∷ after
        → length d.before + suc (length after) ≡ threads
        → All IsValid after
        → All (λ (t : TraceContainer). t.infos_map ≡ []) after
        → IsDealt threads done (next_thread s)
    go [] split total valid idle = absurd (ne (omega (arith, d.place)))
    go (v ∷ after) split total valid idle = record {
      before = d.before ++ d.w ∷ [];
      w = v;
      after = after;
      chunks = d.chunks ++ d.chunk ∷ [];
      chunk = [];
      split = split ∙ sym (append_assoc d.before (d.w ∷ []) (v ∷ after));
      place = length-append d.before (d.w ∷ []) ∙ omega (arith, d.place);
      total = omega (arith, length-append d.before (d.w ∷ []));
      valid = valid.0;
      all_valid = (All-snoc IsValid d.before d.w d.all_valid.0 d.valid, valid.1);
      held = Hold-snoc d.before d.chunks d.w d.chunk d.held d.current;
      current = idle.0;
      idle = idle.1;
      dealt =
          append-nil (flatten (d.chunks ++ d.chunk ∷ [])) ∙ flatten-snoc d.chunks d.chunk ∙ d.dealt;
    }

-- The state is dealt whatever the number of calls of `rand` and of lines.
pub relabel-IsDealt :
    (threads : ℕ) (done : List TraceContainer) (s : Dealing) (lines calls : ℕ)
    → IsDealt threads done s
    → IsDealt threads done (record s { cur_thread_lines = lines; calls = calls })
relabel-IsDealt threads done s lines calls d = record {
  before = d.before;
  w = d.w;
  after = d.after;
  chunks = d.chunks;
  chunk = d.chunk;
  split = d.split;
  place = d.place;
  total = d.total;
  valid = d.valid;
  all_valid = d.all_valid;
  held = d.held;
  current = d.current;
  idle = d.idle;
  dealt = d.dealt;
}

pub finish :
    (threads : ℕ) (tcs : List TraceContainer) (s : Dealing)
    → IsDealt threads tcs s
    → Deals threads tcs s.workers
unfolding flatten
finish threads tcs s d = record {
  count = ap length d.split ∙ length-append d.before (d.w ∷ d.after) ∙ d.total;
  valid =
      subst (All IsValid) (sym d.split)
        (All-join IsValid d.before (d.w ∷ d.after) d.all_valid.0 (d.valid, d.all_valid.1));
  chunks = d.chunks ++ d.chunk ∷ idle_chunks d.after;
  held =
      subst (λ l. Hold l (d.chunks ++ d.chunk ∷ idle_chunks d.after)) (sym d.split)
        (Hold-append d.before (d.w ∷ d.after) d.chunks (d.chunk ∷ idle_chunks d.after) d.held
          (d.current, Hold-idle d.after d.idle));
  all_dealt =
      flatten-append d.chunks (d.chunk ∷ idle_chunks d.after)
      ∙ ap (λ l. flatten d.chunks ++ (d.chunk ++ l)) (flatten-idle d.after)
      ∙ ap (λ l. flatten d.chunks ++ l) (append-nil d.chunk)
      ∙ d.dealt;
}

pub start-IsDealt :
    (n : ℕ) (tc : TraceContainer)
    → IsValid tc
    → tc.infos_map ≡ []
    → IsDealt
        (suc n)
        []
        (record { workers = replicate (suc n) tc; cur_thread = 0; cur_thread_lines = 0; calls = 0 })
unfolding flatten
start-IsDealt n tc v e = record {
  before = [];
  w = tc;
  after = replicate n tc;
  chunks = [];
  chunk = [];
  split = refl;
  place = refl;
  total = omega (arith, length-replicate n tc);
  valid = v;
  all_valid = (tt, All-replicate IsValid n tc v);
  held = tt;
  current = e;
  idle = All-replicate (λ t. t.infos_map ≡ []) n tc e;
  dealt = refl;
}
