-- ===== src/Replay/Whole.antt =====
-- helper/replay.c as a whole: from the lines of a trace to the files of the workers.
use nvm_tools.Paths.{trace_name, dump_name}
use nvm_tools.Base.{
  ◌+◌, ◌++◌, inl, inr, Bool-cases, All-Perm, length-Perm, ℕ, ◌^◌, ◌<◌, ◌≤◌, ◌≡◌, refl, ap, subst,
  ◌∙◌, true, false, ◌&&◌, some, List, [], ◌∷◌, length, All, ok, Returns, arith,
}
use mathlib.Core.List.{Perm, flatten}
use mathlib.Core.List.Perm
use native.Mathlib.Bridge.{le_prop}
use mathlib.Core.Bool.{not}
use nvm_tools.Worker.{is_append}
use nvm_tools.Trace.{TraceInfo, ReplayHint}
use nvm_tools.Trace.Container.{TraceContainer, IsValid}
use nvm_tools.Sort.Interleave.{IsSorted}
use nvm_tools.Parse.{parse_trace_info}
use nvm_tools.Parse.Laws.{IsLine, parse_trace_info_lem}
use nvm_tools.Paths.Laws.{dstfilepath-Returns, drfilepath-Returns}
use nvm_tools.MapSort.Chain.{sort_buckets}
use nvm_tools.Build.{Gathering}
use nvm_tools.Build.{IsLbaMap}
use nvm_tools.Build.Laws.{build_trace_containers_lem}
use nvm_tools.Worker.Hint.{IsRegular, IsReplayable}
use nvm_tools.Worker.Effect.{effect}
use nvm_tools.Assign.{ReplayParam, deal}
use nvm_tools.Assign.Chunks.{joined}
use nvm_tools.Assign.Reorder.{joined-Perm}
use nvm_tools.Assign.Whole.{IsReplayable-prop, Replays, replay_lem}
use nvm_tools.Options.{Config}
use nvm_tools.Replay.{
  System, gather_map, worker_paths, gather_trace, StateOf, run_workers, replay_trace, gener_for,
}
use nvm_tools.Replay.Gener.{is_lcg, gener_for-IsReseeding}
use nvm_tools.Replay.Buckets.{bucket_containers_lem}
use nvm_tools.Replay.Shares.{joined-Hold, shares, length-shares, shares-Perm, shares-IsSorted}
use nvm_tools.Replay.Affinity.{
  OneWorker, WholeEach, hits, reordered-WholeEach, containers-WholeEach, shares-OneWorker,
}
use nvm_tools.Replay.Checks.{check_params_lem}

IsValid-prop : (t : TraceContainer) → IsProp (IsValid t)
IsValid-prop t = hlevel (le_prop)

module _ (sys : System) (c : Config) where
  -- The files hold what replaying the infos one by one makes of the file that was opened.
  abbrev pub Files : sys.os.File → List (List TraceInfo) → List (StateOf sys c) → Type 0
  Files file [] [] = Unit
  Files file [] (s ∷ ss) = ⊥
  Files file (xs ∷ xss) [] = ⊥
  Files file (xs ∷ xss) (s ∷ ss) =
      (s.file
        ≡ effect (gener_for sys.rand_r c.rand_gener_type) (sys.malloc_ctx c.rand_gener_type) sys.os
            c.mode file xs)
      × Files file xss ss

  -- The workers have shared the infos out, those of one block address to one worker, each has put
  -- its own in order of time, and they are in the files.
  pub record Replayed (file : sys.os.File) (infos : List TraceInfo) (states : List (StateOf sys c))
      : Type 0 where
    pub workers : List (List TraceInfo)
    pub count : length workers ≡ c.threads
    pub all_infos : Perm (flatten workers) infos
    pub in_time : All IsSorted workers
    pub one_worker : (k : ℕ) → OneWorker k workers
    pub files : Files file workers states

  abbrev Works : sys.os.File → List ReplayHint → List ReplayParam → Type 0
  Works file hints ps =
      All
        (Replays (gener_for sys.rand_r c.rand_gener_type) (sys.malloc_ctx c.rand_gener_type) sys.os
          c.mode c.is_dump_read sys.fopens sys.malloc file hints)
        ps

  run_workers_lem :
      (file : sys.os.File) (hints : List ReplayHint) (ps : List ReplayParam)
      → Works file hints ps
      → Returns (run_workers sys c hints ps) (Files file (shares ps))
  unfolding run_workers
  run_workers_lem file hints [] a = ([], refl, tt)
  run_workers_lem file hints (p ∷ ps) a =
      let (s, run, e) = a.0 in
      let (ss, ran, rest) = run_workers_lem file hints ps a.1 in
      (s ∷ ss, rw run (rw ran refl), (e, rest))

  -- What the containers hold, in the order of the sorted map.
  pub record GathersTrace (lines : List (List ℕ)) (infos : List TraceInfo)
      (tcs : List TraceContainer) : Type 0 where
    pub parses :
        parse_trace_info sys.strings sys.scan_fiu sys.scan_hitsz sys.memory c.mode
          c.trace_format_type sys.malloc_fails lines
        ≡ ok infos
    pub bounded : length infos ≤ length lines
    pub valid : All IsValid tcs
    pub all_infos : Perm (joined tcs) infos
    pub whole_each : (k : ℕ) → WholeEach k (hits k infos) tcs

  worker_paths_lem :
      (i : ℕ) (ps : List ReplayParam)
      → length c.dstpath < 230
      → length c.dump_read_path < 226
      → Returns (worker_paths c i ps) (λ paths. Unit {0})
  unfolding worker_paths
  worker_paths_lem i [] short short' = ([], refl, tt)
  worker_paths_lem i (p ∷ ps) short short' =
      let (rest, run, u) = worker_paths_lem (i + 1) ps short short' in
      let file = dstfilepath-Returns c.dstpath i short in
      elim (Bool-cases c.is_dump_read) [
        | inl dumps ↦
            let dump = drfilepath-Returns c.dump_read_path i short' in
            (
              (c.dstpath ++ trace_name i, c.dump_read_path ++ dump_name i) ∷ rest,
              rw file (rw dumps (rw dump (rw run refl))),
              tt,
            )
        | inr off ↦ ((c.dstpath ++ trace_name i, []) ∷ rest, rw file (rw off (rw run refl)), tt)
      ]

  gather_trace_lem :
      (lines : List (List ℕ))
      → IsLbaMap sys.hashmap
      → ((infos : List TraceInfo) (s : Gathering sys.hashmap.Map)
          → gather_map sys c lines ≡ ok (infos, s)
          → Returns (sort_buckets (sys.hashmap.buckets s.map)) (Perm (sys.hashmap.buckets s.map)))
      → ((n : ℕ) → sys.realloc n ≡ true)
      → sys.malloc_fails ≡ false
      → All
          (IsLine sys.strings sys.scan_fiu sys.scan_hitsz sys.memory c.mode c.trace_format_type)
          lines
      → length lines ≤ 2 ^ 30
      → Returns (gather_trace sys c lines) (λ r. GathersTrace lines r.0 r.1)
  unfolding gather_trace
  gather_trace_lem lines map sorts mem array filled few =
      let (infos, parsed, p) =
        parse_trace_info_lem sys.strings sys.scan_fiu sys.scan_hitsz sys.memory c.mode
          c.trace_format_type lines filled in
      let parses = rw (← array) at parsed in
      let (s, built, b) =
        build_trace_containers_lem sys.hashmap map sys.realloc mem infos (length infos) refl
          (omega (arith, p.bounded)) in
      let made : gather_map sys c lines ≡ ok (infos, s) = rw (gather_map, parses) (rw built refl) in
      let (sorted, left, kept) = sorts infos s made in
      let buckets = subst (λ l. Perm l sorted) b.in_order kept in
      let (tcs, found, same) = bucket_containers_lem s.heap sorted buckets in
      (
        (infos, tcs),
        rw made (rw left (rw found refl)),
        record {
          parses = parses;
          bounded = p.bounded;
          valid = All-Perm IsValid IsValid-prop s.heap tcs same b.valid;
          all_infos = Perm.trans (Perm.symm (joined-Perm s.heap tcs same)) b.all_infos;
          whole_each = λ k.
              reordered-WholeEach k (hits k infos) s.heap tcs same
                (containers-WholeEach k infos s.heap b.by_lba);
        },
      )

  -- If no line of the trace is empty, the strings of each fit their arrays and there are at most 2
  -- ^ 30 lines, the map keeps its contract and `hashmap_sort` on this trace's map ends and leaves
  -- its buckets in some order, memory is granted, `open` and the dump file succeed, reads succeed,
  -- writes are complete and two neighbouring ones are as one, the directories of `-d` and `-r`
  -- have fewer than 230 and 226 characters, the generator is not `lcg`, there is a worker, every
  -- info of the trace can be replayed and no worker is left without one, then the program ends
  -- behind its options, with or without the checks of `-v`: the infos that the parser accepts are
  -- shared out among the workers, none is lost or doubled, those of one block address go to one
  -- worker, each worker has its own in order of time, and its file is as if each of its infos had
  -- been replayed alone, in that order.
  pub replay_trace_lem :
      (lines : List (List ℕ)) (file : sys.os.File)
      → IsLbaMap sys.hashmap
      → ((infos : List TraceInfo) (s : Gathering sys.hashmap.Map)
          → gather_map sys c lines ≡ ok (infos, s)
          → Returns (sort_buckets (sys.hashmap.buckets s.map)) (Perm (sys.hashmap.buckets s.map)))
      → ((n : ℕ) → sys.realloc n ≡ true)
      → ((n : ℕ) → length (sys.malloc n) ≡ n)
      → sys.malloc_fails ≡ false
      → IsRegular sys.os
      → (c.is_dump_read && not sys.fopens) ≡ false
      → sys.os.open_file (not sys.os.accessible) (is_append c.mode) ≡ some file
      → length c.dstpath < 230
      → length c.dump_read_path < 226
      → is_lcg c.rand_gener_type ≡ false
      → 0 < c.threads
      → All
          (IsLine sys.strings sys.scan_fiu sys.scan_hitsz sys.memory c.mode c.trace_format_type)
          lines
      → length lines ≤ 2 ^ 30
      → ((infos : List TraceInfo) (tcs : List TraceContainer)
          → gather_trace sys c lines ≡ ok (infos, tcs)
          → All IsReplayable infos)
      → ((infos : List TraceInfo) (tcs ws : List TraceContainer)
          → gather_trace sys c lines ≡ ok (infos, tcs)
          → deal sys.rand sys.realloc c.threads (length infos) tcs ≡ ok ws
          → All (λ (w : TraceContainer). 0 < w.size) ws)
      → Returns (replay_trace sys c lines) (λ states.
        (infos : List TraceInfo) × (parse_trace_info sys.strings sys.scan_fiu sys.scan_hitsz
            sys.memory c.mode c.trace_format_type sys.malloc_fails lines
          ≡ ok infos)
        × Replayed file infos states)
  unfolding replay_trace
  replay_trace_lem lines file map sorts mem size array regular dumps opens short short' gener pos
        filled few good busy =
      let ((infos, tcs), gathered, g) = gather_trace_lem lines map sorts mem array filled few in
      let replayable =
        All-Perm IsReplayable IsReplayable-prop infos (joined tcs) (Perm.symm g.all_infos)
          (good infos tcs gathered) in
      let ((ps, hints), assigned, (ws, d, x, works)) =
        replay_lem (gener_for sys.rand_r c.rand_gener_type) (sys.malloc_ctx c.rand_gener_type)
          sys.os c.mode c.is_dump_read sys.fopens sys.malloc file regular
          (gener_for-IsReseeding sys.rand_r c.rand_gener_type gener) size dumps opens sys.rand
          sys.realloc c.threads c.max_continuous_blks (length infos) tcs mem pos
          (omega (arith, g.bounded)) g.valid
          (omega (arith, length-Perm (joined tcs) infos g.all_infos)) replayable
          (λ ws e. busy infos tcs ws gathered e) in
      let (paths, named, u) = worker_paths_lem 0 ps short short' in
      let (states, run, files) = run_workers_lem file hints ps works in
      let checked = check_params_lem c.verbose c.max_continuous_blks ws [] ps hints x in
      (
        states,
        rw gathered (rw assigned (rw named (rw checked (rw run refl)))),
        (
          infos,
          g.parses,
          record {
            workers = shares ps;
            count = length-shares c.max_continuous_blks ws [] ps hints x ∙ d.count;
            all_infos =
                Perm.trans (shares-Perm c.max_continuous_blks ws [] ps hints x)
                  (rw (joined-Hold ws d.chunks d.held ∙ ap joined d.all_dealt) g.all_infos);
            one_worker = λ k.
                shares-OneWorker k c.max_continuous_blks infos tcs ws d.chunks ps hints
                  (g.whole_each k) g.all_infos d.held d.all_dealt x;
            in_time = shares-IsSorted c.max_continuous_blks ws [] ps hints x;
            files = files;
          },
        ),
      )
