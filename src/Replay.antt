-- ===== src/Replay.antt =====
-- helper/replay.c: `check_param_per_worker`, the switch over the generators in
-- `assign_params_per_worker`, and the parts of the program as `main` puts them together, behind its
-- options.
pub mod Gener
pub mod Buckets
pub mod Shares
pub mod Affinity
pub mod Checks
pub mod Whole
use nvm_tools.Base.{
  ℕ, zero, suc, ◌+◌, ◌-◌, Bool, true, false, Option, List, [], ◌∷◌, ◌==◌, if◌then◌else◌, length,
  Run, ok, exit, ◌>>=◌, fetch,
}
use nvm_tools.Trace.{TraceInfo, ReplayHint, Mode}
use nvm_tools.Trace.Container.{TraceContainer}
use nvm_tools.Parse.{TraceFormat, Strings, FiuLine, HitszLine, parse_trace_info}
use nvm_tools.Paths.{dstfilepath, drfilepath}
use nvm_tools.MapSort.Chain.{sort_buckets}
use nvm_tools.Build.{LbaMap, Gathering, build_trace_containers}
use nvm_tools.Fill.{RandGener, lcg_gener, stdlib_gener, null_gener}
use nvm_tools.Twister.Gener.{mt19937ar_gener}
use nvm_tools.Options.{Config, GenerType, random_mt19937ar, random_stdlib, random_lcg, random_null}
use nvm_tools.Worker.{Os, WorkerState, replay_worker}
use nvm_tools.Assign.{ReplayParam, assign_params_per_worker}

-- `switch (rand_gener_type)`.
abbrev pub gener_for : (ℕ → ℕ × ℕ) → GenerType → RandGener
gener_for rand_r random_mt19937ar = mt19937ar_gener
gener_for rand_r random_stdlib = stdlib_gener rand_r
gener_for rand_r random_lcg = lcg_gener
gener_for rand_r random_null = null_gener

-- `check_param_per_worker`, with `rounds` rounds left at `i`; what it prints is left out.
pub check_hints_from : List ReplayHint → ℕ → ℕ → Run (Unit {0})
check_hints_from hints zero i = ok tt
check_hints_from hints (suc rounds) i = do
  hint ← fetch hints i
  if hint.continuous_blks == 0 then exit 1 else check_hints_from hints rounds (i + 1)

unfoldable pub check_param_per_worker : List ReplayHint → ReplayParam → Run (Unit {0})
unfolding check_hints_from
check_param_per_worker hints param =
    check_hints_from hints (param.hints_end - param.hints_start) param.hints_start

-- The containers that the values of the buckets point to.
pub bucket_containers : List TraceContainer → List (ℕ × ℕ) → Run (List TraceContainer)
bucket_containers heap [] = ok []
bucket_containers heap ((key, value) ∷ buckets) = do
  tc ← fetch heap value
  tcs ← bucket_containers heap buckets
  ok (tc ∷ tcs)

-- What the program is given from outside: `sscanf`, the hash map, the C library's
-- random numbers, memory, and the files.
pub record System : Type 1 where
  pub strings : TraceFormat → List ℕ → Strings
  pub scan_fiu : List ℕ → Option FiuLine
  pub scan_hitsz : List ℕ → Option HitszLine
  pub memory : ℕ → TraceInfo
  pub hashmap : LbaMap
  pub rand : ℕ → ℕ
  pub rand_r : ℕ → ℕ × ℕ
  pub realloc : ℕ → Bool
  pub malloc : ℕ → List ℕ
  pub malloc_fails : Bool
  pub malloc_ctx : (type : GenerType) → (gener_for rand_r type).Ctx
  pub os : Os
  pub fopens : Bool

-- `parse_trace_info` and `build_trace_containers`.
unfoldable pub gather_map :
    (sys : System) → Config → List (List ℕ) → Run (List TraceInfo × Gathering sys.hashmap.Map)
gather_map sys c lines = do
  infos ←
      parse_trace_info sys.strings sys.scan_fiu sys.scan_hitsz sys.memory c.mode c.trace_format_type
        sys.malloc_fails lines
  s ← build_trace_containers sys.hashmap sys.realloc infos (length infos)
  ok (infos, s)

-- The containers in the order in which `assign_params_per_worker` meets them, behind `hashmap_sort`.
unfoldable pub gather_trace :
    System → Config → List (List ℕ) → Run (List TraceInfo × List TraceContainer)
unfolding bucket_containers gather_map
gather_trace sys c lines = do
  (infos, s) ← gather_map sys c lines
  sorted ← sort_buckets (sys.hashmap.buckets s.map)
  tcs ← bucket_containers s.heap sorted
  ok (infos, tcs)

-- The paths of the workers from number `i` on, in arrays of `MAX_NAME_LEN` characters. The loop of
-- `assign_params_per_worker` that makes them reads and writes nothing else on their account.
pub worker_paths : Config → ℕ → List ReplayParam → Run (List (List ℕ × List ℕ))
worker_paths c i [] = ok []
worker_paths c i (p ∷ ps) = do
  file ← dstfilepath c.dstpath i
  dump ← elim c.is_dump_read [ true ↦ drfilepath c.dump_read_path i | false ↦ ok [] ]
  rest ← worker_paths c (i + 1) ps
  ok ((file, dump) ∷ rest)

-- `DEBUG_INFO(verbose, check_param_per_worker(param, i))`. A worker's hints stay as they are once
-- they are written, so the checks of all workers can be made behind the loop.
unfoldable pub check_params : Bool → List ReplayHint → List ReplayParam → Run (Unit {0})
unfolding check_param_per_worker
check_params verbose hints [] = ok tt
check_params verbose hints (p ∷ ps) =
    let rest = check_params verbose hints ps in
    if verbose then check_param_per_worker hints p >>= (λ u. rest) else rest

-- The variables that a worker of this configuration changes.
abbrev pub StateOf : System → Config → Type 0
StateOf sys c = WorkerState (gener_for sys.rand_r c.rand_gener_type).Ctx sys.os.File

-- The threads. What one of them writes, its file, its buffer and the state of its generator, no
-- other reads, so that they can be run one behind the other.
pub run_workers :
    (sys : System) (c : Config) → List ReplayHint → List ReplayParam → Run (List (StateOf sys c))
run_workers sys c hints [] = ok []
run_workers sys c hints (p ∷ ps) = do
  s ←
      replay_worker (gener_for sys.rand_r c.rand_gener_type) sys.os p.tc.infos_map c.mode
        c.is_dump_read sys.fopens hints p.hints_start p.hints_end (sys.malloc_ctx c.rand_gener_type)
        (sys.malloc p.buf_size)
  ss ← run_workers sys c hints ps
  ok (s ∷ ss)

-- What `main` does behind the options, up to the end of the last thread.
unfoldable pub replay_trace :
    (sys : System) (c : Config) → List (List ℕ) → Run (List (StateOf sys c))
unfolding gather_trace check_params run_workers worker_paths
replay_trace sys c lines = do
  (infos, tcs) ← gather_trace sys c lines
  (params, hints) ←
      assign_params_per_worker sys.rand sys.realloc c.threads c.max_continuous_blks (length infos)
        tcs
  _ ← worker_paths c 0 params
  _ ← check_params c.verbose hints params
  run_workers sys c hints params
