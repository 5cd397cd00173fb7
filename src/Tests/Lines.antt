-- ===== src/Tests/Lines.antt =====
-- A whole replay of two lines with two workers.
use nvm_tools.Base.{
  ℕ, ◌*◌, ◌<◌, ◌≡◌, refl, sym, subst, ◌∙◌, true, false, Option, none, some, List, [], ◌∷◌, length,
  length-replicate, replicate, All, Run, ok, exit, fault, Returns, arith,
}
use mathlib.Core.List.{Perm}
use mathlib.Core.List.Perm
use nvm_tools.Trace.{TraceInfo, write_only}
use nvm_tools.Trace.Container.{
  TraceContainer, trace_container_create, trace_container_add, trace_container_add_collection,
}
use nvm_tools.Parse.{
  Strings, TraceFormat, FiuLine, HitszLine, replay_hitsz, strip, parse_trace_info,
}
use nvm_tools.Build.{Gathering, build_trace_containers}
use nvm_tools.Options.{Config, GenerType, random_mt19937ar, random_stdlib, random_lcg, random_null}
use nvm_tools.Worker.Hint.{IsReplayable}
use nvm_tools.Assign.{deal}
use nvm_tools.Replay.{System, gather_map, gather_trace, replay_trace, gener_for}
use nvm_tools.Twister.Gener.{MtContext}
use nvm_tools.MapSort.Chain.{sort_buckets}
use nvm_tools.Replay.Whole.{Replayed, replay_trace_lem}
use nvm_tools.Tests.Data.{digest, digest-IsDigest, box}
use nvm_tools.Tests.Disk.{log_os, log_os-IsRegular}
use nvm_tools.Tests.Inputs.{list_map, list_map-IsLbaMap}

-- A line is one character, which is the time stamp, and eight times which is the block address.
abbrev scan_line : List ℕ → Option HitszLine
scan_line [] = none
scan_line (c ∷ l) = some (record { ts = c; fid = 7; lba = 8 * c })

-- The digest is the same in all lines.
abbrev strings : TraceFormat → List ℕ → Strings
strings format line = record { pname = []; md5 = digest }

abbrev scan_nothing : List ℕ → Option FiuLine
scan_nothing l = none

abbrev parsed : ℕ → TraceInfo
parsed c = record {
  ts = c;
  pid = 7;
  lba = 8 * c;
  ofs = 8 * c * 512;
  blks = 8;
  rw = b'W';
  major = 0;
  minor = 0;
  md5 = digest;
}

abbrev blank : MtContext
blank = record {
  state = record { mt = replicate 624 0; mti = 0 };
  whole = length-replicate {A = ℕ} 624 0;
}

abbrev contexts : (type : GenerType) → (gener_for (λ s. (s, s)) type).Ctx
contexts random_mt19937ar = blank
contexts random_stdlib = 0
contexts random_lcg = 0
contexts random_null = tt

abbrev machine : System
machine = record {
  strings = strings;
  scan_fiu = scan_nothing;
  scan_hitsz = scan_line;
  memory = λ i. parsed 0;
  hashmap = list_map;
  rand = λ n. 0;
  rand_r = λ s. (s, s);
  realloc = λ n. true;
  malloc = λ n. replicate n 0;
  malloc_fails = false;
  malloc_ctx = contexts;
  os = log_os;
  fopens = true;
}

abbrev settings : Config
settings = record {
  filepath = b't' ∷ [];
  dstpath = b'/' ∷ [];
  dump_read_path = [];
  is_dump_read = false;
  mode = write_only;
  rand_gener_type = random_stdlib;
  trace_format_type = replay_hitsz;
  max_continuous_blks = 2;
  threads = 2;
  verbose = true;
}

abbrev two_lines : List (List ℕ)
two_lines = (2 ∷ 10 ∷ []) ∷ (1 ∷ 10 ∷ []) ∷ []

abbrev two_boxes : List TraceContainer
two_boxes = box 16 (parsed 2 ∷ []) ∷ box 8 (parsed 1 ∷ []) ∷ []

abbrev two_buckets : Gathering (List (ℕ × ℕ))
two_buckets = record { map = (16, 0) ∷ (8, 1) ∷ []; heap = two_boxes }

mapped : gather_map machine settings two_lines ≡ ok (parsed 2 ∷ parsed 1 ∷ [], two_buckets)
unfolding gather_map parse_trace_info strip build_trace_containers trace_container_create
    trace_container_add
mapped = refl

-- The buckets stay in their order.
unsorted : sort_buckets ((16, 0) ∷ (8, 1) ∷ []) ≡ ok ((16, 0) ∷ (8, 1) ∷ [])
unfolding sort_buckets
unsorted = refl

abbrev SortsBuckets : Run (List TraceInfo × Gathering (List (ℕ × ℕ))) → Type 0
SortsBuckets (ok (infos, s)) = Returns (sort_buckets s.map) (Perm s.map)
SortsBuckets (exit n) = Unit
SortsBuckets fault = Unit

sorts :
    (infos : List TraceInfo) (s : Gathering (List (ℕ × ℕ)))
    → gather_map machine settings two_lines ≡ ok (infos, s)
    → Returns (sort_buckets s.map) (Perm s.map)
sorts infos s e = subst SortsBuckets (sym mapped ∙ e) ((16, 0) ∷ (8, 1) ∷ [], unsorted, Perm.rfl)

gathered : gather_trace machine settings two_lines ≡ ok (parsed 2 ∷ parsed 1 ∷ [], two_boxes)
unfolding gather_trace
gathered = rw mapped (rw unsorted refl)

parsed-IsReplayable : (c : ℕ) → c < 100 → IsReplayable (parsed c)
parsed-IsReplayable c h = record {
  digest = digest-IsDigest;
  placed = record { at_lba = refl; low = omega arith };
}

-- All infos of the result can be replayed.
abbrev GoodInfos : Run (List TraceInfo × List TraceContainer) → Type 0
GoodInfos (ok (infos, tcs)) = All IsReplayable infos
GoodInfos (exit n) = Unit
GoodInfos fault = Unit

good :
    (infos : List TraceInfo) (tcs : List TraceContainer)
    → gather_trace machine settings two_lines ≡ ok (infos, tcs)
    → All IsReplayable infos
good infos tcs e =
    subst GoodInfos (sym gathered ∙ e)
      (parsed-IsReplayable 2 (omega arith), (parsed-IsReplayable 1 (omega arith), tt))

-- No worker that is dealt these containers is left without an info.
abbrev Busy : Run (List TraceContainer) → Type 0
Busy (ok ws) = All (λ (w : TraceContainer). 0 < w.size) ws
Busy (exit n) = Unit
Busy fault = Unit

abbrev BusyInfos : Run (List TraceInfo × List TraceContainer) → Type 0
BusyInfos (ok (infos, tcs)) = Busy (deal (λ n. 0) (λ n. true) 2 (length infos) tcs)
BusyInfos (exit n) = Unit
BusyInfos fault = Unit

dealt :
    deal (λ n. 0) (λ n. true) 2 2 two_boxes
    ≡ ok (box 0 (parsed 2 ∷ []) ∷ box 0 (parsed 1 ∷ []) ∷ [])
unfolding deal trace_container_add_collection trace_container_create
dealt = refl

busy :
    (infos : List TraceInfo) (tcs ws : List TraceContainer)
    → gather_trace machine settings two_lines ≡ ok (infos, tcs)
    → deal (λ n. 0) (λ n. true) 2 (length infos) tcs ≡ ok ws
    → All (λ (w : TraceContainer). 0 < w.size) ws
busy infos tcs ws e d =
    let shared = subst Busy (sym dealt) (omega arith, (omega arith, tt)) in
    subst Busy d (subst BusyInfos (sym gathered ∙ e) shared)

replay_trace_example : Returns (replay_trace machine settings two_lines) (λ states.
    (infos : List TraceInfo) × (parse_trace_info strings scan_nothing scan_line
        (λ i. parsed 0)
        write_only
        replay_hitsz
        false
        two_lines
      ≡ ok infos)
    × Replayed machine settings [] infos states)
replay_trace_example =
    replay_trace_lem machine settings two_lines [] list_map-IsLbaMap sorts (λ n. refl)
      (λ n. length-replicate {A = ℕ} n 0) refl log_os-IsRegular refl refl (omega arith)
      (omega arith) refl (omega arith) ((omega arith, refl), ((omega arith, refl), tt))
      (omega arith) good busy
