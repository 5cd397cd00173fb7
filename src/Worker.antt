-- ===== src/Worker.antt =====
-- helper/replay.c: `replay_worker`, which replays the hints of one worker against its file.
pub mod Blocks
pub mod Hint
pub mod Read
pub mod Dump
pub mod Effect
pub mod Whole
use nvm_tools.Base.{
  ℕ, zero, suc, ◌+◌, ◌-◌, ◌*◌, ◌%◌, ◌^◌, Bool, true, false, ◌&&◌, Option, none, some, List, [], ◌∷◌,
  ◌++◌, ◌==◌, if◌then◌else◌, length, replicate, Run, ok, exit, fault, ◌>>=◌, fetch, load, store,
}
use mathlib.Core.Bool.{not}
use nvm_tools.Trace.{TraceInfo, ReplayHint, Mode, write_only, read_write, append, blk_size}
use nvm_tools.Fill.{RandGener, fill_blk}

-- What `write` and `pwrite` return: -1, or a number of bytes.
pub data Ret : Type 0 where
  failed : Ret
  count : ℕ → Ret

-- The calls of the system that the worker makes on its file. `open create append` is the file that
-- `open` gives, with `O_CREAT | O_TRUNC` and `O_APPEND` or without, and `none` for -1; `pread file
-- n ofs` gives the bytes that were read, and `none` for -1.
pub record Os : Type 1 where
  pub File : Type 0
  pub accessible : Bool
  pub open_file : Bool → Bool → Option File
  pub pwrite : File → List ℕ → ℕ → File × Ret
  pub write : File → List ℕ → File × Ret
  pub pread : File → ℕ → ℕ → Option (List ℕ)

-- The variables that the loops change, and the bytes of the dump file.
pub record WorkerState (C F : Type 0) : Type 0 where
  pub ctx : C
  pub buf : List ℕ
  pub file : F
  pub dump : List ℕ

-- `check_ret`: both sides are converted to `int`.
unfoldable pub check_ret : Ret → ℕ → Run (Unit {0})
check_ret failed expected = if 2 ^ 32 - 1 == expected % 2 ^ 32 then ok tt else exit 1
check_ret (count n) expected = if n % 2 ^ 32 == expected % 2 ^ 32 then ok tt else exit 1

-- `hint->continuous_blks << BLK_SHIFT`.
abbrev pub hint_bytes : ReplayHint → ℕ
hint_bytes hint = hint.continuous_blks * 4096 % 2 ^ 64

-- The number of rounds up to `end_trace_line`.
abbrev pub hint_rounds : ReplayHint → ℕ
hint_rounds hint = (hint.start_trace_line + hint.continuous_blks) % 2 ^ 64 - hint.start_trace_line

-- Reading a char, `'W'`.
abbrev pub char_w : ℕ
char_w = b'W'

-- `O_APPEND` is set.
abbrev pub is_append : Mode → Bool
is_append append = true
is_append _ = false

module _ (g : RandGener) (os : Os) (slots : List TraceInfo) where
  -- `for (j = hint->start_trace_line; j < end_trace_line; j++)`, with `p` as an offset.
  pub fill_infos : ℕ → ℕ → ℕ → g.Ctx → List ℕ → Run (g.Ctx × List ℕ)
  fill_infos zero j p ctx buf = ok (ctx, buf)
  fill_infos (suc rounds) j p ctx buf = do
    info ← fetch slots j
    (ctx', buf') ← fill_blk g ctx buf p info.md5 (length info.md5)
    fill_infos rounds (j + 1) (p + blk_size) ctx' buf'

  -- The body that writes one hint at the offset of its first info.
  unfoldable pub pwrite_hint :
      ReplayHint → WorkerState g.Ctx os.File → Run (WorkerState g.Ctx os.File)
  unfolding fill_infos check_ret
  pwrite_hint hint s = do
    (ctx, buf) ← fill_infos (hint_rounds hint) hint.start_trace_line 0 s.ctx s.buf
    first ← fetch slots hint.start_trace_line
    bytes ← load buf 0 (hint_bytes hint)
    let (file, ret) = os.pwrite s.file bytes first.ofs
    _ ← check_ret ret (hint_bytes hint)
    ok (record s { ctx = ctx; buf = buf; file = file })

  -- The body that appends one hint.
  unfoldable pub append_hint :
      ReplayHint → WorkerState g.Ctx os.File → Run (WorkerState g.Ctx os.File)
  unfolding fill_infos check_ret
  append_hint hint s = do
    (ctx, buf) ← fill_infos (hint_rounds hint) hint.start_trace_line 0 s.ctx s.buf
    bytes ← load buf 0 (hint_bytes hint)
    let (file, ret) = os.write s.file bytes
    _ ← check_ret ret (hint_bytes hint)
    ok (record s { ctx = ctx; buf = buf; file = file })

  -- `while (done != blk_size)`: the number of bytes read, and the buffer. Each round but the last
  -- reads a byte at least.
  pub read_loop : ℕ → os.File → List ℕ → ℕ → ℕ → ℕ → Run (ℕ × List ℕ)
  read_loop zero file buf size ofs done = fault
  read_loop (suc f) file buf size ofs done = elim (done == size) [
    | true ↦ ok (done, buf)
    | false ↦ elim (os.pread file (size - done) ((ofs + done) % 2 ^ 64)) [
      | none ↦ exit 1
      | some [] ↦ ok (done, buf)
      | some (b ∷ bs) ↦ do
        buf' ← store buf done (b ∷ bs)
        read_loop f file buf' size ofs (done + length (b ∷ bs))
    ]
  ]

  -- The body that reads one hint.
  unfoldable pub read_hint :
      Bool → ReplayHint → WorkerState g.Ctx os.File → Run (WorkerState g.Ctx os.File)
  unfolding read_loop
  read_hint is_dump_read hint s = do
    let size = hint_bytes hint
    first ← fetch slots hint.start_trace_line
    (done, buf) ← read_loop (size + 1) s.file s.buf size first.ofs 0
    buf' ← store buf done (replicate (size - done) 0)
    bytes ← load buf' 0 size
    ok (record s { buf = buf'; dump = if is_dump_read then s.dump ++ bytes else s.dump })

  -- What the mode makes of one hint.
  unfoldable pub replay_hint :
      Mode → Bool → ReplayHint → WorkerState g.Ctx os.File → Run (WorkerState g.Ctx os.File)
  unfolding pwrite_hint append_hint read_hint
  replay_hint write_only is_dump_read hint s = pwrite_hint hint s
  replay_hint append is_dump_read hint s = append_hint hint s
  replay_hint read_write is_dump_read hint s =
      if hint.rw == char_w then pwrite_hint hint s else read_hint is_dump_read hint s

  -- `for (i = hints_start; i < hints_end; i++)`, with `rounds` rounds left.
  pub replay_from :
      Mode
      → Bool
      → List ReplayHint
      → ℕ
      → ℕ
      → WorkerState g.Ctx os.File
      → Run (WorkerState g.Ctx os.File)
  replay_from mode is_dump_read hints zero i s = ok s
  replay_from mode is_dump_read hints (suc rounds) i s = do
    hint ← fetch hints i
    s' ← replay_hint mode is_dump_read hint s
    replay_from mode is_dump_read hints rounds (i + 1) s'

  -- The worker. `fopens` says whether the dump file can be opened; reading and writing stop with
  -- the worker, so `fclose` and `close` leave nothing to model.
  unfoldable pub replay_worker :
      Mode
      → Bool
      → Bool
      → List ReplayHint
      → ℕ
      → ℕ
      → g.Ctx
      → List ℕ
      → Run (WorkerState g.Ctx os.File)
  unfolding replay_from replay_hint
  replay_worker mode is_dump_read fopens hints hints_start hints_end ctx buf =
      if is_dump_read && not fopens
      then exit 1
      else elim (os.open_file (not os.accessible) (is_append mode)) [
        | none ↦ exit 1
        | some file ↦
            replay_from mode is_dump_read hints (hints_end - hints_start) hints_start
              (record { ctx = ctx; buf = buf; file = file; dump = [] })
      ]
