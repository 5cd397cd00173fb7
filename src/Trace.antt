-- ===== src/Trace.antt =====
-- helper/replay.c: the trace record, the replay hint and the trace container with its operations.
pub mod Container
use nvm_tools.Base.{ℕ, ◌*◌, ◌%◌, ◌^◌, List}

-- `struct trace_info`. The union of `pid` and `fid` is one field; a `char` is its code, and `md5`
-- holds the codes before the terminating zero.
pub record TraceInfo : Type 0 where
  pub ts : ℕ
  pub pid : ℕ
  pub lba : ℕ
  pub ofs : ℕ
  pub blks : ℕ
  pub rw : ℕ
  pub major : ℕ
  pub minor : ℕ
  pub md5 : List ℕ

-- `struct trace_replay_hint`.
pub record ReplayHint : Type 0 where
  pub continuous_blks : ℕ
  pub start_trace_line : ℕ
  pub rw : ℕ

-- The replay modes of `-o`.
pub data Mode : Type 0 where
  write_only read_write append : Mode

-- `BLK_SIZE`.
abbrev pub blk_size : ℕ
blk_size = 4096

-- `lba << 9` on `unsigned long`.
abbrev pub ofs_of_lba : ℕ → ℕ
ofs_of_lba lba = lba * 512 % 2 ^ 64
