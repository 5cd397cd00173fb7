-- ===== src/Parse.antt =====
-- helper/replay.c, `parse_trace_info`: the lines of a trace file become an array of infos. What
-- `fgets` gives is a list of lines, and `sscanf` on one of them is a parameter for each format.
pub mod Laws
use nvm_tools.Base.{
  ℕ, ◌+◌, Bool, true, ◌&&◌, Option, none, some, List, [], ◌∷◌, ◌++◌, ltb, ◌==◌, if◌then◌else◌,
  length, Run, ok, exit, fault, ◌>>=◌,
}
use nvm_tools.Trace.{TraceInfo, Mode, write_only, read_write, append, ofs_of_lba}
use nvm_tools.Worker.{char_w}

-- `enum` of the trace formats of `-m`.
pub data TraceFormat : Type 0 where
  replay_fiu replay_hitsz : TraceFormat

-- What the conversions `%s` of a line store to `pname` and `md5`: nothing where `sscanf` stops in
-- front of them, or where the format has no name.
pub record Strings : Type 0 where
  pub pname : List ℕ
  pub md5 : List ℕ

-- The numbers and the character that a FIU line with all nine conversions sets.
pub record FiuLine : Type 0 where
  pub ts : ℕ
  pub pid : ℕ
  pub lba : ℕ
  pub blks : ℕ
  pub rw : ℕ
  pub major : ℕ
  pub minor : ℕ

-- The numbers that a HITSZ line with all four conversions sets.
pub record HitszLine : Type 0 where
  pub ts : ℕ
  pub fid : ℕ
  pub lba : ℕ

-- The info that a line of each format makes; a HITSZ line leaves `major` and `minor` as they are.
abbrev pub fiu_info : List ℕ → FiuLine → TraceInfo
fiu_info md5 f = record {
  ts = f.ts;
  pid = f.pid;
  lba = f.lba;
  ofs = ofs_of_lba f.lba;
  blks = f.blks;
  rw = f.rw;
  major = f.major;
  minor = f.minor;
  md5 = md5;
}

abbrev pub hitsz_info : TraceInfo → List ℕ → HitszLine → TraceInfo
hitsz_info old md5 f = record old {
  ts = f.ts;
  pid = f.fid;
  lba = f.lba;
  ofs = ofs_of_lba f.lba;
  blks = 8;
  rw = char_w;
  md5 = md5;
}

-- The test of the mode on an info of the FIU format.
abbrev pub keeps : Mode → ℕ → Bool
keeps read_write rw = true
keeps write_only rw = rw == char_w
keeps append rw = rw == char_w

-- `line[strlen(line) - 1] = '\0'`, before the array for an empty line.
unfoldable pub strip : List ℕ → Run (List ℕ)
strip [] = fault
strip (c ∷ []) = ok []
strip (c ∷ d ∷ line) = do rest ← strip (d ∷ line); ok (c ∷ rest)

-- `infos[i]` is written, in an array of `limit` infos, and `i` counted up.
unfoldable pub keep_info : ℕ → List TraceInfo → TraceInfo → Run (List TraceInfo)
keep_info limit infos x = if ltb (length infos) limit then ok (infos ++ x ∷ []) else fault

-- A line that counts for nothing leaves the array, as far as it is written, as it is.
unfoldable pub take_info : ℕ → Option TraceInfo → List TraceInfo → Run (List TraceInfo)
unfolding keep_info
take_info limit none infos = ok infos
take_info limit (some x) infos = keep_info limit infos x

-- `char pname[256]` and `char md5[257]`, which `%s` fills with no bound, and a terminating zero.
abbrev pub strings_fit : Strings → Bool
strings_fit w = ltb (length w.pname) 256 && ltb (length w.md5) 257

-- `none` where `sscanf` makes fewer conversions than there are fields; `memory i` is what the
-- array holds at `i` before the line is read.
module _ (strings : TraceFormat → List ℕ → Strings) (scan_fiu : List ℕ → Option FiuLine)
    (scan_hitsz : List ℕ → Option HitszLine) (memory : ℕ → TraceInfo) (mode : Mode) where
  -- The body of the second loop, at index `i`: the info, or none if the line counts for nothing.
  unfoldable pub kept_info : TraceFormat → ℕ → List ℕ → Option TraceInfo
  kept_info replay_fiu i line = elim (scan_fiu line) [
    | none ↦ none
    | some f ↦ if keeps mode f.rw then some (fiu_info (strings replay_fiu line).md5 f) else none
  ]
  kept_info replay_hitsz i line = elim (scan_hitsz line) [
    | none ↦ none
    | some f ↦ some (hitsz_info (memory i) (strings replay_hitsz line).md5 f)
  ]

  -- A string that is too long is stored past its array.
  unfoldable pub info_of_line : TraceFormat → ℕ → List ℕ → Run (Option TraceInfo)
  unfolding kept_info
  info_of_line format i line =
      if strings_fit (strings format line) then ok (kept_info format i line) else fault

  -- The second loop, on the lines that are left.
  pub parse_lines : TraceFormat → ℕ → List (List ℕ) → List TraceInfo → Run (List TraceInfo)
  parse_lines format limit [] infos = ok infos
  parse_lines format limit (line ∷ lines) infos = do
    stripped ← strip line
    read ← info_of_line format (length infos) stripped
    infos' ← take_info limit read infos
    parse_lines format limit lines infos'

  -- The function: the first loop counts the lines, and the array has room for one info each.
  -- `valid_lines` is the length of the result.
  unfoldable pub parse_trace_info : TraceFormat → Bool → List (List ℕ) → Run (List TraceInfo)
  unfolding parse_lines take_info info_of_line
  parse_trace_info format malloc_fails lines =
      if malloc_fails then exit 1 else parse_lines format (length lines) lines []
