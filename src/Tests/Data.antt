-- ===== src/Tests/Data.antt =====
-- Records of a small trace, in two block addresses' neighbourhoods.
use nvm_tools.Base.{ℕ, ◌*◌, ◌<◌, refl, List, [], ◌∷◌, All, length, replicate, arith}
use nvm_tools.Trace.{TraceInfo}
use nvm_tools.Trace.Container.{TraceContainer, IsValid}
use nvm_tools.Fill.Content.{IsDigest}
use nvm_tools.Worker.Hint.{IsReplayable}

abbrev pub digest : List ℕ
digest = replicate 32 (b'a')

abbrev pub info : ℕ → ℕ → TraceInfo
info ts lba = record {
  ts = ts;
  pid = 7;
  lba = lba;
  ofs = lba * 512;
  blks = 8;
  rw = b'W';
  major = 8;
  minor = 0;
  md5 = digest;
}

-- Two neighbouring blocks and one apart, out of order.
abbrev pub three : List TraceInfo
three = info 2 16 ∷ info 1 8 ∷ info 3 800 ∷ []

abbrev pub box : ℕ → List TraceInfo → TraceContainer
box meta infos = record { infos_map = infos; meta = meta; size = length infos; capacity = 64 }

abbrev pub three_box : TraceContainer
three_box = box 0 three

pub three_box-IsValid : IsValid three_box
three_box-IsValid = record { counted = refl; fits = omega arith; roomy = omega arith }

pub digest-IsDigest : IsDigest digest
digest-IsDigest = record { some_parts = omega arith; whole = refl; even = refl }

pub info-IsReplayable : (ts lba : ℕ) → lba < 1000 → IsReplayable (info ts lba)
info-IsReplayable ts lba h = record {
  digest = digest-IsDigest;
  placed = record { at_lba = refl; low = omega arith };
}

pub three-IsReplayable : All IsReplayable three
three-IsReplayable = (
  info-IsReplayable 2 16 (omega arith),
  (info-IsReplayable 1 8 (omega arith), (info-IsReplayable 3 800 (omega arith), tt)),
)
