-- ===== src/Tests/Device.antt =====
-- A file that takes every write whole, and a device that takes two blocks.
use nvm_tools.Base.{
  ℕ, zero, suc, ◌≡◌, refl, true, false, some, List, [], ◌++◌, length, arith, ==_iff,
}
use nvm_tools.Worker.{Ret, failed, count}
use nvm_tools.Interference.{Fs}
use nvm_tools.Interference.Files.{IsWritable}
use nvm_tools.Exhaust.{block_bytes, is_full}
use nvm_tools.Exhaust.Laws.{IsLimited}

abbrev pub plain_fs : Fs
plain_fs = record {
  File = List ℕ;
  open_file = λ path. some [];
  write = λ file bytes. (file ++ bytes, count (length bytes));
  written = λ file. file;
}

pub plain_fs-IsWritable : IsWritable plain_fs
plain_fs-IsWritable = record {
  opens = λ path. ([], refl, refl);
  complete = λ f bytes. refl;
  appends = λ f bytes. refl;
}

abbrev pub put_block : List ℕ × ℕ → List ℕ → (List ℕ × ℕ) × Ret
put_block (bytes, zero) new = ((bytes, zero), failed)
put_block (bytes, suc k) new = ((bytes ++ new, k), count (length new))

abbrev pub small_fs : Fs
small_fs = record {
  File = List ℕ × ℕ;
  open_file = λ path. some ([], 2);
  write = put_block;
  written = λ file. file.0;
}

pub takes_block :
    (f : List ℕ × ℕ) (k : ℕ) (bytes : List ℕ)
    → f.1 ≡ suc k
    → length bytes ≡ block_bytes
    → (is_full (put_block f bytes).1 ≡ true)
      × ((put_block f bytes).0.1 ≡ k)
      × ((put_block f bytes).0.0 ≡ f.0 ++ bytes)
unfolding is_full
takes_block (old, zero) k bytes e h = absurd (omega arith)
takes_block (old, suc j) k bytes e h = ((==_iff (length bytes) block_bytes).1 h, omega arith, refl)

pub refuses_block :
    (f : List ℕ × ℕ) (bytes : List ℕ) → f.1 ≡ 0 → is_full (put_block f bytes).1 ≡ false
unfolding is_full
refuses_block (old, zero) bytes e = refl
refuses_block (old, suc j) bytes e = absurd (omega arith)

abbrev pub small_fs-IsLimited : IsLimited small_fs
small_fs-IsLimited = record { room = λ f. f.1; takes = takes_block; refuses = refuses_block }
