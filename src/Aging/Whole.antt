-- ===== src/Aging/Whole.antt =====
-- helper/aging_system.c as a whole: its three phases in a row.
use nvm_tools.Base.{
  ℕ, zero, suc, ◌+◌, ◌*◌, ◌/◌, ◌%◌, ◌^◌, ◌<◌, ◌≤◌, ◌≡◌, refl, sym, ap, ◌∙◌, Bool, true, some, List,
  [], ◌∷◌, ◌++◌, ltb, length, length-append, take, ok, ◌>>=◌, Returns, arith, lt→ltb,
}
use native.Mathlib.Nat.{mul_assoc, mul-le-mul_left}
use nvm_tools.Interference.{Fs}
use nvm_tools.Interference.Files.{IsWritable, magic_blocks}
use nvm_tools.Pages.{step, page_size}
use nvm_tools.Pages.Laws.{write_steps_lem}
use nvm_tools.Aging.{Punching}
use nvm_tools.Aging.Laws.{Punches, new_draws, punch_phase_lem}
use nvm_tools.Aging.Phases.{
  AgingParams, Aged, fit_path, file_path, in_phase, fill_file, phase_1, phase_2, phase_3,
  aging_system,
}

length-take_le : (n : ℕ) (l : List ℕ) → length (take n l) ≤ n
length-take_le zero l = omega arith
length-take_le (suc n) [] = omega arith
length-take_le (suc n) (c ∷ l) = omega (arith, length-take_le n l)

file_path_lem :
    (p : AgingParams) (digit : ℕ) → p.dirlen < 120 → (path : List ℕ) × (file_path p digit ≡ ok path)
unfolding file_path fit_path
file_path_lem p digit short =
    let path = take p.dirlen p.filepath ++ b'/' ∷ b'f' ∷ b'i' ∷ b'l' ∷ b'e' ∷ digit ∷ [] in
    let fits : length path < 128 = omega (
      arith,
      length-append (take p.dirlen p.filepath) (b'/' ∷ b'f' ∷ b'i' ∷ b'l' ∷ b'e' ∷ digit ∷ []),
      length-take_le p.dirlen p.filepath,
    ) in
    (path, rw (file_path, lt→ltb (length path) 128 fits) refl)

all_phases : (p : AgingParams) (n : ℕ) → p.phase ≡ 4 → in_phase p n ≡ true
all_phases p n e = ground arith

module _ (fs : Fs) (laws : IsWritable fs) (exists_file : List ℕ → Bool) (genrand : ℕ → ℕ → ℕ) where
  fill_file_lem :
      (v rounds : ℕ) (path buf : List ℕ)
      → length buf ≡ step
      → v + 512 * rounds < 2 ^ 64
      → Returns
          (fill_file fs exists_file genrand v rounds path buf)
          (λ t. (fs.written t.0 ≡ magic_blocks 512 v (512 * rounds)) × (length t.1 ≡ step))
  unfolding fill_file
  fill_file_lem v rounds path buf h small =
      let (file, opened, nothing) = laws.opens path in
      let (t, run, (post, full)) = write_steps_lem fs laws rounds v buf file h small in
      (
        t,
        rw (fill_file, opened) run,
        (post ∙ ap (λ l. l ++ magic_blocks 512 v (512 * rounds)) nothing, full),
      )

  -- A file of `total` blocks, then `holes` of them punched, then as many pages in another file, with
  -- numbers behind those of the first.
  pub record Ages (total percent : ℕ) (a : Aged fs.File) : Type 0 where
    pub first : fs.File
    pub second : fs.File
    pub holes : Punching
    pub file1 : a.file1 ≡ some first
    pub punching : a.punching ≡ some holes
    pub file2 : a.file2 ≡ some second
    pub filled : fs.written first ≡ magic_blocks 512 total total
    pub punched : Punches total (total * percent / 100) holes
    pub pages : ℕ
    pub refilled : fs.written second ≡ magic_blocks 512 (3 * total) pages
    pub bounded : pages ≤ total * percent / 100
    pub most : total * percent / 100 < pages + 512

  -- The sizes of a file of at most 2 ^ 30 GiB.
  record Sizes (p : AgingParams) (total steps : ℕ) : Type 0 where
    pub blocks : p.size * 2 ^ 30 % 2 ^ 64 / page_size ≡ total
    pub rounds : p.size * 2 ^ 30 % 2 ^ 64 / step ≡ steps
    pub whole : 512 * steps ≡ total
    pub small : total < 2 ^ 48

  sizes_lem : (p : AgingParams) → p.size < 2 ^ 30 → Sizes p (p.size * 2 ^ 18) (p.size * 2 ^ 9)
  sizes_lem p small = record {
    blocks = omega arith;
    rounds = omega arith;
    whole = omega arith;
    small = omega arith;
  }

  phase_1_lem :
      (p : AgingParams) (total steps : ℕ) (buf : List ℕ)
      → in_phase p 1 ≡ true
      → p.dirlen < 120
      → Sizes p total steps
      → length buf ≡ step
      → Returns (phase_1 fs exists_file genrand p buf) (λ t.
        (file : fs.File) × (t.0 ≡ some file)
        × (fs.written file ≡ magic_blocks 512 total total)
        × (length t.1 ≡ step))
  unfolding phase_1
  phase_1_lem p total steps buf on short z h =
      let (path, named) = file_path_lem p (b'1') short in
      let ((file, buf'), run, (post, full)) =
        fill_file_lem total steps path buf h (omega (arith, z.whole, z.small)) in
      (
        (some file, buf'),
        rw (phase_1, on, named)
            (rw (z.blocks) (rw (z.rounds) (ap (λ r. r >>= λ x. ok (some x.0, x.1)) run))),
        (file, refl, post ∙ ap (magic_blocks 512 total) z.whole, full),
      )

  record Percents (total steps percent : ℕ) : Type 0 where
    pub product : total * percent ≡ 512 * (steps * percent)
    pub small : total * percent < 2 ^ 60
    pub first : 3 * total % 2 ^ 64 ≡ 3 * total
    pub rounds : steps * percent % 2 ^ 64 ≡ steps * percent
    pub room : 3 * total + 512 * (steps * percent / 100) < 2 ^ 64

  percents_lem :
      (p : AgingParams) (total steps percent : ℕ)
      → Sizes p total steps
      → percent ≤ 100
      → Percents total steps percent
  percents_lem p total steps percent z h =
      let least : total * percent ≤ total * 100 = mul-le-mul_left total h in
      let product : total * percent ≡ 512 * (steps * percent) =
        ap (λ n. n * percent) (sym z.whole) ∙ mul_assoc 512 steps percent in
      let small : total * percent < 2 ^ 60 = omega (arith, least, z.small) in
      record {
        product = product;
        small = small;
        first = omega (arith, z.small);
        rounds = omega (arith, small, product);
        room = omega (arith, z.small, small, product);
      }

  phase_2_lem :
      (n : ℕ) (p : AgingParams) (total steps : ℕ)
      → in_phase p 2 ≡ true
      → p.dirlen < 120
      → 0 < total
      → Sizes p total steps
      → Percents total steps p.hole_percent
      → p.hole_percent ≤ 100
      → ((path : List ℕ) → exists_file path ≡ true)
      → total * p.hole_percent / 100 ≤ new_draws (genrand ((2333 + p.phase) % 2 ^ 32)) total 0 n []
      → Returns
          (phase_2 fs exists_file genrand (suc n) p)
          (λ t. (s : Punching) × (t ≡ some s) × Punches total (total * p.hole_percent / 100) s)
  unfolding phase_2
  phase_2_lem n p total steps on short pos z x few there enough =
      let (path, named) = file_path_lem p (b'1') short in
      let percent : ltb p.hole_percent (2 ^ 31) ≡ true =
        lt→ltb p.hole_percent (2 ^ 31) (omega arith) in
      let (s, run, post) =
        punch_phase_lem (genrand ((2333 + p.phase) % 2 ^ 32)) total p.hole_percent n pos
          (omega (arith, x.small)) enough in
      (
        some s,
        rw (phase_2, on, named, there path, percent)
            (rw (z.blocks) (ap (λ r. r >>= λ s. ok (some s)) run)),
        (s, refl, post),
      )

  phase_3_lem :
      (p : AgingParams) (total steps : ℕ) (buf : List ℕ)
      → in_phase p 3 ≡ true
      → p.dirlen < 120
      → Sizes p total steps
      → Percents total steps p.hole_percent
      → p.hole_percent ≤ 100
      → length buf ≡ step
      → Returns (phase_3 fs exists_file genrand p buf) (λ t.
        (file : fs.File) × (t ≡ some file)
        × (fs.written file ≡ magic_blocks 512 (3 * total) (512 * (steps * p.hole_percent / 100))))
  unfolding phase_3
  phase_3_lem p total steps buf on short z x few h =
      let (path, named) = file_path_lem p (b'2') short in
      let percent : ltb p.hole_percent (2 ^ 31) ≡ true =
        lt→ltb p.hole_percent (2 ^ 31) (omega arith) in
      let ((file, buf'), run, (post, full)) =
        fill_file_lem (3 * total) (steps * p.hole_percent / 100) path buf h x.room in
      (
        some file,
        rw (phase_3, on, named, percent)
            (rw (z.blocks) (
              rw (z.rounds)
                (rw (x.first) (rw (x.rounds) (ap (λ r. r >>= λ t. ok (some t.0)) run))))),
        (file, refl, post),
      )

  -- If files can be opened and written, with phase 4, a directory of fewer than 120 characters, a
  -- file of 1 to 2 ^ 30 - 1 GiB, at most 100 percent of holes and enough different draws of the
  -- generator, `aging_system` ends: the first file holds as many pages as it has blocks, numbered
  -- from that number on; a hole is asked for, by a call of `fallocate` whose result is only
  -- reported, at the share of its blocks, at none twice; the second file holds at most as many
  -- pages as there are holes, and fewer by less than 512, numbered from three times the number of
  -- blocks on.
  pub aging_system_lem :
      (n : ℕ) (p : AgingParams) (buf : List ℕ)
      → p.phase ≡ 4
      → p.dirlen < 120
      → 0 < p.size
      → p.size < 2 ^ 30
      → p.hole_percent ≤ 100
      → length buf ≡ step
      → ((path : List ℕ) → exists_file path ≡ true)
      → p.size * 2 ^ 18 * p.hole_percent / 100
        ≤ new_draws (genrand ((2333 + p.phase) % 2 ^ 32)) (p.size * 2 ^ 18) 0 n []
      → Returns
          (aging_system fs exists_file genrand (suc n) p buf)
          (Ages (p.size * 2 ^ 18) p.hole_percent)
  unfolding aging_system
  aging_system_lem n p buf all short pos small few h there enough =
      let total = p.size * 2 ^ 18 in
      let steps = p.size * 2 ^ 9 in
      let z = sizes_lem p small in
      let x = percents_lem p total steps p.hole_percent z few in
      let ((first, buf'), run_1, (file, is_first, filled, full)) =
        phase_1_lem p total steps buf (all_phases p 1 all) short z h in
      let (punching, run_2, (holes, is_holes, punched)) =
        phase_2_lem n p total steps (all_phases p 2 all) short (omega arith) z x few there enough in
      let (second, run_3, (file', is_second, refilled)) =
        phase_3_lem p total steps buf' (all_phases p 3 all) short z x few full in
      (
        record { file1 = first; punching = punching; file2 = second },
        rw (aging_system, run_1) (rw run_2 (rw run_3 refl)),
        record {
          first = file;
          second = file';
          holes = holes;
          file1 = is_first;
          punching = is_holes;
          file2 = is_second;
          filled = filled;
          punched = punched;
          pages = 512 * (steps * p.hole_percent / 100);
          refilled = refilled;
          bounded = omega (arith, x.product);
          most = omega (arith, x.product);
        },
      )
