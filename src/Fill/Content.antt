-- ===== src/Fill/Content.antt =====
-- `fill_blk` of helper/replay.c on a digest that divides the block evenly.
use nvm_tools.Base.{
  ℕ, zero, suc, ◌+◌, ◌*◌, ◌/◌, ◌%◌, ◌<◌, ◌≤◌, ◌≡◌, refl, sym, ap, ◌∙◌, false, Option, none, some,
  List, [], ◌∷◌, ◌++◌, Bool, true, append_assoc, ◌==◌, length, length-append, length-replicate,
  length-take, length-drop, take-append-drop, take, drop, replicate, Run, ok, exit, fault, Returns,
  store_front, regroup, load-take, arith,
}
use nvm_tools.Trace.{blk_size}
use nvm_tools.Fill.{
  RandGener, le_bytes, le_value, fill_copies, fill_words, fill_step, fill_steps, fill_blk,
}

-- The block divides into one part for each 32 characters, and a part into copies of them.
pub record IsDigest (md5 : List ℕ) : Type 0 where
  pub some_parts : 0 < length md5 / 32
  pub whole : length md5 / 32 * (blk_size / (length md5 / 32)) ≡ blk_size
  pub even : blk_size / (length md5 / 32) % 32 ≡ 0

abbrev copies : ℕ → List ℕ → List ℕ
copies zero digest = []
copies (suc n) digest = digest ++ copies n digest

-- What a draw gives, where it ends.
abbrev drawn_of : {Ctx : Type 0} → Run (ℕ × Ctx) → Ctx → ℕ × Ctx
drawn_of (ok r) ctx = r
drawn_of (exit n) ctx = (0, ctx)
drawn_of fault ctx = (0, ctx)

abbrev drawn : {Ctx : Type 0} → (Ctx → Run (ℕ × Ctx)) → Ctx → ℕ × Ctx
drawn gen ctx = drawn_of (gen ctx) ctx

-- A draw from a ready context ends in a ready context.
abbrev Keeps : {Ctx : Type 0} → (Ctx → Bool) → (Ctx → Run (ℕ × Ctx)) → Type 0
Keeps {Ctx} ready gen = (ctx : Ctx) → ready ctx ≡ true → Returns (gen ctx) (λ r. ready r.1 ≡ true)

-- Every draw behind a seeding ends.
abbrev pub Draws : {Ctx : Type 0} → (Ctx → ℕ → Ctx) → Option (Ctx → Run (ℕ × Ctx)) → Type 0
Draws fedseed none = Unit
Draws {Ctx} fedseed (some gen) =
    (ready : Ctx → Bool) × ((ctx : Ctx) (s : ℕ) → ready (fedseed ctx s) ≡ true) × Keeps ready gen

drawn-ok :
    {Ctx : Type 0} (ready : Ctx → Bool) (gen : Ctx → Run (ℕ × Ctx)) (ctx : Ctx)
    → Returns (gen ctx) (λ r. ready r.1 ≡ true)
    → (gen ctx ≡ ok (drawn gen ctx)) × (ready (drawn gen ctx).1 ≡ true)
drawn-ok ready gen ctx (r, run, u) =
    let same = ap (λ q. drawn_of q ctx) run in
    (run ∙ ap ok (sym same), ap (λ q. ready q.1) same ∙ u)

module _ {Ctx : Type 0} where
  -- The bytes of `n` words, and the context behind them.
  words : (Ctx → ℕ × Ctx) → ℕ → Ctx → Ctx × List ℕ
  words gen zero ctx = (ctx, [])
  words gen (suc n) ctx =
      let (w, ctx') = gen ctx in let (ctx'', bs) = words gen n ctx' in (ctx'', le_bytes w ++ bs)

  module _ (fedseed : Ctx → ℕ → Ctx) where
    -- The bytes of one part.
    part : Option (Ctx → Run (ℕ × Ctx)) → ℕ → Ctx → List ℕ → ℕ → Ctx × List ℕ
    part none per ctx md5 md5_at = (ctx, copies (per / 32) (take 32 (drop md5_at md5)))
    part (some gen) per ctx md5 md5_at =
        words (drawn gen) (per / 4) (fedseed ctx (le_value (take 4 (drop md5_at md5))))

    parts : Option (Ctx → Run (ℕ × Ctx)) → ℕ → ℕ → Ctx → List ℕ → ℕ → Ctx × List ℕ
    parts gen zero per ctx md5 md5_at = (ctx, [])
    parts gen (suc n) per ctx md5 md5_at =
        let (ctx', bs) = part gen per ctx md5 md5_at in
        let (ctx'', rest) = parts gen n per ctx' md5 (md5_at + 32) in (ctx'', bs ++ rest)

-- The context and the content that `fill_blk` should leave.
unfoldable pub block_of : (g : RandGener) → g.Ctx → List ℕ → g.Ctx × List ℕ
unfolding parts part words
block_of g ctx md5 =
    let step = length md5 / 32 in parts g.fedseed g.genrandom step (blk_size / step) ctx md5 0

fill_copies_lem :
    (n : ℕ) (pre old post digest : List ℕ) (at : ℕ)
    → length pre ≡ at
    → length digest ≡ 32
    → length old ≡ 32 * n
    → (fill_copies n (pre ++ (old ++ post)) at digest ≡ ok (pre ++ (copies n digest ++ post)))
      × (length (copies n digest) ≡ 32 * n)
unfolding fill_copies
fill_copies_lem zero pre [] post digest at e ed eo = (refl, refl)
fill_copies_lem zero pre (x ∷ old) post digest at e ed eo = absurd (omega arith)
fill_copies_lem (suc n) pre old post digest at e ed eo =
    let ih =
      fill_copies_lem n (pre ++ digest) (drop 32 old) post digest (at + 32)
        (omega (arith, length-append pre digest)) ed (omega (arith, length-drop 32 old)) in
    (
      rw (store_front pre old post digest at 32 e ed (omega arith))
          (ih.0 ∙ ap ok (regroup pre digest (copies n digest) post)),
      omega (arith, length-append digest (copies n digest), ih.1),
    )

pub length-le_bytes : (w : ℕ) → length (le_bytes w) ≡ 4
unfolding le_bytes
length-le_bytes w = refl

module _ {Ctx : Type 0} (gen : Ctx → Run (ℕ × Ctx)) (ready : Ctx → Bool)
    (keeps : Keeps ready gen) where
  fill_words_lem :
      (n : ℕ) (ctx : Ctx) (pre old post : List ℕ) (at : ℕ)
      → ready ctx ≡ true
      → length pre ≡ at
      → length old ≡ 4 * n
      → let (ctx', bs) = words (drawn gen) n ctx in
        (fill_words gen n ctx (pre ++ (old ++ post)) at ≡ ok (ctx', pre ++ (bs ++ post)))
        × (length bs ≡ 4 * n)
  unfolding fill_words words
  fill_words_lem zero ctx pre [] post at w e eo = (refl, refl)
  fill_words_lem zero ctx pre (x ∷ old) post at w e eo = absurd (omega arith)
  fill_words_lem (suc n) ctx pre old post at w e eo =
      let d = drawn-ok ready gen ctx (keeps ctx w) in
      let bytes = le_bytes (drawn gen ctx).0 in
      let ih =
        fill_words_lem n (drawn gen ctx).1 (pre ++ bytes) (drop 4 old) post (at + 4) d.1
          (omega (arith, length-append pre bytes, length-le_bytes (drawn gen ctx).0))
          (omega (arith, length-drop 4 old)) in
      (
        rw d.0 (
            rw
              (store_front pre old post bytes at 4 e (length-le_bytes (drawn gen ctx).0)
                (omega arith))
              (ih.0
                ∙ ap (λ l. ok ((words (drawn gen) n (drawn gen ctx).1).0, l))
                    (regroup pre bytes (words (drawn gen) n (drawn gen ctx).1).1 post))),
        omega (
          arith,
          length-append bytes (words (drawn gen) n (drawn gen ctx).1).1,
          ih.1,
          length-le_bytes (drawn gen ctx).0,
        ),
      )

module _ {Ctx : Type 0} (fedseed : Ctx → ℕ → Ctx) where
  fill_step_lem :
      (gen : Option (Ctx → Run (ℕ × Ctx))) (per : ℕ) (ctx : Ctx) (pre old post md5 : List ℕ)
      (at md5_at : ℕ)
      → Draws fedseed gen
      → length pre ≡ at
      → length old ≡ per
      → per % 32 ≡ 0
      → md5_at + 32 ≤ length md5
      → let (ctx', bs) = part fedseed gen per ctx md5 md5_at in
        (fill_step fedseed gen per ctx (pre ++ (old ++ post)) at md5 md5_at
          ≡ ok (ctx', pre ++ (bs ++ post)))
        × (length bs ≡ per)
  unfolding fill_step part
  fill_step_lem none per ctx pre old post md5 at md5_at d e eo even h =
      let digest = take 32 (drop md5_at md5) in
      let rounds : (per + 31) / 32 ≡ per / 32 = omega arith in
      let filled =
        fill_copies_lem (per / 32) pre old post digest at e
          (length-take 32 (drop md5_at md5) (omega (arith, length-drop md5_at md5)))
          (omega arith) in
      (rw (load-take md5 md5_at 32 h, rounds) (rw filled.0), omega (arith, filled.1))
  fill_step_lem (some gen) per ctx pre old post md5 at md5_at d e eo even h =
      let rounds : (per + 3) / 4 ≡ per / 4 = omega arith in
      let filled =
        fill_words_lem gen d.0 d.2 (per / 4) (fedseed ctx (le_value (take 4 (drop md5_at md5)))) pre
          old post at (d.1 ctx (le_value (take 4 (drop md5_at md5)))) e (omega arith) in
      (rw (load-take md5 md5_at 4 (omega arith), rounds) filled.0, omega (arith, filled.1))

  fill_steps_lem :
      (gen : Option (Ctx → Run (ℕ × Ctx))) (n per : ℕ) (ctx : Ctx) (pre old post md5 : List ℕ)
      (at md5_at : ℕ)
      → Draws fedseed gen
      → length pre ≡ at
      → length old ≡ n * per
      → per % 32 ≡ 0
      → md5_at + 32 * n ≤ length md5
      → let (ctx', bs) = parts fedseed gen n per ctx md5 md5_at in
        (fill_steps fedseed gen n per ctx (pre ++ (old ++ post)) at md5 md5_at
          ≡ ok (ctx', pre ++ (bs ++ post)))
        × (length bs ≡ n * per)
  unfolding fill_steps parts
  fill_steps_lem gen zero per ctx pre [] post md5 at md5_at d e eo even h = (refl, omega arith)
  fill_steps_lem gen zero per ctx pre (x ∷ old) post md5 at md5_at d e eo even h =
      absurd (omega arith)
  fill_steps_lem gen (suc n) per ctx pre old post md5 at md5_at d e eo even h =
      let now = part fedseed gen per ctx md5 md5_at in
      let fits : per ≤ length old = grind arith in
      let one =
        fill_step_lem gen per ctx pre (take per old) (drop per old ++ post) md5 at md5_at d e
          (length-take per old fits) even (omega arith) in
      let ih =
        fill_steps_lem gen n per now.0 (pre ++ now.1) (drop per old) post md5 (at + per)
          (md5_at + 32) d (omega (arith, length-append pre now.1, one.1))
          (omega (arith, length-drop per old)) even (omega arith) in
      let split : pre ++ (old ++ post) ≡ pre ++ (take per old ++ (drop per old ++ post)) =
        ap (λ l. pre ++ (l ++ post)) (sym (take-append-drop per old))
        ∙ ap (λ l. pre ++ l) (append_assoc (take per old) (drop per old) post) in
      let rest = parts fedseed gen n per now.0 md5 (md5_at + 32) in
      (
        rw split (
            rw one.0 (
              rw (← append_assoc pre now.1 (drop per old ++ post))
                (ih.0 ∙ ap (λ l. ok (rest.0, l)) (regroup pre now.1 rest.1 post)))),
        omega (arith, length-append now.1 rest.1, one.1, ih.1),
      )

-- `fill_blk` rewrites the one block, and touches nothing around it.
pub fill_blk_lem :
    (g : RandGener) (ctx : g.Ctx) (pre old post md5 : List ℕ) (at : ℕ)
    → Draws g.fedseed g.genrandom
    → length pre ≡ at
    → length old ≡ blk_size
    → IsDigest md5
    → let (ctx', bs) = block_of g ctx md5 in
      (fill_blk g ctx (pre ++ (old ++ post)) at md5 (length md5) ≡ ok (ctx', pre ++ (bs ++ post)))
      × (length bs ≡ blk_size)
unfolding fill_blk block_of
fill_blk_lem g ctx pre old post md5 at w e eo d =
    let step = length md5 / 32 in
    let per = blk_size / step in
    let filled =
      fill_steps_lem g.fedseed g.genrandom step per ctx pre old post md5 at 0 w e (eo ∙ sym d.whole)
        d.even (omega arith) in
    let some_parts : (step == 0) ≡ false = ground (arith, d.some_parts) in
    (rw some_parts filled.0, filled.1 ∙ d.whole)

-- Seeding makes the generator forget its past, and draws behind it end.
pub record IsReseeding (g : RandGener) : Type 0 where
  pub forgets : (c c' : g.Ctx) (s : ℕ) → g.fedseed c s ≡ g.fedseed c' s
  pub draws : Draws g.fedseed g.genrandom

parts-reseed :
    {Ctx : Type 0} (fedseed : Ctx → ℕ → Ctx) (gen : Option (Ctx → Run (ℕ × Ctx))) (n per : ℕ)
    (c c' : Ctx) (md5 : List ℕ) (md5_at : ℕ)
    → ((c c' : Ctx) (s : ℕ) → fedseed c s ≡ fedseed c' s)
    → (parts fedseed gen n per c md5 md5_at).1 ≡ (parts fedseed gen n per c' md5 md5_at).1
unfolding parts part
parts-reseed fedseed gen zero per c c' md5 md5_at h = refl
parts-reseed fedseed none (suc n) per c c' md5 md5_at h =
    rw (parts-reseed fedseed none n per c c' md5 (md5_at + 32) h)
parts-reseed fedseed (some gen) (suc n) per c c' md5 md5_at h =
    rw (h c c' (le_value (take 4 (drop md5_at md5))))

-- For a digest that divides the block evenly and a generator that seeding makes forget its past,
-- `fill_blk` ends and writes the same 4096 bytes and no others, whatever the buffer held, wherever
-- the block stands, and whatever state the generator was in.
pub fill_blk-deterministic :
    (g : RandGener) (c c' : g.Ctx) (md5 pre old post pre' old' post' : List ℕ) (at at' : ℕ)
    → IsReseeding g
    → IsDigest md5
    → length pre ≡ at
    → length old ≡ blk_size
    → length pre' ≡ at'
    → length old' ≡ blk_size
    → (block : List ℕ) × (d d' : g.Ctx) × (length block ≡ blk_size)
      × (fill_blk g c (pre ++ (old ++ post)) at md5 (length md5) ≡ ok (d, pre ++ (block ++ post)))
      × (fill_blk g c' (pre' ++ (old' ++ post')) at' md5 (length md5)
          ≡ ok (d', pre' ++ (block ++ post')))
unfolding block_of
fill_blk-deterministic g c c' md5 pre old post pre' old' post' at at' h d e eo e' eo' =
    let one = fill_blk_lem g c pre old post md5 at h.draws e eo d in
    let two = fill_blk_lem g c' pre' old' post' md5 at' h.draws e' eo' d in
    let same : (block_of g c' md5).1 ≡ (block_of g c md5).1 =
      parts-reseed g.fedseed g.genrandom (length md5 / 32) (blk_size / (length md5 / 32)) c' c md5 0
        h.forgets in
    (
      (block_of g c md5).1,
      (block_of g c md5).0,
      (block_of g c' md5).0,
      one.1,
      one.0,
      two.0 ∙ ap (λ b. ok ((block_of g c' md5).0, pre' ++ (b ++ post'))) same,
    )

pub block_of-reseed :
    (g : RandGener) (c c' : g.Ctx) (md5 : List ℕ)
    → IsReseeding g
    → (block_of g c md5).1 ≡ (block_of g c' md5).1
unfolding block_of
block_of-reseed g c c' md5 h =
    parts-reseed g.fedseed g.genrandom (length md5 / 32) (blk_size / (length md5 / 32)) c c' md5 0
      h.forgets

length-block_of_at :
    (g : RandGener) (ctx : g.Ctx) (md5 : List ℕ) (n : ℕ)
    → n ≡ blk_size
    → Draws g.fedseed g.genrandom
    → IsDigest md5
    → length (block_of g ctx md5).1 ≡ blk_size
length-block_of_at g ctx md5 n e w d =
    (fill_blk_lem g ctx [] (replicate n 0) [] md5 0 w refl (length-replicate n 0 ∙ e) d).1

pub length-block_of :
    (g : RandGener) (ctx : g.Ctx) (md5 : List ℕ)
    → IsReseeding g
    → IsDigest md5
    → length (block_of g ctx md5).1 ≡ blk_size
length-block_of g ctx md5 h d = length-block_of_at g ctx md5 blk_size refl h.draws d
