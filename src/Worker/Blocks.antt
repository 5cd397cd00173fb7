-- ===== src/Worker/Blocks.antt =====
-- For `replay_worker` of helper/replay.c: filling the buffer with the blocks of a run of infos.
use nvm_tools.Base.{
  ℕ, ◌+◌, ◌*◌, ◌≡◌, refl, sym, ap, ◌∙◌, List, [], ◌∷◌, ◌++◌, append_assoc, length, length-append,
  length-take, length-drop, take-append-drop, take, drop, All, ok, regroup, get_elem?_at, arith,
}
use nvm_tools.Trace.{TraceInfo, blk_size}
use nvm_tools.Fill.{RandGener, fill_blk}
use nvm_tools.Fill.Content.{
  IsDigest, IsReseeding, block_of, fill_blk_lem, block_of-reseed, length-block_of,
}
use nvm_tools.Worker.{Os, fill_infos}

module _ (g : RandGener) (c₀ : g.Ctx) where
  -- The content of the block of one info, and of neighbouring blocks.
  pub block : TraceInfo → List ℕ
  block info = (block_of g c₀ info.md5).1

  abbrev pub blocks : List TraceInfo → List ℕ
  blocks [] = []
  blocks (x ∷ xs) = block x ++ blocks xs

  pub length-block :
      (info : TraceInfo) → IsReseeding g → IsDigest info.md5 → length (block info) ≡ blk_size
  unfolding block
  length-block info h d = length-block_of g c₀ info.md5 h d

  block_lem :
      (ctx : g.Ctx) (pre old post : List ℕ) (info : TraceInfo) (p : ℕ)
      → IsReseeding g
      → IsDigest info.md5
      → length pre ≡ p
      → length old ≡ blk_size
      → (ctx' : g.Ctx) × (fill_blk g ctx (pre ++ (old ++ post)) p info.md5 (length info.md5)
          ≡ ok (ctx', pre ++ (block info ++ post)))
        × (length (block info) ≡ blk_size)
  unfolding block
  block_lem ctx pre old post info p h d e eo =
      let filled = fill_blk_lem g ctx pre old post info.md5 p h.draws e eo d in
      let same = block_of-reseed g ctx c₀ info.md5 h in
      (
        (block_of g ctx info.md5).0,
        filled.0 ∙ ap (λ b. ok ((block_of g ctx info.md5).0, pre ++ (b ++ post))) same,
        ap length (sym same) ∙ filled.1,
      )

  module _ (os : Os) (slots : List TraceInfo) (h : IsReseeding g) where
    pub fill_infos_lem :
        (run done rest : List TraceInfo) (ctx : g.Ctx) (pre old post : List ℕ) (j p : ℕ)
        → slots ≡ done ++ (run ++ rest)
        → All (λ x. IsDigest x.md5) run
        → length done ≡ j
        → length pre ≡ p
        → length old ≡ blk_size * length run
        → (ctx' : g.Ctx) × (fill_infos g os slots (length run) j p ctx (pre ++ (old ++ post))
            ≡ ok (ctx', pre ++ (blocks run ++ post)))
          × (length (blocks run) ≡ blk_size * length run)
    unfolding fill_infos
    fill_infos_lem [] done rest ctx pre [] post j p es d ed ep eo = (ctx, refl, refl)
    fill_infos_lem [] done rest ctx pre (b ∷ old) post j p es d ed ep eo = absurd (omega arith)
    fill_infos_lem (x ∷ run) done rest ctx pre old post j p es d ed ep eo =
        let here = get_elem?_at slots done x (run ++ rest) j es ed in
        let split : pre ++ (old ++ post)
            ≡ pre ++ (take blk_size old ++ (drop blk_size old ++ post)) =
          ap (λ l. pre ++ (l ++ post)) (sym (take-append-drop blk_size old))
          ∙ ap (λ l. pre ++ l) (append_assoc (take blk_size old) (drop blk_size old) post) in
        let (ctx', filled, size) =
          block_lem ctx pre (take blk_size old) (drop blk_size old ++ post) x p h d.0 ep
            (length-take blk_size old (omega arith)) in
        let (ctx'', rest_filled, rest_size) =
          fill_infos_lem run (done ++ x ∷ []) rest ctx' (pre ++ block x) (drop blk_size old) post
            (j + 1) (p + blk_size) (es ∙ sym (append_assoc done (x ∷ []) (run ++ rest))) d.1
            (omega (arith, length-append done (x ∷ [])))
            (omega (arith, length-append pre (block x)))
            (omega (arith, length-drop blk_size old)) in
        (
          ctx'',
          rw (here, split)
              (rw filled (
                rw (← append_assoc pre (block x) (drop blk_size old ++ post)) (
                  rest_filled
                  ∙ ap (λ l. ok (ctx'', l)) (regroup pre (block x) (blocks run) post)))),
          omega (arith, length-append (block x) (blocks run)),
        )
