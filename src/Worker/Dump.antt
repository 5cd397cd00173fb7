-- ===== src/Worker/Dump.antt =====
-- One hint in `replay_worker` of helper/replay.c that reads, against the content of the file.
use nvm_tools.Base.{
  ℕ, zero, suc, ◌+◌, ◌-◌, ◌%◌, ◌^◌, ◌<◌, ◌≤◌, ◌≡◌, refl, sym, ap, ◌∙◌, ◌⊎◌, inl, inr, Bool, true,
  false, some, List, [], ◌∷◌, ◌++◌, append-nil, append_assoc, ◌==◌, if◌then◌else◌, length,
  length-append, length-replicate, length-drop, drop, replicate, get_elem?, ok, Returns, store,
  store_front, load, load-append, arith, Bool-cases,
}
use nvm_tools.Trace.{TraceInfo, ReplayHint}
use nvm_tools.Fill.{RandGener}
use nvm_tools.Worker.{Os, WorkerState, hint_bytes, read_loop, read_hint}
use nvm_tools.Worker.Read.{read_full, read_end, read_more}

-- The first `n` bytes of a content, with zeros behind its end.
abbrev pub padded : ℕ → List ℕ → List ℕ
padded zero l = []
padded (suc n) [] = 0 ∷ padded n []
padded (suc n) (b ∷ l) = b ∷ padded n l

padded-nil : (n : ℕ) → padded n [] ≡ replicate n 0
padded-nil zero = refl
padded-nil (suc n) = ap (◌∷◌ 0) (padded-nil n)

padded-split :
    (n : ℕ) (xs rest : List ℕ)
    → length xs ≤ n
    → (length xs ≡ n) ⊎ (rest ≡ [])
    → padded n (xs ++ rest) ≡ xs ++ replicate (n - length xs) 0
padded-split zero [] rest h (inl e) = refl
padded-split (suc n) [] rest h (inl e) = absurd (omega arith)
padded-split n [] rest h (inr e) =
    ap (padded n) e ∙ padded-nil n ∙ ap (λ k. replicate k 0) (omega arith)
padded-split zero (x ∷ xs) rest h e = absurd (omega arith)
padded-split (suc n) (x ∷ xs) rest h (inl e) = ap (◌∷◌ x) (
    padded-split n xs rest (omega arith) (inl (omega arith))
    ∙ ap (λ k. xs ++ replicate k 0) (omega arith))
padded-split (suc n) (x ∷ xs) rest h (inr e) =
    ap (◌∷◌ x)
      (padded-split n xs rest (omega arith) (inr e) ∙ ap (λ k. xs ++ replicate k 0) (omega arith))

-- What a call of `pread` gives of the bytes from its offset on: a front of them, no more than it is
-- asked for, and nothing only at the end; `rest_of o` are the bytes of the file from offset `o` on.
pub record Gives (os : Os) (file : os.File) (rest_of : ℕ → List ℕ) (n o : ℕ) : Type 0 where
  pub bytes : List ℕ
  pub run : os.pread file n o ≡ some bytes
  pub front : rest_of o ≡ bytes ++ rest_of (o + length bytes)
  pub few : length bytes ≤ n
  pub ended : bytes ≡ [] → 0 < n → rest_of o ≡ []

module _ (g : RandGener) (os : Os) (slots : List TraceInfo) (file : os.File) (rest_of : ℕ → List ℕ)
    (gives : (n o : ℕ) → Gives os file rest_of n o) where
  -- The loop stores the bytes behind those that are there, and stops at the end of the file or of the
  -- hint.
  record Stores (o size : ℕ) (got tail : List ℕ) (q : ℕ × List ℕ) : Type 0 where
    pub bytes : List ℕ
    pub tail' : List ℕ
    pub count : q.0 ≡ length got + length bytes
    pub buffer : q.1 ≡ got ++ (bytes ++ tail')
    pub same : length bytes + length tail' ≡ length tail
    pub front : rest_of o ≡ bytes ++ rest_of (o + length bytes)
    pub few : length got + length bytes ≤ size
    pub all : (length got + length bytes ≡ size) ⊎ (rest_of (o + length bytes) ≡ [])

  Stores-more :
      (o o' size : ℕ) (got tail bs tail₁ : List ℕ) (q : ℕ × List ℕ)
      → o' ≡ o + length bs
      → rest_of o ≡ bs ++ rest_of (o + length bs)
      → length bs + length tail₁ ≡ length tail
      → Stores o' size (got ++ bs) tail₁ q
      → Stores o size got tail q
  Stores-more o o' size got tail bs tail₁ q e f n s =
      let sum = length-append bs s.bytes in
      let gone = length-append got bs in
      let next : o' + length s.bytes ≡ o + length (bs ++ s.bytes) = omega (arith, sum) in
      record {
        bytes = bs ++ s.bytes;
        tail' = s.tail';
        count = omega (arith, s.count, sum, gone);
        buffer =
            s.buffer
            ∙ append_assoc got bs (s.bytes ++ s.tail')
            ∙ ap (λ l. got ++ l) (sym (append_assoc bs s.bytes s.tail'));
        same = omega (arith, s.same, sum);
        front =
            f
            ∙ ap (λ k. bs ++ rest_of k) (sym e)
            ∙ ap (λ l. bs ++ l) s.front
            ∙ sym (append_assoc bs s.bytes (rest_of (o' + length s.bytes)))
            ∙ ap (λ k. (bs ++ s.bytes) ++ rest_of k) next;
        few = omega (arith, s.few, sum, gone);
        all = elim s.all [
          | inl full ↦ inl (omega (arith, sum, gone))
          | inr over ↦ inr (ap rest_of (sym next) ∙ over)
        ];
      }

  Stores-none :
      (o size : ℕ) (got tail : List ℕ)
      → length got ≤ size
      → (length got ≡ size) ⊎ (rest_of o ≡ [])
      → Stores o size got tail (length got, got ++ tail)
  Stores-none o size got tail h a =
      let here : o ≡ o + 0 = omega arith in
      record {
        bytes = [];
        tail' = tail;
        count = omega arith;
        buffer = refl;
        same = omega arith;
        front = ap rest_of here;
        few = omega arith;
        all = elim a [
          | inl full ↦ inl (omega arith)
          | inr over ↦ inr (ap rest_of (sym here) ∙ over)
        ];
      }

  -- One round, from the loop behind it.
  read_round :
      (f size ofs o : ℕ) (got tail bs : List ℕ)
      → ((o' : ℕ) (got' tail' : List ℕ)
          → o' ≡ ofs + length got'
          → size - length got' < f
          → length got' ≤ size
          → size ≤ length got' + length tail'
          → ofs + size < 2 ^ 64
          → Returns
              (read_loop g os slots f file (got' ++ tail') size ofs (length got'))
              (Stores o' size got' tail'))
      → o ≡ ofs + length got
      → size - length got < suc f
      → length got ≤ size
      → size ≤ length got + length tail
      → ofs + size < 2 ^ 64
      → (length got == size) ≡ false
      → os.pread file (size - length got) ((ofs + length got) % 2 ^ 64) ≡ some bs
      → rest_of o ≡ bs ++ rest_of (o + length bs)
      → length bs ≤ size - length got
      → (bs ≡ [] → 0 < size - length got → rest_of o ≡ [])
      → Returns
          (read_loop g os slots (suc f) file (got ++ tail) size ofs (length got))
          (Stores o size got tail)
  read_round f size ofs o got tail [] ih e lt le room small more run front few ended = (
    (length got, got ++ tail),
    read_end g os slots file f size ofs (length got) (got ++ tail) more run,
    Stores-none o size got tail le (inr (ended refl (ground arith))),
  )
  read_round f size ofs o got tail (b ∷ bs) ih e lt le room small more run front few ended =
      let k = length (b ∷ bs) in
      let behind = length-append got (b ∷ bs) in
      let cut = length-drop k tail in
      let stored : store (got ++ tail) (length got) (b ∷ bs)
          ≡ ok ((got ++ (b ∷ bs)) ++ drop k tail) =
        rw (append-nil tail, append-nil (drop k tail)) at
          (store_front got tail [] (b ∷ bs) (length got) k refl refl (omega arith)) in
      let (q, rest, s) =
        ih (o + k) (got ++ (b ∷ bs)) (drop k tail) (omega (arith, behind)) (omega (arith, behind))
          (omega (arith, behind)) (omega (arith, behind, cut)) small in
      (
        q,
        read_more g os slots file f size ofs (length got) b bs (got ++ tail)
              ((got ++ (b ∷ bs)) ++ drop k tail) more run stored
            ∙ ap (read_loop g os slots f file ((got ++ (b ∷ bs)) ++ drop k tail) size ofs)
                (sym behind)
            ∙ rest,
        Stores-more o (o + k) size got tail (b ∷ bs) (drop k tail) q refl front (omega (arith, cut))
            s,
      )

  read_loop-Stores :
      (f size ofs o : ℕ) (got tail : List ℕ)
      → o ≡ ofs + length got
      → size - length got < f
      → length got ≤ size
      → size ≤ length got + length tail
      → ofs + size < 2 ^ 64
      → Returns
          (read_loop g os slots f file (got ++ tail) size ofs (length got))
          (Stores o size got tail)
  read_loop-Stores zero size ofs o got tail e lt le room small = absurd (omega arith)
  read_loop-Stores (suc f) size ofs o got tail e lt le room small =
      elim (Bool-cases (length got == size)) [
        | inl full ↦ (
          (length got, got ++ tail),
          read_full g os slots file f size ofs (length got) (got ++ tail) full,
          Stores-none o size got tail le (inl (ground arith)),
        )
        | inr more ↦
            let at : (ofs + length got) % 2 ^ 64 ≡ o = omega arith in
            let s = gives (size - length got) o in
            let run = ap (os.pread file (size - length got)) at ∙ s.run in
            read_round f size ofs o got tail s.bytes
              (λ o' got' tail'. read_loop-Stores f size ofs o' got' tail') e lt le room small more
              run s.front s.few s.ended
      ]

-- The zeros behind what was read.
store_zeros :
    (done size : ℕ) (buf bytes tail : List ℕ)
    → done ≡ length bytes
    → buf ≡ bytes ++ tail
    → length bytes ≤ size
    → size ≤ length bytes + length tail
    → store buf done (replicate (size - done) 0)
      ≡ ok ((bytes ++ replicate (size - length bytes) 0) ++ drop (size - length bytes) tail)
store_zeros done size buf bytes tail d e few room =
    let k = size - length bytes in
    rw (d, e)
      (rw (append-nil tail, append-nil (drop k tail)) at
        (store_front bytes tail [] (replicate k 0) (length bytes) k refl
          (length-replicate {A = ℕ} k 0) (omega arith)))

module _ (g : RandGener) (os : Os) (slots : List TraceInfo) where
  -- If reads succeed and give bytes of the file at their offset, no more than was asked for and
  -- none only at its end, and the last byte of a hint that fits the buffer has a 64-bit offset,
  -- then reading the hint ends within the fuel, leaves the file alone and the buffer at its size,
  -- and adds to the dump, if there is one, the bytes of the file from the first info's offset on,
  -- as many as the hint is long, with zeros for those behind the end of the file.
  pub read_hint-padded :
      (is_dump_read : Bool) (hint : ReplayHint) (s : WorkerState g.Ctx os.File) (first : TraceInfo)
      (rest_of : ℕ → List ℕ)
      → ((n o : ℕ) → Gives os s.file rest_of n o)
      → get_elem? slots hint.start_trace_line ≡ some first
      → hint_bytes hint ≤ length s.buf
      → first.ofs + hint_bytes hint < 2 ^ 64
      → Returns (read_hint g os slots is_dump_read hint s) (λ t.
        (t.file ≡ s.file)
        × (length t.buf ≡ length s.buf)
        × (t.dump
            ≡ s.dump
              ++ (if is_dump_read then padded (hint_bytes hint) (rest_of first.ofs) else [])))
  unfolding read_hint
  read_hint-padded is_dump_read hint s first rest_of gives e room small =
      let size = hint_bytes hint in
      let (q, run, r) =
        read_loop-Stores g os slots s.file rest_of gives (size + 1) size first.ofs first.ofs []
          s.buf (omega arith) (omega arith) (omega arith) (omega arith) small in
      let k = length r.bytes in
      let few : k ≤ size = omega (arith, r.few) in
      let all : (k ≡ size) ⊎ (rest_of (first.ofs + k) ≡ []) = from_front r.all in
      let zeros : List ℕ = replicate (size - k) 0 in
      let n = length-replicate {A = ℕ} (size - k) 0 in
      let tail = drop (size - k) r.tail' in
      let cut = length-drop (size - k) r.tail' in
      let stored : store q.1 q.0 (replicate (size - q.0) 0) ≡ ok ((r.bytes ++ zeros) ++ tail) =
        store_zeros q.0 size q.1 r.bytes r.tail' (r.count ∙ zero_plus k) r.buffer few
          (omega (arith, r.same)) in
      let content : padded size (rest_of first.ofs) ≡ r.bytes ++ zeros =
        ap (padded size) r.front ∙ padded-split size r.bytes (rest_of (first.ofs + k)) few all in
      let sum = length-append r.bytes zeros in
      let loaded : load ((r.bytes ++ zeros) ++ tail) 0 size ≡ ok (r.bytes ++ zeros) =
        load-append [] (r.bytes ++ zeros) tail 0 size refl (omega (arith, sum, n, few)) in
      (
        record s {
          buf = (r.bytes ++ zeros) ++ tail;
          dump = if is_dump_read then s.dump ++ (r.bytes ++ zeros) else s.dump;
        },
        rw e (rw run (rw stored (rw loaded refl))),
        (
          refl,
          omega (arith, length-append (r.bytes ++ zeros) tail, sum, n, cut, r.same, few),
          rw content (dumped is_dump_read s.dump (r.bytes ++ zeros)),
        ),
      )
    where
      zero_plus : (n : ℕ) → 0 + n ≡ n
      zero_plus n = omega arith

      from_front : {P : Type 0} {k size : ℕ} → (0 + k ≡ size) ⊎ P → (k ≡ size) ⊎ P
      from_front (inl e) = inl (omega arith)
      from_front (inr p) = inr p

      dumped :
          (b : Bool) (dump bytes : List ℕ)
          → (if b then dump ++ bytes else dump) ≡ dump ++ (if b then bytes else [])
      dumped true dump bytes = refl
      dumped false dump bytes = sym (append-nil dump)
