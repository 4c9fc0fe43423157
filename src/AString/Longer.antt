-- ===== src/AString/Longer.antt =====
-- A value in the place of a shorter variable, for which the block grows,
-- src/AmmServerlib/AString/AString.c.
use mathlib.Core.List.{append_assoc}
use mathlib.Core.Path.{subst}
use ammar_server.Base.{
  ℕ, zero, suc, ◌+◌, ◌-◌, ◌%◌, ◌≤◌, ◌<◌, ◌≡◌, refl, sym, ap, ◌∙◌, Bool, true, [], ◌∷◌, ◌++◌, some,
  arith, Bytes, length, take, drop, uint, length-append, length-take, length-drop, ltb,
}
use ammar_server.Chunked.{memmove}
use ammar_server.AString.Memory.{write_byte, reverse_sync_memcpy, memcpy}
use ammar_server.AString.Copies.{reverse_sync_memcpy-memmove}
use ammar_server.AString.Pieces.{
  Rewritten, write_rest, write_end, memcpy_pieces, memmove_pieces, clear_rest, reallocated_rest,
}
use ammar_server.AString.Search.{IsText}
use ammar_server.AString.{MemoryHandler, reallocated, clear_bytes, inject_longer}
use ammar_server.AString.Inject.{Holds, replaced-IsText, pieces, length_pieces, end_length}

-- The rest has moved up, behind room for `m` bytes.
record Opened (pre post : Bytes) (m : ℕ) (block : Bytes) : Type 0 where
  room : Bytes
  tail : Bytes
  split : block ≡ pre ++ (room ++ (post ++ tail))
  wide : length room ≡ m
  one : 0 < length tail

take-prefix :
    (pre rest : Bytes) (t m : ℕ)
    → t ≡ length pre + m
    → m ≤ length rest
    → (room : Bytes) × (take t (pre ++ rest) ≡ pre ++ room) × (length room ≡ m)
take-prefix [] rest t m e h = (take t rest, refl, omega (arith, length-take t rest))
take-prefix (c ∷ pre) rest zero m e h = absurd (omega arith)
take-prefix (c ∷ pre) rest (suc t) m e h =
    let (room, f, g) = take-prefix pre rest t m (omega arith) h in (room, ap (◌∷◌ c) f, g)

move_up_pieces :
    (pre var post rest : Bytes) (target source n m : ℕ)
    → target ≡ length pre + m
    → source ≡ length pre + length var
    → n ≡ length post
    → length var ≤ m
    → length rest ≡ m - length var + 1
    → (block : Bytes) × (reverse_sync_memcpy ((pre ++ (var ++ post)) ++ rest) target source n
        ≡ some (block, ltb 0 n))
      × Opened pre post m block
move_up_pieces pre var post rest target source n m t e l v r =
    let block = (pre ++ (var ++ post)) ++ rest in
    let whole : block ≡ pre ++ (var ++ (post ++ rest)) = pieces pre var post rest in
    let joined : block ≡ (pre ++ var) ++ (post ++ rest) =
      whole ∙ sym (append_assoc pre var (post ++ rest)) in
    let size : length block ≡ length pre + length var + length post + length rest = omega (
      arith,
      length-append (pre ++ (var ++ post)) rest,
      length-append pre (var ++ post),
      length-append var post,
    ) in
    let (room, front, wide) =
      take-prefix pre (var ++ (post ++ rest)) target m t
        (omega (arith, length-append var (post ++ rest), length-append post rest)) in
    let tail = drop (target + n) block in
    (
      memmove block target source n,
      reverse_sync_memcpy-memmove block target source n (omega arith) (omega (arith, size)),
      record {
        room = room;
        tail = tail;
        split =
            ap (λ b. memmove b target source n) joined
            ∙ memmove_pieces (pre ++ var) post rest target source n
                (omega (arith, length-append pre var)) l
            ∙ ap (λ b. take target b ++ (post ++ drop (target + n) b)) (sym joined)
            ∙ ap (λ f. f ++ (post ++ tail)) (ap (take target) whole ∙ front)
            ∙ append_assoc pre room (post ++ tail);
        wide = wide;
        one = omega (arith, size, length-drop (target + n) block);
      },
    )

inject_longer_steps :
    (fill : ℕ → ℕ) (mh : MemoryHandler) (at var_length size : ℕ)
    (value ended clean moved written block : Bytes) (some_moved : Bool)
    → (mh.content_current_length + (length value % uint - var_length)) % uint ≡ size
    → write_byte (reallocated mh.content ((size + 1) % uint) fill) mh.content_current_length 0
      ≡ some ended
    → clear_bytes ended mh.content_current_length (size - mh.content_current_length) ≡ some clean
    → reverse_sync_memcpy clean
        (at + length value % uint)
        (at + var_length)
        ((mh.content_current_length + uint - (at + var_length)) % uint)
      ≡ some (moved, some_moved)
    → memcpy moved at value ≡ some written
    → write_byte written size 0 ≡ some block
    → inject_longer (some fill) mh at var_length value
      ≡ some
          (record mh { content = block; content_current_length = size; content_size = size }, true)
unfolding inject_longer
inject_longer_steps fill mh at var_length size value ended clean moved written block some_moved s e
      c m w b =
    rw (s, e, c, m, w, b)

-- The block with room behind the text, which is cleared.
cleared_block :
    (fill : ℕ → ℕ) (block text slack : Bytes) (old size : ℕ)
    → block ≡ text ++ (0 ∷ slack)
    → old ≡ length text
    → old < size
    → size + 1 < uint
    → (ended clean : Bytes) × (write_byte (reallocated block ((size + 1) % uint) fill) old 0
        ≡ some ended)
      × (clear_bytes ended old (size - old) ≡ some clean)
      × Rewritten text (size + 1 - length text) clean
cleared_block fill block text slack old size b l h small =
    let g : Rewritten text ((size + 1) % uint - length text)
        (reallocated block ((size + 1) % uint) fill) =
      subst
        (λ b.
          Rewritten text ((size + 1) % uint - length text) (reallocated b ((size + 1) % uint) fill))
        (sym b) (reallocated_rest text (0 ∷ slack) ((size + 1) % uint) fill (omega arith)) in
    let (ended, e, w) = write_rest text g.rest old 0 (omega arith) (omega (arith, g.size)) in
    let (clean, c, q) =
      clear_rest text w.rest old (size - old) (omega arith) (omega (arith, w.size, g.size)) in
    (
      ended,
      clean,
      ap (λ b. write_byte b old 0) g.split ∙ e,
      ap (λ b. clear_bytes b old (size - old)) w.split ∙ c,
      record { rest = q.rest; split = q.split; size = omega (arith, q.size, w.size, g.size) },
    )

module _ (fill : ℕ → ℕ) (mh : MemoryHandler) (pre var post value : Bytes)
    (h : Holds mh (pre ++ (var ++ post))) (clean : IsText value)
    (small : length pre + length var + length post + length value + 1 < uint)
    (longer : length var < length value) where
  size : ℕ
  size = length pre + length value + length post

  -- The value and the terminator are written into the room.
  written_lem :
      (ended clear moved : Bytes) (some_moved : Bool)
      → write_byte (reallocated mh.content ((size + 1) % uint) fill) mh.content_current_length 0
        ≡ some ended
      → clear_bytes ended mh.content_current_length (size - mh.content_current_length) ≡ some clear
      → reverse_sync_memcpy clear
          (length pre + length value % uint)
          (length pre + length var)
          ((mh.content_current_length + uint - (length pre + length var)) % uint)
        ≡ some (moved, some_moved)
      → Opened pre post (length value) moved
      → (mh' : MemoryHandler) × (inject_longer (some fill) mh (length pre) (length var) value
          ≡ some (mh', true))
        × Holds mh' (pre ++ (value ++ post))
  unfolding size
  written_lem ended clear moved some_moved e c m o =
      let text = pre ++ (value ++ post) in
      let (tail, done) =
        write_end text o.tail size 0 (omega (arith, length_pieces pre value post)) o.one in
      (
        record mh {
          content = text ++ (0 ∷ tail);
          content_current_length = size;
          content_size = size;
        },
        inject_longer_steps fill mh (length pre) (length var) size value ended clear moved
            (pre ++ (value ++ (post ++ o.tail))) (text ++ (0 ∷ tail)) some_moved
            (omega (arith, h.counted, length_pieces pre var post)) e c m
            (ap (λ b. memcpy b (length pre) value) o.split
              ∙ memcpy_pieces pre o.room (post ++ o.tail) value (length pre) refl o.wide)
            (ap (λ b. write_byte b size 0) (sym (pieces pre value post o.tail)) ∙ done),
        record {
          slack = tail;
          layout = refl;
          counted = sym (length_pieces pre value post);
          clean = replaced-IsText pre var post value h.clean clean;
        },
      )

  moved_lem :
      (ended clear : Bytes)
      → write_byte (reallocated mh.content ((size + 1) % uint) fill) mh.content_current_length 0
        ≡ some ended
      → clear_bytes ended mh.content_current_length (size - mh.content_current_length) ≡ some clear
      → Rewritten (pre ++ (var ++ post)) (size + 1 - length (pre ++ (var ++ post))) clear
      → (mh' : MemoryHandler) × (inject_longer (some fill) mh (length pre) (length var) value
          ≡ some (mh', true))
        × Holds mh' (pre ++ (value ++ post))
  unfolding size
  moved_lem ended clear e c q =
      let n = (mh.content_current_length + uint - (length pre + length var)) % uint in
      let (moved, m, o) =
        move_up_pieces pre var post q.rest (length pre + length value % uint)
          (length pre + length var) n (length value) (omega arith) refl
          (end_length mh pre var post value h clean small) (omega arith)
          (omega (arith, q.size, length_pieces pre var post)) in
      written_lem ended clear moved (ltb 0 n) e c
        (ap
            (λ b.
              reverse_sync_memcpy b (length pre + length value % uint) (length pre + length var) n)
            q.split
          ∙ m)
        o

  pub inject_longer_lem :
      (mh' : MemoryHandler) × (inject_longer (some fill) mh (length pre) (length var) value
        ≡ some (mh', true))
      × Holds mh' (pre ++ (value ++ post))
  unfolding size
  inject_longer_lem =
      let (ended, clear, e, c, q) =
        cleared_block fill mh.content (pre ++ (var ++ post)) h.slack mh.content_current_length size
          h.layout h.counted (omega (arith, h.counted, length_pieces pre var post)) (omega arith) in
      moved_lem ended clear e c q
