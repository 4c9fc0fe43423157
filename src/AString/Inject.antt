-- ===== src/AString/Inject.antt =====
-- A value in the place of a variable that is not shorter, src/AmmServerlib/AString/AString.c.
use mathlib.Core.List.{append_assoc}
use ammar_server.Base.{
  ℕ, ◌+◌, ◌-◌, ◌%◌, ◌<◌, ◌≡◌, refl, sym, ap, ◌∙◌, true, ◌∷◌, ◌++◌, some, arith, Bytes, length, take,
  drop, uint, length-append, length-take, length-drop, take-append-drop, take-append_eq,
}
use ammar_server.Chunked.{memmove}
use ammar_server.AString.Memory.{◌>>=◌, write_byte, straight_sync_memcpy, memcpy}
use ammar_server.AString.Copies.{straight_sync_memcpy-memmove}
use ammar_server.AString.Pieces.{write_end, memcpy_pieces, memmove_pieces}
use ammar_server.AString.Search.{IsText, append-IsText, IsText-prefix, IsText-suffix}
use ammar_server.AString.{MemoryHandler, inject_same, inject_shorter}

-- The handler holds the text: the terminator stands behind it within the block.
pub record Holds (mh : MemoryHandler) (text : Bytes) : Type 0 where
  pub slack : Bytes
  pub layout : mh.content ≡ text ++ (0 ∷ slack)
  pub counted : mh.content_current_length ≡ length text
  pub clean : IsText text

pub replaced-IsText :
    (pre var post value : Bytes)
    → IsText (pre ++ (var ++ post))
    → IsText value
    → IsText (pre ++ (value ++ post))
replaced-IsText pre var post value t v =
    append-IsText pre (value ++ post) (IsText-prefix pre (var ++ post) t)
      (append-IsText value post v (IsText-suffix var post (IsText-suffix pre (var ++ post) t)))

pub pieces :
    (pre var post slack : Bytes) → (pre ++ (var ++ post)) ++ slack ≡ pre ++ (var ++ (post ++ slack))
pieces pre var post slack = simp append_assoc

pub length_pieces :
    (pre var post : Bytes) → length (pre ++ (var ++ post)) ≡ length pre + length var + length post
length_pieces pre var post = omega (arith, length-append pre (var ++ post), length-append var post)

-- Bytes behind the moved ones.
record MovedPieces (front moved : Bytes) (block : Bytes) : Type 0 where
  tail : Bytes
  split : block ≡ front ++ (moved ++ tail)
  room : 0 < length tail

move_down_pieces :
    (front gap moved slack : Bytes) (target source n : ℕ)
    → target ≡ length front
    → source ≡ length front + length gap
    → n ≡ length moved
    → (block : Bytes) × (straight_sync_memcpy
          (front ++ (gap ++ (moved ++ (0 ∷ slack))))
          target
          source
          n
        ≡ some (block, true))
      × MovedPieces front moved block
move_down_pieces front gap moved slack target source n t e l =
    let rest = gap ++ (moved ++ (0 ∷ slack)) in
    let block = front ++ rest in
    let whole : block ≡ (front ++ gap) ++ (moved ++ (0 ∷ slack)) =
      sym (append_assoc front gap (moved ++ (0 ∷ slack))) in
    let size : length block ≡ length front + length gap + length moved + 1 + length slack = omega (
      arith,
      length-append front rest,
      length-append gap (moved ++ (0 ∷ slack)),
      length-append moved (0 ∷ slack),
    ) in
    let moves : memmove block target source n ≡ front ++ (moved ++ drop (target + n) block) =
      ap (λ b. memmove b target source n) whole
      ∙ memmove_pieces (front ++ gap) moved (0 ∷ slack) target source n
          (omega (arith, length-append front gap)) l
      ∙ ap (λ b. take target b ++ (moved ++ drop (target + n) b)) (sym whole)
      ∙ ap (λ f. f ++ (moved ++ drop (target + n) block)) (take-append_eq target front rest t) in
    (
      memmove block target source n,
      straight_sync_memcpy-memmove block target source n (omega arith) (omega (arith, size)),
      record {
        tail = drop (target + n) block;
        split = moves;
        room = omega (arith, size, length-drop (target + n) block);
      },
    )

inject_shorter_steps :
    (mh : MemoryHandler) (at var_length total : ℕ) (value written moved block : Bytes)
    → memcpy mh.content at value ≡ some written
    → straight_sync_memcpy written
        (at + length value % uint)
        (at + var_length)
        ((mh.content_current_length + uint - (at + var_length)) % uint)
      ≡ some (moved, true)
    → (at + length value % uint + (mh.content_current_length + uint - (at + var_length)) % uint)
        % uint
      ≡ total
    → write_byte moved total 0 ≡ some block
    → inject_shorter mh at var_length value
      ≡ some (record mh { content = block; content_current_length = total }, true)
unfolding inject_shorter
inject_shorter_steps mh at var_length total value written moved block w m t b = rw (w, m, t, b)

module _ (mh : MemoryHandler) (pre var post value : Bytes) (h : Holds mh (pre ++ (var ++ post)))
    (clean : IsText value)
    (small : length pre + length var + length post + length value + 1 < uint) where
  block_pieces : mh.content ≡ pre ++ (var ++ (post ++ (0 ∷ h.slack)))
  block_pieces = h.layout ∙ pieces pre var post (0 ∷ h.slack)

  value_length : length value % uint ≡ length value
  value_length = omega arith

  pub end_length :
      (mh.content_current_length + uint - (length pre + length var)) % uint ≡ length post
  end_length = omega (arith, h.counted, length_pieces pre var post)

  pub inject_same_lem :
      length value ≡ length var
      → (mh' : MemoryHandler) × (inject_same mh (length pre) value ≡ some (mh', true))
        × Holds mh' (pre ++ (value ++ post))
  unfolding inject_same
  inject_same_lem e = (
    record mh { content = pre ++ (value ++ (post ++ (0 ∷ h.slack))) },
    ap (λ b. memcpy b (length pre) value >>= (λ b. some (record mh { content = b }, true)))
          block_pieces
        ∙ ap (λ r. r >>= (λ b. some (record mh { content = b }, true)))
            (memcpy_pieces pre var (post ++ (0 ∷ h.slack)) value (length pre) refl (sym e)),
    record {
      slack = h.slack;
      layout = sym (pieces pre value post (0 ∷ h.slack));
      counted = omega (arith, h.counted, length_pieces pre var post, length_pieces pre value post);
      clean = replaced-IsText pre var post value h.clean clean;
    },
  )

  pub inject_shorter_lem :
      length value < length var
      → (mh' : MemoryHandler) × (inject_shorter mh (length pre) (length var) value
          ≡ some (mh', true))
        × Holds mh' (pre ++ (value ++ post))
  inject_shorter_lem e =
      let kept = length value in
      let gap = drop kept var in
      let ended = post ++ (0 ∷ h.slack) in
      let cut : mh.content ≡ pre ++ (take kept var ++ (gap ++ ended)) =
        block_pieces
        ∙ ap (λ v. pre ++ (v ++ ended)) (sym (take-append-drop kept var))
        ∙ ap (◌++◌ pre) (append_assoc (take kept var) gap ended) in
      let written : memcpy mh.content (length pre) value ≡ some ((pre ++ value) ++ (gap ++ ended)) =
        ap (λ b. memcpy b (length pre) value) cut
        ∙ memcpy_pieces pre (take kept var) (gap ++ ended) value (length pre) refl
            (omega (arith, length-take kept var))
        ∙ ap some (sym (append_assoc pre value (gap ++ ended))) in
      let n = (mh.content_current_length + uint - (length pre + length var)) % uint in
      let (moved, down, m) =
        move_down_pieces (pre ++ value) gap post h.slack (length pre + kept % uint)
          (length pre + length var) n (omega (arith, length-append pre value))
          (omega (arith, length-append pre value, length-drop kept var)) end_length in
      let (tail, done) =
        write_end ((pre ++ value) ++ post) m.tail (length pre + kept + length post) 0
          (omega (arith, length-append (pre ++ value) post, length-append pre value)) m.room in
      (
        record mh {
          content = ((pre ++ value) ++ post) ++ (0 ∷ tail);
          content_current_length = length pre + kept + length post;
        },
        inject_shorter_steps mh (length pre) (length var) (length pre + kept + length post) value
            ((pre ++ value) ++ (gap ++ ended)) moved (((pre ++ value) ++ post) ++ (0 ∷ tail))
            written down (omega (arith, end_length))
            (ap (λ b. write_byte b (length pre + kept + length post) 0)
                (m.split ∙ sym (append_assoc (pre ++ value) post m.tail))
              ∙ done),
        record {
          slack = tail;
          layout = ap (λ t. t ++ (0 ∷ tail)) (append_assoc pre value post);
          counted = sym (length_pieces pre value post);
          clean = replaced-IsText pre var post value h.clean clean;
        },
      )
