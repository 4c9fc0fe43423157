-- ===== src/AString/Pieces.antt =====
-- The accesses to a block of src/AmmServerlib/AString/AString.c, on a block that is cut into pieces.
use mathlib.Core.List.{append_assoc}
use ammar_server.Base.{
  ℕ, zero, suc, ◌+◌, ◌-◌, ◌≤◌, ◌<◌, ◌≡◌, refl, sym, ap, ◌∙◌, [], ◌∷◌, ◌++◌, some, arith, Bytes,
  length, set, take, drop, length-append, length-take, length-drop, length-set, drop-append_eq,
  take-append_eq, take-append-drop, set-append_at, set-append_above, take_append_le, take-take,
}
use ammar_server.Chunked.{memmove}
use ammar_server.AString.Memory.{write_byte, memcpy}
use ammar_server.AString.{new_bytes, reallocated, clear_bytes}

-- The first of the pieces stays where the rest is written.
pub record Rewritten (pre : Bytes) (width : ℕ) (block : Bytes) : Type 0 where
  pub rest : Bytes
  pub split : block ≡ pre ++ rest
  pub size : length rest ≡ width

-- A byte of the second piece is written.
pub write_rest :
    (pre rest : Bytes) (i v : ℕ)
    → length pre ≤ i
    → i < length pre + length rest
    → (block : Bytes) × (write_byte (pre ++ rest) i v ≡ some block)
      × Rewritten pre (length rest) block
unfolding write_byte
write_rest pre rest i v h k =
    let j = i - length pre in
    let e : i ≡ length pre + j = omega arith in
    (
      set (pre ++ rest) i v,
      ground (arith, length-append pre rest),
      record {
        rest = set rest j v;
        split = ap (λ k. set (pre ++ rest) k v) e ∙ set-append_above pre rest j v;
        size = length-set rest j v;
      },
    )

write_at :
    (pre : Bytes) (x : ℕ) (rest : Bytes) (i v : ℕ)
    → i ≡ length pre
    → write_byte (pre ++ (x ∷ rest)) i v ≡ some (pre ++ (v ∷ rest))
unfolding write_byte
write_at pre x rest i v e =
    rw e (rw (set-append_at pre x rest v) (ground (arith, length-append pre (x ∷ rest))))

pub write_end :
    (pre rest : Bytes) (i v : ℕ)
    → i ≡ length pre
    → 0 < length rest
    → (tail : Bytes) × (write_byte (pre ++ rest) i v ≡ some (pre ++ (v ∷ tail)))
write_end pre [] i v e h = absurd (omega arith)
write_end pre (x ∷ rest) i v e h = (rest, write_at pre x rest i v e)

pub memcpy_pieces :
    (pre old rest value : Bytes) (i : ℕ)
    → i ≡ length pre
    → length old ≡ length value
    → memcpy (pre ++ (old ++ rest)) i value ≡ some (pre ++ (value ++ rest))
unfolding memcpy
memcpy_pieces pre [] rest [] i e h = refl
memcpy_pieces pre [] rest (v ∷ value) i e h = absurd (omega arith)
memcpy_pieces pre (x ∷ old) rest [] i e h = absurd (omega arith)
memcpy_pieces pre (x ∷ old) rest (v ∷ value) i e h =
    let written : write_byte (pre ++ (x ∷ (old ++ rest))) i v ≡ some (pre ++ (v ∷ (old ++ rest))) =
      write_at pre x (old ++ rest) i v e in
    let whole : pre ++ (v ∷ (old ++ rest)) ≡ (pre ++ (v ∷ [])) ++ (old ++ rest) =
      sym (append_assoc pre (v ∷ []) (old ++ rest)) in
    rw written (
      ap (λ b. memcpy b (i + 1) value) whole
      ∙ memcpy_pieces (pre ++ (v ∷ [])) old rest value (i + 1)
          (omega (arith, length-append pre (v ∷ []))) (omega arith)
      ∙ ap some (append_assoc pre (v ∷ []) (value ++ rest)))

pub memmove_pieces :
    (pre moved rest : Bytes) (target source n : ℕ)
    → source ≡ length pre
    → n ≡ length moved
    → let block = pre ++ (moved ++ rest) in
      memmove block target source n ≡ take target block ++ (moved ++ drop (target + n) block)
unfolding memmove
memmove_pieces pre moved rest target source n e f =
    rw (drop-append_eq source pre (moved ++ rest) e, take-append_eq n moved rest f)

pub clear_rest :
    (pre rest : Bytes) (i n : ℕ)
    → length pre ≤ i
    → i + n ≤ length pre + length rest
    → (block : Bytes) × (clear_bytes (pre ++ rest) i n ≡ some block)
      × Rewritten pre (length rest) block
unfolding clear_bytes
clear_rest pre rest i zero h k =
    (pre ++ rest, refl, record { rest = rest; split = refl; size = refl })
clear_rest pre rest i (suc n) h k =
    let (block, e, w) = write_rest pre rest i 0 h (omega arith) in
    let (last, f, q) = clear_rest pre w.rest (i + 1) n (omega arith) (omega (arith, w.size)) in
    (
      last,
      rw e (ap (λ b. clear_bytes b (i + 1) n) w.split ∙ f),
      record { rest = q.rest; split = q.split; size = q.size ∙ w.size },
    )

length-new_bytes : (fill : ℕ → ℕ) (n : ℕ) → length (new_bytes fill n) ≡ n
unfolding new_bytes
length-new_bytes fill zero = refl
length-new_bytes fill (suc n) = ap suc (length-new_bytes fill n)

pub reallocated_rest :
    (pre rest : Bytes) (n : ℕ) (fill : ℕ → ℕ)
    → length pre ≤ n
    → Rewritten pre (n - length pre) (reallocated (pre ++ rest) n fill)
unfolding reallocated
reallocated_rest pre rest n fill h =
    let grown = take n (pre ++ rest) ++ new_bytes fill (n - length (pre ++ rest)) in
    let front : take (length pre) grown ≡ pre =
      take_append_le (length pre) (take n (pre ++ rest)) _
        (omega (arith, length-take n (pre ++ rest), length-append pre rest))
      ∙ take-take (length pre) n (pre ++ rest) h
      ∙ take-append_eq (length pre) pre rest refl in
    record {
      rest = drop (length pre) grown;
      split =
          sym (take-append-drop (length pre) grown) ∙ ap (λ p. p ++ drop (length pre) grown) front;
      size = omega (
        arith,
        length-drop (length pre) grown,
        length-append (take n (pre ++ rest)) (new_bytes fill (n - length (pre ++ rest))),
        length-take n (pre ++ rest),
        length-new_bytes fill (n - length (pre ++ rest)),
      );
    }
