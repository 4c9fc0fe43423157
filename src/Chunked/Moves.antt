-- ===== src/Chunked/Moves.antt =====
-- The moves within the buffer of src/AmmServerlib/header_analysis/chunked_transfer.c.
use mathlib.Core.List.{append_assoc}
use ammar_server.Base.{
  ℕ, zero, suc, ◌+◌, ◌-◌, ◌≤◌, ◌≡◌, refl, sym, ap, ◌∙◌, true, List, [], ◌∷◌, ◌++◌, inl, inr, arith,
  Bytes, length, drop, length-append, drop-append_eq, take-append_eq, drop-drop, ◌==◌, Bool-cases,
  take, length-take, length-drop,
}
use ammar_server.Chunked.{memmove, move_down}

take-add {ℓ} :
    {A : Type ℓ} (m n : ℕ) (xs : List A) → take (m + n) xs ≡ take m xs ++ take n (drop m xs)
take-add zero n xs = let e : 0 + n ≡ n = omega arith in rw e
take-add (suc m) zero [] = let e : suc m + zero ≡ suc m = omega arith in rw e
take-add (suc m) (suc n) [] = let e : suc m + suc n ≡ suc (m + suc n) = omega arith in rw e
take-add (suc m) n (x ∷ xs) =
    let e : suc m + n ≡ suc (m + n) = omega arith in rw e (ap (◌∷◌ x) (take-add m n xs))

-- A move down within the buffer: the bytes before it and those still unread stay, and the moved
-- bytes stand behind the former.
pub record Moved (buf buf' : Bytes) (w r n : ℕ) : Type 0 where
  pub width : length buf' ≡ length buf
  pub unread : drop (r + n) buf' ≡ drop (r + n) buf
  pub written : take (w + n) buf' ≡ take w buf ++ take n (drop r buf)

memmove-Moved :
    (buf : Bytes) (w r n : ℕ) → w ≤ r → r + n ≤ length buf → Moved buf (memmove buf w r n) w r n
unfolding memmove
memmove-Moved buf w r n h k =
    let pre = take w buf ++ take n (drop r buf) in
    let whole : take w buf ++ (take n (drop r buf) ++ drop (w + n) buf) ≡ pre ++ drop (w + n) buf =
      sym (append_assoc (take w buf) (take n (drop r buf)) (drop (w + n) buf)) in
    let size : length pre ≡ w + n = omega (
      arith,
      length-append (take w buf) (take n (drop r buf)),
      length-take w buf,
      length-take n (drop r buf),
      length-drop r buf,
    ) in
    let split : r + n ≡ (w + n) + (r - w) = omega arith in
    record {
      width =
          ap length whole
          ∙ length-append pre (drop (w + n) buf)
          ∙ omega (arith, length-drop (w + n) buf);
      unread =
          rw (whole, split)
            (sym (drop-drop (r - w) (w + n) (pre ++ drop (w + n) buf))
              ∙ ap (drop (r - w)) (drop-append_eq (w + n) pre (drop (w + n) buf) (sym size))
              ∙ drop-drop (r - w) (w + n) buf);
      written = rw whole (take-append_eq (w + n) pre (drop (w + n) buf) (sym size));
    }

pub move_down-Moved :
    (buf : Bytes) (w r n : ℕ)
    → w ≤ r
    → r + n ≤ length buf
    → Moved buf (move_down true buf w r n) w r n
unfolding move_down
move_down-Moved buf w r n h k = elim (Bool-cases (w == r)) [
  | inl e ↦
      let same : w ≡ r = ground arith in
      rw e (record {
        width = refl;
        unread = refl;
        written = take-add w n buf ∙ ap (λ j. take w buf ++ take n (drop j buf)) same;
      })
  | inr e ↦ rw e (memmove-Moved buf w r n h k)
]
