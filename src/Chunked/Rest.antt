-- ===== src/Chunked/Rest.antt =====
-- What the line parsers of src/AmmServerlib/header_analysis/chunked_transfer.c leave unread.
use mathlib.Core.List.{append_assoc}
use ammar_server.Base.{
  ℕ, ◌+◌, ◌-◌, ◌*◌, ◌%◌, ◌≤◌, ◌≡◌, refl, sym, ap, ◌∙◌, [], ◌∷◌, ◌++◌, some, inl, inr, arith, Bytes,
  length, drop, length-append, drop-append_eq, ◌==◌, Bool-cases, Option-cases, take,
  take-append-drop,
}
use ammar_server.Chunked.{
  hex_value, scan_digits, Digits, is_eol, skip_line, Eol, eol_ok, eol_wait, eol_bad, eol_none,
  take_eol, size_line, limit_size, end_size_line, parse_chunk_size_line, ulong, position,
}

-- `rest` is what is left of `s` behind at least `n` bytes.
abbrev pub Leaves : ℕ → Bytes → Bytes → Type 0
Leaves n s rest = (pre : Bytes) × (s ≡ pre ++ rest) × (n ≤ length pre)

pub Leaves-length : (n : ℕ) (s rest : Bytes) → Leaves n s rest → length rest + n ≤ length s
Leaves-length n s rest (pre, e, h) = rw e (omega (arith, length-append pre rest))

weaken : (n : ℕ) (s rest : Bytes) → Leaves n s rest → Leaves 0 s rest
weaken n s rest (pre, e, h) = (pre, e, omega arith)

pub Leaves-trans : (m n : ℕ) (a b c : Bytes) → Leaves m a b → Leaves n b c → Leaves (m + n) a c
Leaves-trans m n a b c (p, e, h) (q, f, k) =
    (p ++ q, e ∙ ap (◌++◌ p) f ∙ sym (append_assoc p q c), omega (arith, length-append p q))

-- The position of an end of a buffer leads back to it.
pub drop-position :
    (n r : ℕ) (buf rest : Bytes)
    → r ≤ length buf
    → Leaves n (drop r buf) rest
    → drop (position (length buf) rest) buf ≡ rest
drop-position n r buf rest h (pre, e, k) =
    let whole : buf ≡ (take r buf ++ pre) ++ rest =
      sym (take-append-drop r buf)
      ∙ ap (◌++◌ (take r buf)) e
      ∙ sym (append_assoc (take r buf) pre rest) in
    let size : length buf ≡ length (take r buf ++ pre) + length rest =
      ap length whole ∙ length-append (take r buf ++ pre) rest in
    ap (drop (position (length buf) rest)) whole
    ∙ drop-append_eq (position (length buf) rest) (take r buf ++ pre) rest (omega arith)

-- The digits counted are bytes that were read.
pub scan_digits-Leaves :
    (s : Bytes) (size digits : ℕ) (d : Digits)
    → scan_digits s size digits ≡ some d
    → Leaves (d.digits - digits) s d.rest
unfolding scan_digits
scan_digits-Leaves [] size digits d h = ([], ground arith, ground arith)
scan_digits-Leaves (c ∷ cs) size digits d h = elim (Option-cases (hex_value c)) [
  | inl e ↦ ([], ground arith, ground arith)
  | inr (v, e) ↦
      let more = scan_digits-Leaves cs ((size * 16 + v) % ulong) (digits + 1) d (ground arith) in
      (c ∷ more.0, ap (◌∷◌ c) more.1, omega (arith, more.2))
]

pub skip_line-Leaves : (s : Bytes) → Leaves 0 s (skip_line s)
unfolding skip_line
skip_line-Leaves [] = ([], refl, omega arith)
skip_line-Leaves (c ∷ cs) = elim (Bool-cases (is_eol c)) [
  | inl e ↦ ([], rw e, omega arith)
  | inr e ↦ let more = skip_line-Leaves cs in (c ∷ more.0, rw e (ap (◌∷◌ c) more.1), omega arith)
]

pub take_eol-Leaves : (s rest : Bytes) → take_eol s ≡ eol_ok rest → Leaves 1 s rest
unfolding take_eol
take_eol-Leaves [] rest h = cc
take_eol-Leaves (c ∷ []) rest h = (c ∷ [], ground arith, omega arith)
take_eol-Leaves (c ∷ d ∷ cs) rest h = elim (Bool-cases (c == 13)) [
  | inl e ↦ (c ∷ d ∷ [], ground arith, omega arith)
  | inr e ↦ (c ∷ [], ground arith, omega arith)
]

end_size_line-Leaves :
    (max decoded size n : ℕ) (s rest : Bytes)
    → end_size_line max decoded size (take_eol s) ≡ size_line n rest
    → (n ≡ size) × Leaves 1 s rest × (size ≤ max) × (decoded + size ≤ max)
unfolding end_size_line limit_size
end_size_line-Leaves max decoded size n s rest h = go (take_eol s) refl h
  where
    go :
        (e : Eol)
        → take_eol s ≡ e
        → end_size_line max decoded size e ≡ size_line n rest
        → (n ≡ size) × Leaves 1 s rest × (size ≤ max) × (decoded + size ≤ max)
    go (eol_ok r) e k =
        let same : r ≡ rest = ground arith in
        (ground arith, take_eol-Leaves s rest (e ∙ ap eol_ok same), ground arith, ground arith)
    go eol_wait e k = cc
    go eol_bad e k = cc
    go eol_none e k = cc

-- A size line is at least two bytes long, and its size fits in what is left of the limit.
pub size_line-Leaves :
    (s : Bytes) (max decoded n : ℕ) (rest : Bytes)
    → parse_chunk_size_line s max decoded ≡ size_line n rest
    → Leaves 1 s rest × (n ≤ max) × (decoded + n ≤ max)
unfolding parse_chunk_size_line
size_line-Leaves s max decoded n rest h = elim (Option-cases (scan_digits s 0 0)) [
  | inl e ↦ cc
  | inr (d, e) ↦
      let line = end_size_line-Leaves max decoded d.size n (skip_line d.rest) rest (ground arith) in
      (
        Leaves-trans 0 1 s (skip_line d.rest) rest
            (Leaves-trans 0 0 s d.rest (skip_line d.rest)
              (weaken _ s d.rest (scan_digits-Leaves s 0 0 d e)) (skip_line-Leaves d.rest))
            line.1,
        omega (arith, line.0, line.2),
        omega (arith, line.0, line.3),
      )
]
