-- ===== src/Chunked/Frames.antt =====
-- Bodies that a sender writes: chunks with any spelling of their size in hexadecimal.
use mathlib.Core.List.{append_assoc, append-nil}
use ammar_server.Base.{
  ℕ, suc, ◌+◌, ◌-◌, ◌*◌, ◌/◌, ◌%◌, ◌≤◌, ◌<◌, ◌≡◌, refl, ap, ◌∙◌, false, List, [], ◌∷◌, ◌++◌, Option,
  none, some, inl, inr, arith, Bytes, length, length-append, drop-append_eq, take-append_eq, ◌==◌,
  ltb, Option-cases,
}
use ammar_server.Chunked.{
  hex_value, scan_digits, skip_line, ulong, limit_size, end_size_line, size_line_of, take_eol,
  size_line, parse_chunk_size_line, uint,
}
use ammar_server.Chunked.Decoder.{behind_data, behind_size, decode}

pub record Chunk : Type 0 where
  pub size_text : Bytes
  pub content : Bytes

-- The number that hexadecimal digits spell, behind `n`.
unfoldable pub hex_number : Bytes → ℕ → Option ℕ
hex_number [] n = some n
hex_number (c ∷ cs) n = elim (hex_value c) [ none ↦ none | some v ↦ hex_number cs (n * 16 + v) ]

-- The text spells the length of the content, which is not empty.
pub record IsChunk (c : Chunk) : Type 0 where
  pub spelled : hex_number c.size_text 0 ≡ some (length c.content)
  pub has_text : 0 < length c.size_text
  pub has_content : 0 < length c.content

abbrev pub AreChunks : List Chunk → Type 0
AreChunks [] = Unit
AreChunks (c ∷ cs) = IsChunk c × AreChunks cs

abbrev pub frame : Chunk → Bytes → Bytes
frame c rest = c.size_text ++ (13 ∷ 10 ∷ (c.content ++ (13 ∷ 10 ∷ rest)))

-- The framed chunks with `rest` behind them.
abbrev pub frames : List Chunk → Bytes → Bytes
frames [] rest = rest
frames (c ∷ cs) rest = frame c (frames cs rest)

abbrev pub contents : List Chunk → Bytes
contents [] = []
contents (c ∷ cs) = c.content ++ contents cs

hex_number-ge : (ds : Bytes) (n m : ℕ) → hex_number ds n ≡ some m → n ≤ m
unfolding hex_number
hex_number-ge [] n m h = ground arith
hex_number-ge (c ∷ cs) n m h = elim (Option-cases (hex_value c)) [
  | inl e ↦ absurd (cc (rw (e, hex_number) at h))
  | inr (v, e) ↦ omega (arith, hex_number-ge cs (n * 16 + v) m (rw (e, hex_number) at h))
]

scan_digits_cr :
    (rest : Bytes) (n k : ℕ)
    → scan_digits (13 ∷ rest) n k ≡ some (record { size = n; digits = k; rest = 13 ∷ rest })
unfolding scan_digits hex_value
scan_digits_cr rest n k = refl

scan_digits-hex_number :
    (ds rest : Bytes) (n k m : ℕ)
    → hex_number ds n ≡ some m
    → m < uint
    → scan_digits (ds ++ (13 ∷ rest)) n k
      ≡ some (record { size = m; digits = k + length ds; rest = 13 ∷ rest })
unfolding scan_digits hex_number
scan_digits-hex_number [] rest n k m h small = scan_digits_cr rest n k ∙ ground arith
scan_digits-hex_number (c ∷ cs) rest n k m h small = elim (Option-cases (hex_value c)) [
  | inl e ↦ absurd (cc (rw (e, hex_number) at h))
  | inr (v, e) ↦
      let more = rw (e, hex_number) at h in
      let bound = hex_number-ge cs (n * 16 + v) m more in
      let whole : (n * 16 + v) % ulong ≡ n * 16 + v = omega arith in
      let guard : ltb ((ulong - 1 - 15) / 16) n ≡ false = ground arith in
      let count : k + 1 + length cs ≡ k + suc (length cs) = omega arith in
      rw (e, scan_digits, guard, whole)
        (scan_digits-hex_number cs rest (n * 16 + v) (k + 1) m more small ∙ rw count)
]

-- The size line of a framed chunk is read whole, if the content is within the limit.
size_line-frame :
    (c : Chunk) (max decoded : ℕ) (rest : Bytes)
    → IsChunk c
    → length c.content < uint
    → decoded + length c.content ≤ max
    → parse_chunk_size_line (frame c rest) max decoded
      ≡ size_line (length c.content) (c.content ++ (13 ∷ 10 ∷ rest))
unfolding parse_chunk_size_line size_line_of skip_line take_eol end_size_line limit_size
size_line-frame c max decoded rest v small fits =
    rw
      (scan_digits-hex_number c.size_text (10 ∷ (c.content ++ (13 ∷ 10 ∷ rest))) 0 0
        (length c.content) v.spelled small)
      (ground (arith, v.has_text))

pub decode-frame :
    (c : Chunk) (fuel max : ℕ) (rest out : Bytes)
    → IsChunk c
    → length c.content < uint
    → length out + length c.content ≤ max
    → decode (suc fuel) max (frame c rest) out ≡ decode fuel max rest (out ++ c.content)
unfolding decode behind_size
decode-frame c fuel max rest out v small fits =
    let tail = 13 ∷ 10 ∷ rest in
    let some_left : (length c.content == 0) ≡ false = ground (arith, v.has_content) in
    let there : ltb (length (c.content ++ tail)) (length c.content) ≡ false =
      ground (arith, length-append c.content tail) in
    rw
      (
        size_line-frame c max (length out) rest v small fits,
        some_left,
        there,
        drop-append_eq (length c.content) c.content tail refl,
        take-append_eq (length c.content) c.content tail refl,
      )
      (unfold behind_data take_eol in refl)

pub decode-frames :
    (cs : List Chunk) (fuel max : ℕ) (rest out : Bytes)
    → AreChunks cs
    → length (contents cs) < uint
    → length out + length (contents cs) ≤ max
    → decode (length cs + fuel) max (frames cs rest) out ≡ decode fuel max rest (out ++ contents cs)
decode-frames [] fuel max rest out v small fits =
    let e : 0 + fuel ≡ fuel = omega arith in rw (e, append-nil)
decode-frames (c ∷ cs) fuel max rest out v small fits =
    let e : suc (length cs) + fuel ≡ suc (length cs + fuel) = omega arith in
    let size = length-append c.content (contents cs) in
    let out_size = length-append out c.content in
    rw e (
      decode-frame c (length cs + fuel) max (frames cs rest) out v.0 (omega arith) (omega arith)
      ∙ decode-frames cs fuel max rest (out ++ c.content) v.1 (omega arith) (omega arith)
      ∙ ap (decode fuel max rest) (append_assoc out c.content (contents cs)))

pub length-frames :
    (cs : List Chunk) (rest : Bytes)
    → length cs + length (contents cs) + length rest ≤ length (frames cs rest)
length-frames [] rest = omega arith
length-frames (c ∷ cs) rest =
    let tail = c.content ++ (13 ∷ 10 ∷ frames cs rest) in
    omega (
      arith,
      length-append c.size_text (13 ∷ 10 ∷ tail),
      length-append c.content (13 ∷ 10 ∷ frames cs rest),
      length-append c.content (contents cs),
      length-frames cs rest,
    )
