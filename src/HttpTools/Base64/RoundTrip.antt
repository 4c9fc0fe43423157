-- ===== src/HttpTools/Base64/RoundTrip.antt =====
-- Base64 read back, by the rules of RFC 4648, for src/AmmServerlib/tools/http_tools.c.
use ammar_server.Base.{
  ℕ, zero, suc, ◌+◌, ◌-◌, ◌*◌, ◌/◌, ◌%◌, ◌^◌, ◌≤◌, ◌<◌, ◌≡◌, refl, ap, ◌∙◌, Bool, true, false, ◌&&◌,
  [], ◌∷◌, ◌++◌, Option, none, some, arith, Bytes, length, get_or, replicate, ltb, leb, ◌==◌,
  if◌then◌else◌, length-append, length-replicate, inl, inr, Bool-cases, ==_iff, ◌>>=◌, ◌↔◌,
}
use ammar_server.HttpTools.Base64.{
  base64, base64url, digit, case_3, encode_triads, encode_to_base64,
}

abbrev pub AreBytes : Bytes → Type 0
AreBytes [] = Unit
AreBytes (c ∷ s) = (c < 256) × AreBytes s

-- The value of a character; the last two differ in the two alphabets.
pub sextet : ℕ → ℕ → ℕ → Option ℕ
sextet plus slash c =
    if leb b'A' c && leb c b'Z'
    then some (c - b'A')
    else if leb b'a' c && leb c b'z'
    then some (c - b'a' + 26)
    else if leb b'0' c && leb c b'9'
    then some (c - b'0' + 52)
    else if c == plus
    then some 62
    else if c == slash
    then some 63
    else none

pub eq_some : Option ℕ → ℕ → Bool
eq_some none v = false
eq_some (some w) v = w == v

eq_some_lem : (o : Option ℕ) (v : ℕ) → eq_some o v ≡ true → o ≡ some v
unfolding eq_some
eq_some_lem none v h = cc
eq_some_lem (some w) v h = ap some ((==_iff w v).0 h)

all_below : ℕ → (ℕ → Bool) → Bool
all_below zero p = true
all_below (suc n) p = p n && all_below n p

all_below_lem : (n : ℕ) (p : ℕ → Bool) (x : ℕ) → all_below n p ≡ true → x < n → p x ≡ true
unfolding all_below
all_below_lem zero p x h lt = absurd (omega arith)
all_below_lem (suc n) p x h lt = ground (arith, all_below_lem n p x)

table_base64 : all_below 64 (λ v. eq_some (sextet b'+' b'/' (digit base64 v)) v) ≡ true
unfolding all_below eq_some sextet digit
table_base64 = refl

table_base64url : all_below 64 (λ v. eq_some (sextet b'-' b'_' (digit base64url v)) v) ≡ true
unfolding all_below eq_some sextet digit
table_base64url = refl

digit_mod : (table : Bytes) (v : ℕ) → digit table v ≡ digit table (v % 64)
unfolding digit
digit_mod table v = ap (λ i. get_or table i 0) (omega arith)

pub sextet-base64 : (v : ℕ) → sextet b'+' b'/' (digit base64 v) ≡ some (v % 64)
sextet-base64 v =
    ap (sextet b'+' b'/') (digit_mod base64 v)
    ∙ eq_some_lem _ (v % 64) (
        all_below_lem 64 (λ w. eq_some (sextet b'+' b'/' (digit base64 w)) w) (v % 64) table_base64
          (omega arith))

pub sextet-base64url : (v : ℕ) → sextet b'-' b'_' (digit base64url v) ≡ some (v % 64)
sextet-base64url v =
    ap (sextet b'-' b'_') (digit_mod base64url v)
    ∙ eq_some_lem _ (v % 64) (
        all_below_lem 64 (λ w. eq_some (sextet b'-' b'_' (digit base64url w)) w) (v % 64)
          table_base64url (omega arith))

-- No digit is the padding.
table_padding : all_below 64 (λ v. if digit base64 v == b'=' then false else true) ≡ true
unfolding all_below digit
table_padding = refl

digit-padding : (v : ℕ) → (digit base64 v == b'=') ≡ false
digit-padding v =
    ap (λ d. d == b'=') (digit_mod base64 v)
    ∙ ground (
      arith,
      all_below_lem 64 (λ w. if digit base64 w == b'=' then false else true) (v % 64) table_padding,
    )

-- Four characters, with one or two of padding.
pub decode_quad : ℕ → ℕ → ℕ → ℕ → Option Bytes
decode_quad p q r s = do
  v0 ← sextet b'+' b'/' p
  v1 ← sextet b'+' b'/' q
  let first = v0 * 4 + v1 / 16
  let two = do
    v2 ← sextet b'+' b'/' r
    let second = v1 % 16 * 16 + v2 / 4
    let three = do v3 ← sextet b'+' b'/' s; some (first ∷ second ∷ (v2 % 4 * 64 + v3) ∷ [])
    if s == b'=' then some (first ∷ second ∷ []) else three
  if r == b'=' then some (first ∷ []) else two

pub decode_base64 : Bytes → Option Bytes
decode_base64 [] = some []
decode_base64 (p ∷ []) = none
decode_base64 (p ∷ q ∷ []) = none
decode_base64 (p ∷ q ∷ r ∷ []) = none
decode_base64 (p ∷ q ∷ r ∷ s ∷ rest) = do
  front ← decode_quad p q r s
  back ← decode_base64 rest
  some (front ++ back)

decode_quad_1 :
    (sr : ℕ)
    → decode_quad (digit base64 (sr / 64)) (digit base64 sr) b'=' b'='
      ≡ some ((sr / 64 % 64 * 4 + sr % 64 / 16) ∷ [])
unfolding decode_quad
decode_quad_1 sr = rw (sextet-base64 (sr / 64), sextet-base64 sr)

decode_quad_2 :
    (sr : ℕ)
    → decode_quad (digit base64 (sr / 64 / 64)) (digit base64 (sr / 64)) (digit base64 sr) b'='
      ≡ some (
          (sr / 64 / 64 % 64 * 4 + sr / 64 % 64 / 16) ∷ (sr / 64 % 64 % 16 * 16 + sr % 64 / 4) ∷ [])
unfolding decode_quad
decode_quad_2 sr =
    rw (sextet-base64 (sr / 64 / 64), sextet-base64 (sr / 64), sextet-base64 sr, digit-padding sr)

decode_quad_3 :
    (sr : ℕ)
    → decode_quad
        (digit base64 (sr / 64 / 64 / 64))
        (digit base64 (sr / 64 / 64))
        (digit base64 (sr / 64))
        (digit base64 sr)
      ≡ some (
          (sr / 64 / 64 / 64 % 64 * 4 + sr / 64 / 64 % 64 / 16)
          ∷ (sr / 64 / 64 % 64 % 16 * 16 + sr / 64 % 64 / 4)
          ∷ (sr / 64 % 64 % 4 * 64 + sr % 64)
          ∷ [])
unfolding decode_quad
decode_quad_3 sr = rw (
  sextet-base64 (sr / 64 / 64 / 64),
  sextet-base64 (sr / 64 / 64),
  sextet-base64 (sr / 64),
  sextet-base64 sr,
  digit-padding (sr / 64),
  digit-padding sr,
)

-- Four characters for each three bytes, or part of three.
abbrev pub padded_length : ℕ → ℕ
padded_length n = (n + 2) / 3 * 4

-- What is written when there is room, with the bytes that it stands for.
pub record Encodes (src : Bytes) (text : Bytes) : Type 0 where
  pub decoded : decode_base64 text ≡ some src
  pub size : length text ≡ padded_length (length src)

pub encode_triads-Encodes :
    (src : Bytes) (room : ℕ)
    → AreBytes src
    → padded_length (length src) ≤ room
    → ((encode_triads src room).1 ≡ true) × Encodes src (encode_triads src room).0
unfolding encode_triads decode_base64
encode_triads-Encodes [] room b h = (refl, record { decoded = refl; size = refl })
encode_triads-Encodes (x ∷ []) room b h =
    let e : ltb room 4 ≡ false = ground arith in
    let sr = (0 * 2 ^ 8 + x % 2 ^ 8) * 2 ^ 4 in
    let f : sr / 64 % 64 * 4 + sr % 64 / 16 ≡ x = omega (arith, b.0) in
    rw e (refl, record { decoded = rw (decode_quad_1 sr, f); size = refl })
encode_triads-Encodes (x ∷ y ∷ []) room b h =
    let e : ltb room 4 ≡ false = ground arith in
    let sr = ((0 * 2 ^ 8 + x % 2 ^ 8) * 2 ^ 8 + y % 2 ^ 8) * 2 ^ 2 in
    let f : sr / 64 / 64 % 64 * 4 + sr / 64 % 64 / 16 ≡ x = omega (arith, b.0, b.1.0) in
    let g : sr / 64 % 64 % 16 * 16 + sr % 64 / 4 ≡ y = omega (arith, b.1.0) in
    rw e (refl, record { decoded = rw (decode_quad_2 sr, f, g); size = refl })
encode_triads-Encodes (x ∷ y ∷ z ∷ src) room b h =
    let e : ltb room 4 ≡ false = ground arith in
    let sr = ((0 * 2 ^ 8 + x % 2 ^ 8) * 2 ^ 8 + y % 2 ^ 8) * 2 ^ 8 + z % 2 ^ 8 in
    let f : sr / 64 / 64 / 64 % 64 * 4 + sr / 64 / 64 % 64 / 16 ≡ x =
      omega (arith, b.0, b.1.0, b.1.1.0) in
    let g : sr / 64 / 64 % 64 % 16 * 16 + sr / 64 % 64 / 4 ≡ y = omega (arith, b.1.0, b.1.1.0) in
    let k : sr / 64 % 64 % 4 * 64 + sr % 64 ≡ z = omega (arith, b.1.1.0) in
    let (run, enc) = encode_triads-Encodes src (room - 4) b.1.1.1 (omega arith) in
    rw e (
      run,
      record {
        decoded = rw (decode_quad_3 sr, f, g, k, enc.decoded);
        size = omega (arith, enc.size);
      },
    )

-- When the bytes fit, four characters for each three of them, 1 is returned and the destination holds a
-- text of that length and zeros behind it, and the text, read by the rules of RFC 4648 with its padding,
-- gives the bytes back.
pub encode_to_base64-decode :
    (src : Bytes) (d_len : ℕ)
    → AreBytes src
    → padded_length (length src) ≤ d_len
    → (text : Bytes) × (encode_to_base64 src d_len
        ≡ (text ++ replicate (d_len - length text) 0, true))
      × (decode_base64 text ≡ some src)
      × (length text ≡ padded_length (length src))
unfolding encode_to_base64
encode_to_base64-decode src d_len b h =
    let (run, enc) = encode_triads-Encodes src d_len b h in
    let text = (encode_triads src d_len).0 in
    (text, ap (λ r. (text ++ replicate (d_len - length text) 0, r)) run, enc.decoded, enc.size)

encode_triads_room :
    (src : Bytes) (room : ℕ)
    → (length (encode_triads src room).0 ≤ room)
      × (((encode_triads src room).1 ≡ true) ↔ (padded_length (length src) ≤ room))
unfolding encode_triads case_3
encode_triads_room [] room = ground arith
encode_triads_room (x ∷ []) room = ground arith
encode_triads_room (x ∷ y ∷ []) room = ground arith
encode_triads_room (x ∷ y ∷ z ∷ src) room = elim (Bool-cases (ltb room 4)) [
  | inl e ↦ rw e (ground arith)
  | inr e ↦
      let (fits, iff) = encode_triads_room src (room - 4) in
      let four : 4 ≤ room = ground arith in
      rw e (omega arith, ((λ h. let k = iff.0 h in ground arith), (λ h. iff.1 (omega arith))))
]

-- For any source, as many bytes as the destination has are written, and never more; 1 is returned
-- exactly when there is room for four characters for each three bytes, or part of three.
pub encode_to_base64_room :
    (src : Bytes) (d_len : ℕ)
    → (length (encode_to_base64 src d_len).0 ≡ d_len)
      × (((encode_to_base64 src d_len).1 ≡ true) ↔ (padded_length (length src) ≤ d_len))
unfolding encode_to_base64
encode_to_base64_room src d_len =
    let (fits, iff) = encode_triads_room src d_len in
    let text = (encode_triads src d_len).0 in
    (
      omega (
        arith,
        length-append text (replicate (d_len - length text) 0),
        length-replicate {A = ℕ} (d_len - length text) 0,
      ),
      iff,
    )
