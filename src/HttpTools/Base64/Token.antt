-- ===== src/HttpTools/Base64/Token.antt =====
-- The tokens of `AmmServer_GenerateSecureToken`, src/AmmServerlib/tools/http_tools.c, read back.
use ammar_server.Base.{
  ℕ, ◌+◌, ◌*◌, ◌/◌, ◌%◌, ◌^◌, ◌≤◌, ◌<◌, ◌≡◌, refl, false, [], ◌∷◌, ◌++◌, Option, none, some, arith,
  Bytes, length, ltb, ◌==◌, uint, length-append, ◌>>=◌,
}
use ammar_server.HttpTools.Base64.{token_loop, generate_secure_token}
use ammar_server.HttpTools.Base64.RoundTrip.{AreBytes, sextet, sextet-base64url}

-- Base64url with no padding: a rest of two or three characters is one byte or two.
pub decode_base64url : Bytes → Option Bytes
decode_base64url [] = some []
decode_base64url (p ∷ []) = none
decode_base64url (p ∷ q ∷ []) = do
  v0 ← sextet b'-' b'_' p
  v1 ← sextet b'-' b'_' q
  some ((v0 * 4 + v1 / 16) ∷ [])
decode_base64url (p ∷ q ∷ r ∷ []) = do
  v0 ← sextet b'-' b'_' p
  v1 ← sextet b'-' b'_' q
  v2 ← sextet b'-' b'_' r
  some ((v0 * 4 + v1 / 16) ∷ (v1 % 16 * 16 + v2 / 4) ∷ [])
decode_base64url (p ∷ q ∷ r ∷ s ∷ rest) = do
  v0 ← sextet b'-' b'_' p
  v1 ← sextet b'-' b'_' q
  v2 ← sextet b'-' b'_' r
  v3 ← sextet b'-' b'_' s
  back ← decode_base64url rest
  some ((v0 * 4 + v1 / 16) ∷ (v1 % 16 * 16 + v2 / 4) ∷ (v2 % 4 * 64 + v3) ∷ back)

-- The buffer behind the next random byte.
abbrev next : ℕ → ℕ → ℕ
next bit_buffer byte = bit_buffer * 2 ^ 8 % uint + byte

token_loop-decode :
    (raw : Bytes) (bit_buffer : ℕ)
    → AreBytes raw
    → decode_base64url (token_loop raw bit_buffer 0) ≡ some raw
unfolding token_loop decode_base64url
token_loop-decode [] bit_buffer b = refl
token_loop-decode (x ∷ []) bit_buffer b =
    let one = next bit_buffer x in
    let f : one / 2 ^ 2 % 64 * 4 + one * 2 ^ 4 % uint % 64 / 16 ≡ x = omega (arith, b.0) in
    rw (sextet-base64url (one / 2 ^ 2), sextet-base64url (one * 2 ^ 4 % uint), f)
token_loop-decode (x ∷ y ∷ []) bit_buffer b =
    let one = next bit_buffer x in
    let two = next one y in
    let f : one / 2 ^ 2 % 64 * 4 + two / 2 ^ 4 % 64 / 16 ≡ x = omega (arith, b.0, b.1.0) in
    let g : two / 2 ^ 4 % 64 % 16 * 16 + two * 2 ^ 2 % uint % 64 / 4 ≡ y = omega (arith, b.1.0) in
    rw (
      sextet-base64url (one / 2 ^ 2),
      sextet-base64url (two / 2 ^ 4),
      sextet-base64url (two * 2 ^ 2 % uint),
      f,
      g,
    )
token_loop-decode (x ∷ y ∷ z ∷ raw) bit_buffer b =
    let one = next bit_buffer x in
    let two = next one y in
    let three = next two z in
    let f : one / 2 ^ 2 % 64 * 4 + two / 2 ^ 4 % 64 / 16 ≡ x = omega (arith, b.0, b.1.0) in
    let g : two / 2 ^ 4 % 64 % 16 * 16 + three / 2 ^ 6 % 64 / 4 ≡ y =
      omega (arith, b.1.0, b.1.1.0) in
    let k : three / 2 ^ 6 % 64 % 4 * 64 + three / 2 ^ 0 % 64 ≡ z = omega (arith, b.1.1.0) in
    rw (
      sextet-base64url (one / 2 ^ 2),
      sextet-base64url (two / 2 ^ 4),
      sextet-base64url (three / 2 ^ 6),
      sextet-base64url (three / 2 ^ 0),
      token_loop-decode raw three b.1.1.1,
      f,
      g,
      k,
    )

length-token_loop :
    (raw : Bytes) (bit_buffer : ℕ) → length (token_loop raw bit_buffer 0) ≡ (length raw * 8 + 5) / 6
unfolding token_loop
length-token_loop [] bit_buffer = refl
length-token_loop (x ∷ []) bit_buffer = refl
length-token_loop (x ∷ y ∷ []) bit_buffer = refl
length-token_loop (x ∷ y ∷ z ∷ raw) bit_buffer =
    omega (arith, length-token_loop raw (next (next (next bit_buffer x) y) z))

-- A token is given when some bytes are asked for and the system gives them, fewer than 2 ^ 28 of them,
-- and there is room for the token and its terminator; it then has ceil(8 n / 6) characters for n bytes,
-- which fit with the terminator, and read as base64url without padding they give the random bytes back.
pub generate_secure_token-decode :
    (out_size : ℕ) (raw : Bytes)
    → AreBytes raw
    → 0 < length raw
    → length raw < 2 ^ 28
    → (length raw * 8 + 5) / 6 < out_size
    → (token : Bytes) × (generate_secure_token out_size (length raw) (some raw)
        ≡ some (token ++ (0 ∷ [])))
      × (decode_base64url token ≡ some raw)
      × (length (token ++ (0 ∷ [])) ≤ out_size)
unfolding generate_secure_token
generate_secure_token-decode out_size raw b some_bytes small room =
    let asked : (length raw == 0) ≡ false = ground arith in
    let fits : ltb out_size ((length raw * 8 + 5) % uint / 6 + 1) ≡ false = ground arith in
    (
      token_loop raw 0 0,
      rw (asked, fits),
      token_loop-decode raw 0 b,
      omega (arith, length-append (token_loop raw 0 0) (0 ∷ []), length-token_loop raw 0),
    )
