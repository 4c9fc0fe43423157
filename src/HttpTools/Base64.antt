-- ===== src/HttpTools/Base64.antt =====
-- `encodeToBase64` and the encoding of `AmmServer_GenerateSecureToken`, src/AmmServerlib/tools/http_tools.c.
-- The source, the random bytes that the system gives and the sizes are arguments. A shift to the left
-- leaves zeros, so that the following `|` adds.
pub mod RoundTrip
pub mod Token
use ammar_server.Base.{
  ℕ, zero, suc, ◌+◌, ◌-◌, ◌*◌, ◌/◌, ◌%◌, ◌^◌, Bool, true, false, List, [], ◌∷◌, ◌++◌, Option, none,
  some, Bytes, length, get_or, replicate, ltb, ◌==◌, if◌then◌else◌, uint,
}
use ammar_server.Base.Text.{codes}

-- `base64[]` and `base64url[]`
abbrev pub base64 : Bytes
base64 = codes "ABCDEFGHIJKLMNOPQRSTUVWXYZabcdefghijklmnopqrstuvwxyz0123456789+/"

abbrev pub base64url : Bytes
base64url = codes "ABCDEFGHIJKLMNOPQRSTUVWXYZabcdefghijklmnopqrstuvwxyz0123456789-_"

-- `table[bits&0x3f]`
unfoldable pub digit : Bytes → ℕ → ℕ
digit table bits = get_or table (bits % 64) 0

-- The cases of the `switch`, each of which falls into the next; what none of them writes is '='.
unfoldable pub case_1 : ℕ → ℕ → ℕ → Bytes
unfolding digit
case_1 sr third fourth = digit base64 (sr / 64) ∷ digit base64 sr ∷ third ∷ fourth ∷ []

unfoldable pub case_2 : ℕ → ℕ → Bytes
unfolding case_1
case_2 sr fourth = case_1 (sr / 64) (digit base64 sr) fourth

unfoldable pub case_3 : ℕ → Bytes
unfolding case_2
case_3 sr = case_2 (sr / 64) (digit base64 sr)

-- `sr <<= 8; sr |= byte`
abbrev pub shift_in : ℕ → ℕ → ℕ
shift_in sr byte = sr * 2 ^ 8 + byte % 2 ^ 8

-- The rounds of the loop on `triad`, with the room that is left: what they write and what is returned.
unfoldable pub encode_triads : Bytes → ℕ → Bytes × Bool
unfolding case_3
encode_triads [] room = ([], true)
encode_triads (a ∷ []) room =
    if ltb room 4 then ([], false) else (case_1 (shift_in 0 a * 2 ^ 4) b'=' b'=', true)
encode_triads (a ∷ b ∷ []) room =
    if ltb room 4 then ([], false) else (case_2 (shift_in (shift_in 0 a) b * 2 ^ 2) b'=', true)
encode_triads (a ∷ b ∷ c ∷ src) room =
    let rest = encode_triads src (room - 4) in
    if ltb room 4
    then ([], false)
    else (case_3 (shift_in (shift_in (shift_in 0 a) b) c) ++ rest.0, rest.1)

-- The destination, which `memset` has cleared.
unfoldable pub encode_to_base64 : Bytes → ℕ → Bytes × Bool
unfolding encode_triads
encode_to_base64 src d_len =
    let written = encode_triads src d_len in
    (written.0 ++ replicate (d_len - length written.0) 0, written.1)

-- `while (bitCount>=6)`, with the bits that are left.
unfoldable pub drain_bits : ℕ → ℕ → Bytes × ℕ
unfolding digit
drain_bits bit_buffer (suc (suc (suc (suc (suc (suc bit_count)))))) =
    let rest = drain_bits bit_buffer bit_count in
    (digit base64url (bit_buffer / 2 ^ bit_count) ∷ rest.0, rest.1)
drain_bits bit_buffer bit_count = ([], bit_count)

-- The loop on the random bytes, and the bits that are left at its end.
unfoldable pub token_loop : Bytes → ℕ → ℕ → Bytes
unfolding drain_bits
token_loop [] bit_buffer bit_count =
    if ltb 0 bit_count then digit base64url (bit_buffer * 2 ^ (6 - bit_count) % uint) ∷ [] else []
token_loop (byte ∷ raw) bit_buffer bit_count =
    let shifted = bit_buffer * 2 ^ 8 % uint + byte in
    let drained = drain_bits shifted (bit_count + 8) in
    drained.0 ++ token_loop raw shifted drained.1

unfoldable pub encoded_length : ℕ → ℕ
encoded_length n = (n * 8 + 5) % uint / 6

-- What is written to `out`, terminator included, or 0. `raw` is what the system gave for the call: as
-- many bytes as were asked for, or nothing.
unfoldable pub generate_secure_token : ℕ → ℕ → Option Bytes → Option Bytes
unfolding token_loop encoded_length
generate_secure_token out_size num_random_bytes raw =
    if num_random_bytes == 0
    then none
    else if ltb out_size (encoded_length num_random_bytes + 1)
    then none
    else elim raw [ none ↦ none | some bytes ↦ some (token_loop bytes 0 0 ++ (0 ∷ [])) ]
