-- ===== src/HttpTools/Examples.antt =====
-- Small paths and names of files for src/AmmServerlib/tools/http_tools.c.
use ammar_server.Base.{
  ℕ, suc, ◌+◌, ◌-◌, ◌≤◌, ◌<◌, ◌≡◌, ◌↔◌, ◌⊎◌, refl, true, Bytes, some, length, arith, [], ◌∷◌, ◌++◌,
  none, replicate, false,
}
use ammar_server.Base.Text.{codes}
use ammar_server.Scanners.Words.{to_upper, strncasecmp, is_word, fixed_word}
use ammar_server.Scanners.TextFiles.{scan_for_text_files, css_word}
use ammar_server.HttpTools.Base64.{encode_to_base64, generate_secure_token}
use ammar_server.HttpTools.Base64.RoundTrip.{
  padded_length, decode_base64, encode_to_base64-decode, encode_to_base64_room,
}
use ammar_server.HttpTools.Base64.Token.{decode_base64url, generate_secure_token-decode}
use ammar_server.HttpTools.Unescape.{escaped, strip_html_characters}
use ammar_server.HttpTools.Unescape.Text.{unescape}
use ammar_server.HttpTools.Unescape.Exact.{
  strip_html_characters-unescape, strip_html_characters_overrun,
}
use ammar_server.HttpTools.ContentType.{text_files_type, get_content_type_for_extension}
use ammar_server.HttpTools.ContentType.Fits.{flash_type, content_type_fits}
use ammar_server.HttpTools.ContentType.LastDot.{NoDot}
use ammar_server.HttpTools.Paths.{
  max_resource_slashes, is_unprintable, check_backwards, filename_stripper_ok, count_slashes,
  IsAllowed, filename_stripper_ok_iff,
}

abbrev path : Bytes
path = codes "/a/b.html"

path_ok : filename_stripper_ok path ≡ true
unfolding filename_stripper_ok check_backwards is_unprintable
path_ok = refl

filename_stripper_ok_iff_example : (filename_stripper_ok path ≡ true) ↔ (
    (0 < length path)
    × ((j : ℕ) → suc j < length path → IsAllowed path j)
    × (count_slashes path (length path - 1) ≤ max_resource_slashes))
filename_stripper_ok_iff_example = filename_stripper_ok_iff path

abbrev ext : Bytes
ext = codes "Css"

css : get_content_type_for_extension ext 100 ≡ some (codes "text/css")
unfolding get_content_type_for_extension scan_for_text_files text_files_type is_word to_upper
    strncasecmp fixed_word css_word
css = refl

content_type_fits_example :
    (length (codes "text/css") + 1 ≤ 100) ⊎ ((codes "text/css" ≡ flash_type) × ◌≡◌ {A = ℕ} 100 29)
content_type_fits_example = content_type_fits ext 100 (codes "text/css") css

ext-NoDot : NoDot ext
ext-NoDot =
    (λ h. absurd (omega arith), (λ h. absurd (omega arith), (λ h. absurd (omega arith), tt)))

-- "light w" and its base64.
abbrev light : Bytes
light = codes "light w"

light_base64 : encode_to_base64 light 16 ≡ (codes "bGlnaHQgdw==" ++ (0 ∷ 0 ∷ 0 ∷ 0 ∷ []), true)
unfolding encode_to_base64
light_base64 = refl

light_too_long : encode_to_base64 light 8 ≡ (codes "bGlnaHQg", false)
unfolding encode_to_base64
light_too_long = refl

encode_to_base64-decode_example :
    (text : Bytes) × (encode_to_base64 light 16 ≡ (text ++ replicate (16 - length text) 0, true))
    × (decode_base64 text ≡ some light)
    × (length text ≡ padded_length (length light))
encode_to_base64-decode_example = encode_to_base64-decode light 16 (omega arith) (omega arith)

encode_to_base64_room_example :
    (length (encode_to_base64 light 8).0 ≡ 8)
    × (((encode_to_base64 light 8).1 ≡ true) ↔ (padded_length (length light) ≤ 8))
encode_to_base64_room_example = encode_to_base64_room light 8

light_token : generate_secure_token 64 7 (some light) ≡ some (codes "bGlnaHQgdw" ++ (0 ∷ []))
unfolding generate_secure_token
light_token = refl

generate_secure_token-decode_example :
    (token : Bytes) × (generate_secure_token 64 (length light) (some light)
      ≡ some (token ++ (0 ∷ [])))
    × (decode_base64url token ≡ some light)
    × (length (token ++ (0 ∷ [])) ≤ 64)
generate_secure_token-decode_example =
    generate_secure_token-decode 64 light (omega arith) (omega arith) (omega arith) (omega arith)

-- An escape, and one that is refused.
abbrev spaced : Bytes
spaced = codes "a%20%00"

spaced_stripped :
    strip_html_characters true (spaced ++ (0 ∷ 9 ∷ 9 ∷ []))
    ≡ some (codes "a _00" ++ (0 ∷ 9 ∷ 0 ∷ 9 ∷ 9 ∷ []))
unfolding strip_html_characters escaped
spaced_stripped = refl

strip_html_characters-unescape_example :
    (filename rest : Bytes) × (strip_html_characters true (spaced ++ (0 ∷ 9 ∷ 9 ∷ []))
      ≡ some filename)
    × (filename ≡ unescape true spaced ++ (0 ∷ rest))
    × (length filename ≡ length (spaced ++ (0 ∷ 9 ∷ 9 ∷ [])))
strip_html_characters-unescape_example =
    strip_html_characters-unescape true spaced (9 ∷ 9 ∷ []) (omega arith) (omega arith) shorter
  where
    shorter : length spaced - length (unescape true spaced) ≤ 2
    shorter = unfold unescape escaped in omega arith

strip_html_characters_overrun_example : strip_html_characters true (spaced ++ (0 ∷ [])) ≡ none
strip_html_characters_overrun_example =
    strip_html_characters_overrun true spaced [] (omega arith) (omega arith) shorter
  where
    shorter : 0 < length spaced - length (unescape true spaced)
    shorter = unfold unescape escaped in omega arith
