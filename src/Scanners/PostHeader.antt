-- ===== src/Scanners/PostHeader.antt =====
-- `scanFor_postHeader`, src/AmmServerlib/stringscanners/postHeader.c: a switch over the first letters, then the
-- words. The codes are constructors, and `none` is 0.
pub mod Table
use ammar_server.Base.{ℕ, List, [], ◌∷◌, Option, none, some, Bytes, ltb, ◌==◌, if◌then◌else◌}
use ammar_server.Base.Text.{codes}
use ammar_server.Scanners.Words.{upper_at, is_word, fixed_word, Word, word}

pub data PostHeader : Type 0 where
  content_type content_disposition content_length upgrade_insecure_requests connection : PostHeader

unfoldable pub content_type_word : Bytes
content_type_word = codes "CONTENT-TYPE:"

unfoldable pub content_disposition_word : Bytes
content_disposition_word = codes "CONTENT-DISPOSITION:"

unfoldable pub content_length_word : Bytes
content_length_word = codes "CONTENT-LENGTH:"

unfoldable pub upgrade_insecure_requests_word : Bytes
upgrade_insecure_requests_word = codes "UPGRADE-INSECURE-REQUESTS:"

unfoldable pub connection_word : Bytes
connection_word = codes "CONNECTION:"

unfoldable pub scan_for_post_header : Bytes → ℕ → Option PostHeader
scan_for_post_header str str_length =
    if ltb str_length 11
    then none
    else (if upper_at 0 str == b'C'
        then (if upper_at 1 str == b'O'
            then (if upper_at 2 str == b'N'
                then (if is_word str str_length 13 content_type_word
                    then some content_type
                    else if is_word str str_length 20 content_disposition_word
                    then some content_disposition
                    else if is_word str str_length 15 content_length_word
                    then some content_length
                    else if is_word str str_length 11 connection_word
                    then some connection
                    else none)
                else none)
            else none)
        else if upper_at 0 str == b'U'
        then (fixed_word str str_length 26 upgrade_insecure_requests_word upgrade_insecure_requests)
        else none)

-- The words with their codes, in the order of the codes.
abbrev pub post_header_words : List (Word PostHeader)
post_header_words =
    word 13 content_type_word content_type
    ∷ word 20 content_disposition_word content_disposition
    ∷ word 15 content_length_word content_length
    ∷ word 26 upgrade_insecure_requests_word upgrade_insecure_requests
    ∷ word 11 connection_word connection
    ∷ []
