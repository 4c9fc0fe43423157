-- ===== src/Scanners/HttpHeader.antt =====
-- `scanFor_httpHeader`, src/AmmServerlib/stringscanners/httpHeader.c: a switch over the first letters, then the
-- words. The codes are constructors, and `none` is 0.
pub mod Table
use ammar_server.Base.{ℕ, List, [], ◌∷◌, Option, none, some, Bytes, ltb, ◌==◌, if◌then◌else◌}
use ammar_server.Base.Text.{codes}
use ammar_server.Scanners.Words.{upper_at, is_word, fixed_word, Word, word}

pub data HttpHeader : Type 0 where
  authorization accept_encoding cookie connection host if_none_match if_modified_since
        if_unmodified_since expect transfer_encoding range referrer referer user_agent :
      HttpHeader

unfoldable pub authorization_word : Bytes
authorization_word = codes "AUTHORIZATION:"

unfoldable pub accept_encoding_word : Bytes
accept_encoding_word = codes "ACCEPT-ENCODING:"

unfoldable pub cookie_word : Bytes
cookie_word = codes "COOKIE:"

unfoldable pub connection_word : Bytes
connection_word = codes "CONNECTION:"

unfoldable pub host_word : Bytes
host_word = codes "HOST:"

unfoldable pub if_none_match_word : Bytes
if_none_match_word = codes "IF-NONE-MATCH:"

unfoldable pub if_modified_since_word : Bytes
if_modified_since_word = codes "IF-MODIFIED-SINCE:"

unfoldable pub if_unmodified_since_word : Bytes
if_unmodified_since_word = codes "IF-UNMODIFIED-SINCE:"

unfoldable pub expect_word : Bytes
expect_word = codes "EXPECT:"

unfoldable pub transfer_encoding_word : Bytes
transfer_encoding_word = codes "TRANSFER-ENCODING:"

unfoldable pub range_word : Bytes
range_word = codes "RANGE:"

unfoldable pub referrer_word : Bytes
referrer_word = codes "REFERRER:"

unfoldable pub referer_word : Bytes
referer_word = codes "REFERER:"

unfoldable pub user_agent_word : Bytes
user_agent_word = codes "USER-AGENT:"

unfoldable pub scan_for_http_header : Bytes → ℕ → Option HttpHeader
scan_for_http_header str str_length =
    if ltb str_length 5
    then none
    else (if upper_at 0 str == b'A'
        then (if upper_at 1 str == b'C'
            then (fixed_word str str_length 16 accept_encoding_word accept_encoding)
            else if upper_at 1 str == b'U'
            then (fixed_word str str_length 14 authorization_word authorization)
            else none)
        else if upper_at 0 str == b'C'
        then (if upper_at 1 str == b'O'
            then (if upper_at 2 str == b'N'
                then (if is_word str str_length 11 connection_word then some connection else none)
                else if upper_at 2 str == b'O'
                then (if is_word str str_length 7 cookie_word then some cookie else none)
                else none)
            else none)
        else if upper_at 0 str == b'E'
        then (fixed_word str str_length 7 expect_word expect)
        else if upper_at 0 str == b'H'
        then (fixed_word str str_length 5 host_word host)
        else if upper_at 0 str == b'I'
        then (if upper_at 1 str == b'F'
            then (if upper_at 2 str == b'-'
                then (if is_word str str_length 14 if_none_match_word
                    then some if_none_match
                    else if is_word str str_length 18 if_modified_since_word
                    then some if_modified_since
                    else if is_word str str_length 20 if_unmodified_since_word
                    then some if_unmodified_since
                    else none)
                else none)
            else none)
        else if upper_at 0 str == b'R'
        then (if upper_at 1 str == b'A'
            then (fixed_word str str_length 6 range_word range)
            else if upper_at 1 str == b'E'
            then (if upper_at 2 str == b'F'
                then (if is_word str str_length 9 referrer_word
                    then some referrer
                    else if is_word str str_length 8 referer_word
                    then some referer
                    else none)
                else none)
            else none)
        else if upper_at 0 str == b'T'
        then (fixed_word str str_length 18 transfer_encoding_word transfer_encoding)
        else if upper_at 0 str == b'U'
        then (fixed_word str str_length 11 user_agent_word user_agent)
        else none)

-- The words with their codes, in the order of the codes.
abbrev pub http_header_words : List (Word HttpHeader)
http_header_words =
    word 14 authorization_word authorization
    ∷ word 16 accept_encoding_word accept_encoding
    ∷ word 7 cookie_word cookie
    ∷ word 11 connection_word connection
    ∷ word 5 host_word host
    ∷ word 14 if_none_match_word if_none_match
    ∷ word 18 if_modified_since_word if_modified_since
    ∷ word 20 if_unmodified_since_word if_unmodified_since
    ∷ word 7 expect_word expect
    ∷ word 18 transfer_encoding_word transfer_encoding
    ∷ word 6 range_word range
    ∷ word 9 referrer_word referrer
    ∷ word 8 referer_word referer
    ∷ word 11 user_agent_word user_agent
    ∷ []
