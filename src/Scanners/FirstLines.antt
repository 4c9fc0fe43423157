-- ===== src/Scanners/FirstLines.antt =====
-- `scanFor_firstLines`, src/AmmServerlib/stringscanners/firstLines.c: a switch over the first letters, then the
-- words. The codes are constructors, and `none` is 0.
pub mod Table
use ammar_server.Base.{ℕ, List, [], ◌∷◌, Option, none, some, Bytes, ltb, ◌==◌, if◌then◌else◌}
use ammar_server.Base.Text.{codes}
use ammar_server.Scanners.Words.{upper_at, is_word, fixed_word, Word, word}

pub data FirstLine : Type 0 where
  get head post put delete trace options connect patch : FirstLine

unfoldable pub get_word : Bytes
get_word = codes "GET"

unfoldable pub head_word : Bytes
head_word = codes "HEAD"

unfoldable pub post_word : Bytes
post_word = codes "POST"

unfoldable pub put_word : Bytes
put_word = codes "PUT"

unfoldable pub delete_word : Bytes
delete_word = codes "DELETE"

unfoldable pub trace_word : Bytes
trace_word = codes "TRACE"

unfoldable pub options_word : Bytes
options_word = codes "OPTIONS"

unfoldable pub connect_word : Bytes
connect_word = codes "CONNECT"

unfoldable pub patch_word : Bytes
patch_word = codes "PATCH"

unfoldable pub scan_for_first_lines : Bytes → ℕ → Option FirstLine
scan_for_first_lines str str_length =
    if ltb str_length 3
    then none
    else (if upper_at 0 str == b'C'
        then (fixed_word str str_length 7 connect_word connect)
        else if upper_at 0 str == b'D'
        then (fixed_word str str_length 6 delete_word delete)
        else if upper_at 0 str == b'G'
        then (fixed_word str str_length 3 get_word get)
        else if upper_at 0 str == b'H'
        then (fixed_word str str_length 4 head_word head)
        else if upper_at 0 str == b'O'
        then (fixed_word str str_length 7 options_word options)
        else if upper_at 0 str == b'P'
        then (if upper_at 1 str == b'A'
            then (fixed_word str str_length 5 patch_word patch)
            else if upper_at 1 str == b'O'
            then (fixed_word str str_length 4 post_word post)
            else if upper_at 1 str == b'U'
            then (fixed_word str str_length 3 put_word put)
            else none)
        else if upper_at 0 str == b'T'
        then (fixed_word str str_length 5 trace_word trace)
        else none)

-- The words with their codes, in the order of the codes.
abbrev pub first_lines_words : List (Word FirstLine)
first_lines_words =
    word 3 get_word get
    ∷ word 4 head_word head
    ∷ word 4 post_word post
    ∷ word 3 put_word put
    ∷ word 6 delete_word delete
    ∷ word 5 trace_word trace
    ∷ word 7 options_word options
    ∷ word 7 connect_word connect
    ∷ word 5 patch_word patch
    ∷ []
