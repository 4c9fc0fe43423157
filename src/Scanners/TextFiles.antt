-- ===== src/Scanners/TextFiles.antt =====
-- `scanFor_textFiles`, src/AmmServerlib/stringscanners/textFiles.c: a switch over the first letters, then the
-- words. The codes are constructors, and `none` is 0.
pub mod Table
use ammar_server.Base.{ℕ, List, [], ◌∷◌, Option, none, some, Bytes, ltb, ◌==◌, if◌then◌else◌}
use ammar_server.Base.Text.{codes}
use ammar_server.Scanners.Words.{upper_at, is_word, fixed_word, Word, word}

pub data TextFile : Type 0 where
  html htm css txt doc rtf odf odt : TextFile

unfoldable pub html_word : Bytes
html_word = codes "HTML"

unfoldable pub htm_word : Bytes
htm_word = codes "HTM"

unfoldable pub css_word : Bytes
css_word = codes "CSS"

unfoldable pub txt_word : Bytes
txt_word = codes "TXT"

unfoldable pub doc_word : Bytes
doc_word = codes "DOC"

unfoldable pub rtf_word : Bytes
rtf_word = codes "RTF"

unfoldable pub odf_word : Bytes
odf_word = codes "ODF"

unfoldable pub odt_word : Bytes
odt_word = codes "ODT"

unfoldable pub scan_for_text_files : Bytes → ℕ → Option TextFile
scan_for_text_files str str_length =
    if ltb str_length 3
    then none
    else (if upper_at 0 str == b'C'
        then (fixed_word str str_length 3 css_word css)
        else if upper_at 0 str == b'D'
        then (fixed_word str str_length 3 doc_word doc)
        else if upper_at 0 str == b'H'
        then (if upper_at 1 str == b'T'
            then (if upper_at 2 str == b'M'
                then (if is_word str str_length 4 html_word
                    then some html
                    else if is_word str str_length 3 htm_word
                    then some htm
                    else none)
                else none)
            else none)
        else if upper_at 0 str == b'O'
        then (if upper_at 1 str == b'D'
            then (if upper_at 2 str == b'F'
                then (if is_word str str_length 3 odf_word then some odf else none)
                else if upper_at 2 str == b'T'
                then (if is_word str str_length 3 odt_word then some odt else none)
                else none)
            else none)
        else if upper_at 0 str == b'R'
        then (fixed_word str str_length 3 rtf_word rtf)
        else if upper_at 0 str == b'T'
        then (fixed_word str str_length 3 txt_word txt)
        else none)

-- The words with their codes, in the order of the codes.
abbrev pub text_files_words : List (Word TextFile)
text_files_words =
    word 4 html_word html
    ∷ word 3 htm_word htm
    ∷ word 3 css_word css
    ∷ word 3 txt_word txt
    ∷ word 3 doc_word doc
    ∷ word 3 rtf_word rtf
    ∷ word 3 odf_word odf
    ∷ word 3 odt_word odt
    ∷ []
