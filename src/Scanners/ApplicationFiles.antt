-- ===== src/Scanners/ApplicationFiles.antt =====
-- `scanFor_applicationFiles`, src/AmmServerlib/stringscanners/applicationFiles.c: a switch over the first letters, then the
-- words. The codes are constructors, and `none` is 0.
use ammar_server.Base.{ℕ, List, [], ◌∷◌, Option, none, some, Bytes, ltb, ◌==◌, if◌then◌else◌}
use ammar_server.Base.Text.{codes}
use ammar_server.Scanners.Words.{upper_at, is_word, fixed_word, Word, word}

pub data ApplicationFile : Type 0 where
  exe dll scr cpl swf pdf json js : ApplicationFile

unfoldable pub exe_word : Bytes
exe_word = codes "EXE"

unfoldable pub dll_word : Bytes
dll_word = codes "DLL"

unfoldable pub scr_word : Bytes
scr_word = codes "SCR"

unfoldable pub cpl_word : Bytes
cpl_word = codes "CPL"

unfoldable pub swf_word : Bytes
swf_word = codes "SWF"

unfoldable pub pdf_word : Bytes
pdf_word = codes "PDF"

unfoldable pub json_word : Bytes
json_word = codes "JSON"

unfoldable pub js_word : Bytes
js_word = codes "JS"

unfoldable pub scan_for_application_files : Bytes → ℕ → Option ApplicationFile
scan_for_application_files str str_length =
    if ltb str_length 2
    then none
    else (if upper_at 0 str == b'C'
        then (fixed_word str str_length 3 cpl_word cpl)
        else if upper_at 0 str == b'D'
        then (fixed_word str str_length 3 dll_word dll)
        else if upper_at 0 str == b'E'
        then (fixed_word str str_length 3 exe_word exe)
        else if upper_at 0 str == b'J'
        then (if upper_at 1 str == b'S'
            then (if upper_at 2 str == b'O'
                then (if is_word str str_length 4 json_word then some json else none)
                else if upper_at 2 str == 0
                then (if is_word str str_length 2 js_word then some js else none)
                else none)
            else none)
        else if upper_at 0 str == b'P'
        then (fixed_word str str_length 3 pdf_word pdf)
        else if upper_at 0 str == b'S'
        then (if upper_at 1 str == b'C'
            then (fixed_word str str_length 3 scr_word scr)
            else if upper_at 1 str == b'W'
            then (fixed_word str str_length 3 swf_word swf)
            else none)
        else none)

-- The words with their codes, in the order of the codes.
abbrev pub application_files_words : List (Word ApplicationFile)
application_files_words =
    word 3 exe_word exe
    ∷ word 3 dll_word dll
    ∷ word 3 scr_word scr
    ∷ word 3 cpl_word cpl
    ∷ word 3 swf_word swf
    ∷ word 3 pdf_word pdf
    ∷ word 4 json_word json
    ∷ word 2 js_word js
    ∷ []
