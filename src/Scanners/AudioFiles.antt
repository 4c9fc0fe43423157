-- ===== src/Scanners/AudioFiles.antt =====
-- `scanFor_audioFiles`, src/AmmServerlib/stringscanners/audioFiles.c: a switch over the first letters, then the
-- words. The codes are constructors, and `none` is 0.
pub mod Table
use ammar_server.Base.{ℕ, List, [], ◌∷◌, Option, none, some, Bytes, ltb, ◌==◌, if◌then◌else◌}
use ammar_server.Base.Text.{codes}
use ammar_server.Scanners.Words.{upper_at, is_word, fixed_word, Word, word}

pub data AudioFile : Type 0 where
  mp3 wav mid ogg voc au : AudioFile

unfoldable pub mp3_word : Bytes
mp3_word = codes "MP3"

unfoldable pub wav_word : Bytes
wav_word = codes "WAV"

unfoldable pub mid_word : Bytes
mid_word = codes "MID"

unfoldable pub ogg_word : Bytes
ogg_word = codes "OGG"

unfoldable pub voc_word : Bytes
voc_word = codes "VOC"

unfoldable pub au_word : Bytes
au_word = codes "AU"

unfoldable pub scan_for_audio_files : Bytes → ℕ → Option AudioFile
scan_for_audio_files str str_length =
    if ltb str_length 2
    then none
    else (if upper_at 0 str == b'A'
        then (fixed_word str str_length 2 au_word au)
        else if upper_at 0 str == b'M'
        then (if upper_at 1 str == b'I'
            then (fixed_word str str_length 3 mid_word mid)
            else if upper_at 1 str == b'P'
            then (fixed_word str str_length 3 mp3_word mp3)
            else none)
        else if upper_at 0 str == b'O'
        then (fixed_word str str_length 3 ogg_word ogg)
        else if upper_at 0 str == b'V'
        then (fixed_word str str_length 3 voc_word voc)
        else if upper_at 0 str == b'W'
        then (fixed_word str str_length 3 wav_word wav)
        else none)

-- The words with their codes, in the order of the codes.
abbrev pub audio_files_words : List (Word AudioFile)
audio_files_words =
    word 3 mp3_word mp3
    ∷ word 3 wav_word wav
    ∷ word 3 mid_word mid
    ∷ word 3 ogg_word ogg
    ∷ word 3 voc_word voc
    ∷ word 2 au_word au
    ∷ []
