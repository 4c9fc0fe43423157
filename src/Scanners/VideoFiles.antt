-- ===== src/Scanners/VideoFiles.antt =====
-- `scanFor_videoFiles`, src/AmmServerlib/stringscanners/videoFiles.c: a switch over the first letters, then the
-- words. The codes are constructors, and `none` is 0.
pub mod Table
use ammar_server.Base.{ℕ, List, [], ◌∷◌, Option, none, some, Bytes, ltb, ◌==◌, if◌then◌else◌}
use ammar_server.Base.Text.{codes}
use ammar_server.Scanners.Words.{upper_at, is_word, fixed_word, Word, word}

pub data VideoFile : Type 0 where
  avi mpeg4 mpeg mp4 webm ogv mkv n3gp h263 h264 flv : VideoFile

unfoldable pub avi_word : Bytes
avi_word = codes "AVI"

unfoldable pub mpeg4_word : Bytes
mpeg4_word = codes "MPEG4"

unfoldable pub mpeg_word : Bytes
mpeg_word = codes "MPEG"

unfoldable pub mp4_word : Bytes
mp4_word = codes "MP4"

unfoldable pub webm_word : Bytes
webm_word = codes "WEBM"

unfoldable pub ogv_word : Bytes
ogv_word = codes "OGV"

unfoldable pub mkv_word : Bytes
mkv_word = codes "MKV"

unfoldable pub n3gp_word : Bytes
n3gp_word = codes "3GP"

unfoldable pub h263_word : Bytes
h263_word = codes "H263"

unfoldable pub h264_word : Bytes
h264_word = codes "H264"

unfoldable pub flv_word : Bytes
flv_word = codes "FLV"

unfoldable pub scan_for_video_files : Bytes → ℕ → Option VideoFile
scan_for_video_files str str_length =
    if ltb str_length 3
    then none
    else (if upper_at 0 str == b'A'
        then (fixed_word str str_length 3 avi_word avi)
        else if upper_at 0 str == b'F'
        then (fixed_word str str_length 3 flv_word flv)
        else if upper_at 0 str == b'H'
        then (if upper_at 1 str == b'2'
            then (if upper_at 2 str == b'6'
                then (if is_word str str_length 4 h263_word
                    then some h263
                    else if is_word str str_length 4 h264_word
                    then some h264
                    else none)
                else none)
            else none)
        else if upper_at 0 str == b'M'
        then (if upper_at 1 str == b'K'
            then (fixed_word str str_length 3 mkv_word mkv)
            else if upper_at 1 str == b'P'
            then (if upper_at 2 str == b'E'
                then (if is_word str str_length 5 mpeg4_word
                    then some mpeg4
                    else if is_word str str_length 4 mpeg_word
                    then some mpeg
                    else none)
                else if upper_at 2 str == b'4'
                then (if is_word str str_length 3 mp4_word then some mp4 else none)
                else none)
            else none)
        else if upper_at 0 str == b'O'
        then (fixed_word str str_length 3 ogv_word ogv)
        else if upper_at 0 str == b'W'
        then (fixed_word str str_length 4 webm_word webm)
        else if upper_at 0 str == b'3'
        then (fixed_word str str_length 3 n3gp_word n3gp)
        else none)

-- The words with their codes, in the order of the codes.
abbrev pub video_files_words : List (Word VideoFile)
video_files_words =
    word 3 avi_word avi
    ∷ word 5 mpeg4_word mpeg4
    ∷ word 4 mpeg_word mpeg
    ∷ word 3 mp4_word mp4
    ∷ word 4 webm_word webm
    ∷ word 3 ogv_word ogv
    ∷ word 3 mkv_word mkv
    ∷ word 3 n3gp_word n3gp
    ∷ word 4 h263_word h263
    ∷ word 4 h264_word h264
    ∷ word 3 flv_word flv
    ∷ []
