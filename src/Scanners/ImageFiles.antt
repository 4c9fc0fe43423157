-- ===== src/Scanners/ImageFiles.antt =====
-- `scanFor_imageFiles`, src/AmmServerlib/stringscanners/imageFiles.c: a switch over the first letters, then the
-- words. The codes are constructors, and `none` is 0.
pub mod Table
use ammar_server.Base.{ℕ, List, [], ◌∷◌, Option, none, some, Bytes, ltb, ◌==◌, if◌then◌else◌}
use ammar_server.Base.Text.{codes}
use ammar_server.Scanners.Words.{upper_at, is_word, fixed_word, Word, word}

pub data ImageFile : Type 0 where
  gif png jpg jpeg webp bmp tiff dib rle j2c ico ppm pnm raw svg : ImageFile

unfoldable pub gif_word : Bytes
gif_word = codes "GIF"

unfoldable pub png_word : Bytes
png_word = codes "PNG"

unfoldable pub jpg_word : Bytes
jpg_word = codes "JPG"

unfoldable pub jpeg_word : Bytes
jpeg_word = codes "JPEG"

unfoldable pub webp_word : Bytes
webp_word = codes "WEBP"

unfoldable pub bmp_word : Bytes
bmp_word = codes "BMP"

unfoldable pub tiff_word : Bytes
tiff_word = codes "TIFF"

unfoldable pub dib_word : Bytes
dib_word = codes "DIB"

unfoldable pub rle_word : Bytes
rle_word = codes "RLE"

unfoldable pub j2c_word : Bytes
j2c_word = codes "J2C"

unfoldable pub ico_word : Bytes
ico_word = codes "ICO"

unfoldable pub ppm_word : Bytes
ppm_word = codes "PPM"

unfoldable pub pnm_word : Bytes
pnm_word = codes "PNM"

unfoldable pub raw_word : Bytes
raw_word = codes "RAW"

unfoldable pub svg_word : Bytes
svg_word = codes "SVG"

unfoldable pub scan_for_image_files : Bytes → ℕ → Option ImageFile
scan_for_image_files str str_length =
    if ltb str_length 3
    then none
    else (if upper_at 0 str == b'B'
        then (fixed_word str str_length 3 bmp_word bmp)
        else if upper_at 0 str == b'D'
        then (fixed_word str str_length 3 dib_word dib)
        else if upper_at 0 str == b'G'
        then (fixed_word str str_length 3 gif_word gif)
        else if upper_at 0 str == b'I'
        then (fixed_word str str_length 3 ico_word ico)
        else if upper_at 0 str == b'J'
        then (if upper_at 1 str == b'P'
            then (if upper_at 2 str == b'E'
                then (if is_word str str_length 4 jpeg_word then some jpeg else none)
                else if upper_at 2 str == b'G'
                then (if is_word str str_length 3 jpg_word then some jpg else none)
                else none)
            else if upper_at 1 str == b'2'
            then (fixed_word str str_length 3 j2c_word j2c)
            else none)
        else if upper_at 0 str == b'P'
        then (if upper_at 1 str == b'N'
            then (if upper_at 2 str == b'G'
                then (if is_word str str_length 3 png_word then some png else none)
                else if upper_at 2 str == b'M'
                then (if is_word str str_length 3 pnm_word then some pnm else none)
                else none)
            else if upper_at 1 str == b'P'
            then (fixed_word str str_length 3 ppm_word ppm)
            else none)
        else if upper_at 0 str == b'R'
        then (if upper_at 1 str == b'A'
            then (fixed_word str str_length 3 raw_word raw)
            else if upper_at 1 str == b'L'
            then (fixed_word str str_length 3 rle_word rle)
            else none)
        else if upper_at 0 str == b'S'
        then (fixed_word str str_length 3 svg_word svg)
        else if upper_at 0 str == b'T'
        then (fixed_word str str_length 4 tiff_word tiff)
        else if upper_at 0 str == b'W'
        then (fixed_word str str_length 4 webp_word webp)
        else none)

-- The words with their codes, in the order of the codes.
abbrev pub image_files_words : List (Word ImageFile)
image_files_words =
    word 3 gif_word gif
    ∷ word 3 png_word png
    ∷ word 3 jpg_word jpg
    ∷ word 4 jpeg_word jpeg
    ∷ word 4 webp_word webp
    ∷ word 3 bmp_word bmp
    ∷ word 4 tiff_word tiff
    ∷ word 3 dib_word dib
    ∷ word 3 rle_word rle
    ∷ word 3 j2c_word j2c
    ∷ word 3 ico_word ico
    ∷ word 3 ppm_word ppm
    ∷ word 3 pnm_word pnm
    ∷ word 3 raw_word raw
    ∷ word 3 svg_word svg
    ∷ []
