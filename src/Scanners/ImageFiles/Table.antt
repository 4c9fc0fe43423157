-- ===== src/Scanners/ImageFiles/Table.antt =====
-- The scanner of imageFiles against its table of words.
use ammar_server.Base.{ℕ, ◌≤◌, [], true, ◌≡◌, Bytes, arith}
use ammar_server.Base.Text.{codes}
use ammar_server.Scanners.Words.{to_upper, upper_at, is_word, letters3, first_word, fixed_word}
use ammar_server.Scanners.ImageFiles.{
  scan_for_image_files, image_files_words, gif_word, png_word, jpg_word, jpeg_word, webp_word,
  bmp_word, tiff_word, dib_word, rle_word, j2c_word, ico_word, ppm_word, pnm_word, raw_word,
  svg_word,
}

module _ (str : Bytes) (str_length : ℕ) where
  gif_upper :
      is_word str str_length 3 gif_word ≡ true
      → (3 ≤ str_length)
        × (upper_at 0 str ≡ b'G')
        × (upper_at 1 str ≡ b'I')
        × (upper_at 2 str ≡ b'F')
  unfolding gif_word to_upper
  gif_upper h =
      letters3 b'G' b'I' b'F' [] str str_length (omega arith) (omega arith) (omega arith) h

  png_upper :
      is_word str str_length 3 png_word ≡ true
      → (3 ≤ str_length)
        × (upper_at 0 str ≡ b'P')
        × (upper_at 1 str ≡ b'N')
        × (upper_at 2 str ≡ b'G')
  unfolding png_word to_upper
  png_upper h =
      letters3 b'P' b'N' b'G' [] str str_length (omega arith) (omega arith) (omega arith) h

  jpg_upper :
      is_word str str_length 3 jpg_word ≡ true
      → (3 ≤ str_length)
        × (upper_at 0 str ≡ b'J')
        × (upper_at 1 str ≡ b'P')
        × (upper_at 2 str ≡ b'G')
  unfolding jpg_word to_upper
  jpg_upper h =
      letters3 b'J' b'P' b'G' [] str str_length (omega arith) (omega arith) (omega arith) h

  jpeg_upper :
      is_word str str_length 4 jpeg_word ≡ true
      → (4 ≤ str_length)
        × (upper_at 0 str ≡ b'J')
        × (upper_at 1 str ≡ b'P')
        × (upper_at 2 str ≡ b'E')
  unfolding jpeg_word to_upper
  jpeg_upper h =
      letters3 b'J' b'P' b'E' (codes "G") str str_length (omega arith) (omega arith) (omega arith) h

  webp_upper :
      is_word str str_length 4 webp_word ≡ true
      → (4 ≤ str_length)
        × (upper_at 0 str ≡ b'W')
        × (upper_at 1 str ≡ b'E')
        × (upper_at 2 str ≡ b'B')
  unfolding webp_word to_upper
  webp_upper h =
      letters3 b'W' b'E' b'B' (codes "P") str str_length (omega arith) (omega arith) (omega arith) h

  bmp_upper :
      is_word str str_length 3 bmp_word ≡ true
      → (3 ≤ str_length)
        × (upper_at 0 str ≡ b'B')
        × (upper_at 1 str ≡ b'M')
        × (upper_at 2 str ≡ b'P')
  unfolding bmp_word to_upper
  bmp_upper h =
      letters3 b'B' b'M' b'P' [] str str_length (omega arith) (omega arith) (omega arith) h

  tiff_upper :
      is_word str str_length 4 tiff_word ≡ true
      → (4 ≤ str_length)
        × (upper_at 0 str ≡ b'T')
        × (upper_at 1 str ≡ b'I')
        × (upper_at 2 str ≡ b'F')
  unfolding tiff_word to_upper
  tiff_upper h =
      letters3 b'T' b'I' b'F' (codes "F") str str_length (omega arith) (omega arith) (omega arith) h

  dib_upper :
      is_word str str_length 3 dib_word ≡ true
      → (3 ≤ str_length)
        × (upper_at 0 str ≡ b'D')
        × (upper_at 1 str ≡ b'I')
        × (upper_at 2 str ≡ b'B')
  unfolding dib_word to_upper
  dib_upper h =
      letters3 b'D' b'I' b'B' [] str str_length (omega arith) (omega arith) (omega arith) h

  rle_upper :
      is_word str str_length 3 rle_word ≡ true
      → (3 ≤ str_length)
        × (upper_at 0 str ≡ b'R')
        × (upper_at 1 str ≡ b'L')
        × (upper_at 2 str ≡ b'E')
  unfolding rle_word to_upper
  rle_upper h =
      letters3 b'R' b'L' b'E' [] str str_length (omega arith) (omega arith) (omega arith) h

  j2c_upper :
      is_word str str_length 3 j2c_word ≡ true
      → (3 ≤ str_length)
        × (upper_at 0 str ≡ b'J')
        × (upper_at 1 str ≡ b'2')
        × (upper_at 2 str ≡ b'C')
  unfolding j2c_word to_upper
  j2c_upper h =
      letters3 b'J' b'2' b'C' [] str str_length (omega arith) (omega arith) (omega arith) h

  ico_upper :
      is_word str str_length 3 ico_word ≡ true
      → (3 ≤ str_length)
        × (upper_at 0 str ≡ b'I')
        × (upper_at 1 str ≡ b'C')
        × (upper_at 2 str ≡ b'O')
  unfolding ico_word to_upper
  ico_upper h =
      letters3 b'I' b'C' b'O' [] str str_length (omega arith) (omega arith) (omega arith) h

  ppm_upper :
      is_word str str_length 3 ppm_word ≡ true
      → (3 ≤ str_length)
        × (upper_at 0 str ≡ b'P')
        × (upper_at 1 str ≡ b'P')
        × (upper_at 2 str ≡ b'M')
  unfolding ppm_word to_upper
  ppm_upper h =
      letters3 b'P' b'P' b'M' [] str str_length (omega arith) (omega arith) (omega arith) h

  pnm_upper :
      is_word str str_length 3 pnm_word ≡ true
      → (3 ≤ str_length)
        × (upper_at 0 str ≡ b'P')
        × (upper_at 1 str ≡ b'N')
        × (upper_at 2 str ≡ b'M')
  unfolding pnm_word to_upper
  pnm_upper h =
      letters3 b'P' b'N' b'M' [] str str_length (omega arith) (omega arith) (omega arith) h

  raw_upper :
      is_word str str_length 3 raw_word ≡ true
      → (3 ≤ str_length)
        × (upper_at 0 str ≡ b'R')
        × (upper_at 1 str ≡ b'A')
        × (upper_at 2 str ≡ b'W')
  unfolding raw_word to_upper
  raw_upper h =
      letters3 b'R' b'A' b'W' [] str str_length (omega arith) (omega arith) (omega arith) h

  svg_upper :
      is_word str str_length 3 svg_word ≡ true
      → (3 ≤ str_length)
        × (upper_at 0 str ≡ b'S')
        × (upper_at 1 str ≡ b'V')
        × (upper_at 2 str ≡ b'G')
  unfolding svg_word to_upper
  svg_upper h =
      letters3 b'S' b'V' b'G' [] str str_length (omega arith) (omega arith) (omega arith) h

  -- For every text and every length the scanner gives the code of the first word of its table, in
  -- the order of the codes, that is no longer than the length and with which the text begins in
  -- any mixture of upper and lower case, and nothing where there is none.
  pub scan_for_image_files-first_word :
      scan_for_image_files str str_length ≡ first_word image_files_words str str_length
  unfolding scan_for_image_files first_word fixed_word
  scan_for_image_files-first_word = ground (
    arith, gif_upper, png_upper, jpg_upper, jpeg_upper, webp_upper, bmp_upper, tiff_upper,
    dib_upper, rle_upper, j2c_upper, ico_upper, ppm_upper, pnm_upper, raw_upper, svg_upper,
  )
