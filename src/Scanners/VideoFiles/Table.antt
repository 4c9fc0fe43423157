-- ===== src/Scanners/VideoFiles/Table.antt =====
-- The scanner of videoFiles against its table of words.
use ammar_server.Base.{ℕ, ◌≤◌, [], true, ◌≡◌, Bytes, arith}
use ammar_server.Base.Text.{codes}
use ammar_server.Scanners.Words.{to_upper, upper_at, is_word, letters3, first_word, fixed_word}
use ammar_server.Scanners.VideoFiles.{
  scan_for_video_files, video_files_words, avi_word, mpeg4_word, mpeg_word, mp4_word, webm_word,
  ogv_word, mkv_word, n3gp_word, h263_word, h264_word, flv_word,
}

module _ (str : Bytes) (str_length : ℕ) where
  avi_upper :
      is_word str str_length 3 avi_word ≡ true
      → (3 ≤ str_length)
        × (upper_at 0 str ≡ b'A')
        × (upper_at 1 str ≡ b'V')
        × (upper_at 2 str ≡ b'I')
  unfolding avi_word to_upper
  avi_upper h =
      letters3 b'A' b'V' b'I' [] str str_length (omega arith) (omega arith) (omega arith) h

  mpeg4_upper :
      is_word str str_length 5 mpeg4_word ≡ true
      → (5 ≤ str_length)
        × (upper_at 0 str ≡ b'M')
        × (upper_at 1 str ≡ b'P')
        × (upper_at 2 str ≡ b'E')
  unfolding mpeg4_word to_upper
  mpeg4_upper h =
      letters3 b'M' b'P' b'E' (codes "G4") str str_length (omega arith) (omega arith) (omega arith)
        h

  mpeg_upper :
      is_word str str_length 4 mpeg_word ≡ true
      → (4 ≤ str_length)
        × (upper_at 0 str ≡ b'M')
        × (upper_at 1 str ≡ b'P')
        × (upper_at 2 str ≡ b'E')
  unfolding mpeg_word to_upper
  mpeg_upper h =
      letters3 b'M' b'P' b'E' (codes "G") str str_length (omega arith) (omega arith) (omega arith) h

  mp4_upper :
      is_word str str_length 3 mp4_word ≡ true
      → (3 ≤ str_length)
        × (upper_at 0 str ≡ b'M')
        × (upper_at 1 str ≡ b'P')
        × (upper_at 2 str ≡ b'4')
  unfolding mp4_word to_upper
  mp4_upper h =
      letters3 b'M' b'P' b'4' [] str str_length (omega arith) (omega arith) (omega arith) h

  webm_upper :
      is_word str str_length 4 webm_word ≡ true
      → (4 ≤ str_length)
        × (upper_at 0 str ≡ b'W')
        × (upper_at 1 str ≡ b'E')
        × (upper_at 2 str ≡ b'B')
  unfolding webm_word to_upper
  webm_upper h =
      letters3 b'W' b'E' b'B' (codes "M") str str_length (omega arith) (omega arith) (omega arith) h

  ogv_upper :
      is_word str str_length 3 ogv_word ≡ true
      → (3 ≤ str_length)
        × (upper_at 0 str ≡ b'O')
        × (upper_at 1 str ≡ b'G')
        × (upper_at 2 str ≡ b'V')
  unfolding ogv_word to_upper
  ogv_upper h =
      letters3 b'O' b'G' b'V' [] str str_length (omega arith) (omega arith) (omega arith) h

  mkv_upper :
      is_word str str_length 3 mkv_word ≡ true
      → (3 ≤ str_length)
        × (upper_at 0 str ≡ b'M')
        × (upper_at 1 str ≡ b'K')
        × (upper_at 2 str ≡ b'V')
  unfolding mkv_word to_upper
  mkv_upper h =
      letters3 b'M' b'K' b'V' [] str str_length (omega arith) (omega arith) (omega arith) h

  n3gp_upper :
      is_word str str_length 3 n3gp_word ≡ true
      → (3 ≤ str_length)
        × (upper_at 0 str ≡ b'3')
        × (upper_at 1 str ≡ b'G')
        × (upper_at 2 str ≡ b'P')
  unfolding n3gp_word to_upper
  n3gp_upper h =
      letters3 b'3' b'G' b'P' [] str str_length (omega arith) (omega arith) (omega arith) h

  h263_upper :
      is_word str str_length 4 h263_word ≡ true
      → (4 ≤ str_length)
        × (upper_at 0 str ≡ b'H')
        × (upper_at 1 str ≡ b'2')
        × (upper_at 2 str ≡ b'6')
  unfolding h263_word to_upper
  h263_upper h =
      letters3 b'H' b'2' b'6' (codes "3") str str_length (omega arith) (omega arith) (omega arith) h

  h264_upper :
      is_word str str_length 4 h264_word ≡ true
      → (4 ≤ str_length)
        × (upper_at 0 str ≡ b'H')
        × (upper_at 1 str ≡ b'2')
        × (upper_at 2 str ≡ b'6')
  unfolding h264_word to_upper
  h264_upper h =
      letters3 b'H' b'2' b'6' (codes "4") str str_length (omega arith) (omega arith) (omega arith) h

  flv_upper :
      is_word str str_length 3 flv_word ≡ true
      → (3 ≤ str_length)
        × (upper_at 0 str ≡ b'F')
        × (upper_at 1 str ≡ b'L')
        × (upper_at 2 str ≡ b'V')
  unfolding flv_word to_upper
  flv_upper h =
      letters3 b'F' b'L' b'V' [] str str_length (omega arith) (omega arith) (omega arith) h

  -- For every text and every length the scanner gives the code of the first word of its table, in
  -- the order of the codes, that is no longer than the length and with which the text begins in
  -- any mixture of upper and lower case, and nothing where there is none.
  pub scan_for_video_files-first_word :
      scan_for_video_files str str_length ≡ first_word video_files_words str str_length
  unfolding scan_for_video_files first_word fixed_word
  scan_for_video_files-first_word = ground (
    arith, avi_upper, mpeg4_upper, mpeg_upper, mp4_upper, webm_upper, ogv_upper, mkv_upper,
    n3gp_upper, h263_upper, h264_upper, flv_upper,
  )
