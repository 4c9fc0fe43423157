-- ===== src/Scanners/AudioFiles/Table.antt =====
-- The scanner of audioFiles against its table of words.
use ammar_server.Base.{ℕ, ◌≤◌, [], true, ◌≡◌, Bytes, arith}
use ammar_server.Scanners.Words.{
  to_upper, upper_at, is_word, letters2, letters3, first_word, fixed_word,
}
use ammar_server.Scanners.AudioFiles.{
  scan_for_audio_files, audio_files_words, mp3_word, wav_word, mid_word, ogg_word, voc_word,
  au_word,
}

module _ (str : Bytes) (str_length : ℕ) where
  mp3_upper :
      is_word str str_length 3 mp3_word ≡ true
      → (3 ≤ str_length)
        × (upper_at 0 str ≡ b'M')
        × (upper_at 1 str ≡ b'P')
        × (upper_at 2 str ≡ b'3')
  unfolding mp3_word to_upper
  mp3_upper h =
      letters3 b'M' b'P' b'3' [] str str_length (omega arith) (omega arith) (omega arith) h

  wav_upper :
      is_word str str_length 3 wav_word ≡ true
      → (3 ≤ str_length)
        × (upper_at 0 str ≡ b'W')
        × (upper_at 1 str ≡ b'A')
        × (upper_at 2 str ≡ b'V')
  unfolding wav_word to_upper
  wav_upper h =
      letters3 b'W' b'A' b'V' [] str str_length (omega arith) (omega arith) (omega arith) h

  mid_upper :
      is_word str str_length 3 mid_word ≡ true
      → (3 ≤ str_length)
        × (upper_at 0 str ≡ b'M')
        × (upper_at 1 str ≡ b'I')
        × (upper_at 2 str ≡ b'D')
  unfolding mid_word to_upper
  mid_upper h =
      letters3 b'M' b'I' b'D' [] str str_length (omega arith) (omega arith) (omega arith) h

  ogg_upper :
      is_word str str_length 3 ogg_word ≡ true
      → (3 ≤ str_length)
        × (upper_at 0 str ≡ b'O')
        × (upper_at 1 str ≡ b'G')
        × (upper_at 2 str ≡ b'G')
  unfolding ogg_word to_upper
  ogg_upper h =
      letters3 b'O' b'G' b'G' [] str str_length (omega arith) (omega arith) (omega arith) h

  voc_upper :
      is_word str str_length 3 voc_word ≡ true
      → (3 ≤ str_length)
        × (upper_at 0 str ≡ b'V')
        × (upper_at 1 str ≡ b'O')
        × (upper_at 2 str ≡ b'C')
  unfolding voc_word to_upper
  voc_upper h =
      letters3 b'V' b'O' b'C' [] str str_length (omega arith) (omega arith) (omega arith) h

  au_upper :
      is_word str str_length 2 au_word ≡ true
      → (2 ≤ str_length) × (upper_at 0 str ≡ b'A') × (upper_at 1 str ≡ b'U')
  unfolding au_word to_upper
  au_upper h = letters2 b'A' b'U' [] str str_length (omega arith) (omega arith) h

  -- For every text and every length the scanner gives the code of the first word of its table, in
  -- the order of the codes, that is no longer than the length and with which the text begins in
  -- any mixture of upper and lower case, and nothing where there is none.
  pub scan_for_audio_files-first_word :
      scan_for_audio_files str str_length ≡ first_word audio_files_words str str_length
  unfolding scan_for_audio_files first_word fixed_word
  scan_for_audio_files-first_word =
      ground (arith, mp3_upper, wav_upper, mid_upper, ogg_upper, voc_upper, au_upper)
