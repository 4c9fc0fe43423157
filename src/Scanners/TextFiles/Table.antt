-- ===== src/Scanners/TextFiles/Table.antt =====
-- The scanner of textFiles against its table of words.
use ammar_server.Base.{ℕ, ◌≤◌, [], true, ◌≡◌, Bytes, arith}
use ammar_server.Base.Text.{codes}
use ammar_server.Scanners.Words.{to_upper, upper_at, is_word, letters3, first_word, fixed_word}
use ammar_server.Scanners.TextFiles.{
  scan_for_text_files, text_files_words, html_word, htm_word, css_word, txt_word, doc_word,
  rtf_word, odf_word, odt_word,
}

module _ (str : Bytes) (str_length : ℕ) where
  html_upper :
      is_word str str_length 4 html_word ≡ true
      → (4 ≤ str_length)
        × (upper_at 0 str ≡ b'H')
        × (upper_at 1 str ≡ b'T')
        × (upper_at 2 str ≡ b'M')
  unfolding html_word to_upper
  html_upper h =
      letters3 b'H' b'T' b'M' (codes "L") str str_length (omega arith) (omega arith) (omega arith) h

  htm_upper :
      is_word str str_length 3 htm_word ≡ true
      → (3 ≤ str_length)
        × (upper_at 0 str ≡ b'H')
        × (upper_at 1 str ≡ b'T')
        × (upper_at 2 str ≡ b'M')
  unfolding htm_word to_upper
  htm_upper h =
      letters3 b'H' b'T' b'M' [] str str_length (omega arith) (omega arith) (omega arith) h

  css_upper :
      is_word str str_length 3 css_word ≡ true
      → (3 ≤ str_length)
        × (upper_at 0 str ≡ b'C')
        × (upper_at 1 str ≡ b'S')
        × (upper_at 2 str ≡ b'S')
  unfolding css_word to_upper
  css_upper h =
      letters3 b'C' b'S' b'S' [] str str_length (omega arith) (omega arith) (omega arith) h

  txt_upper :
      is_word str str_length 3 txt_word ≡ true
      → (3 ≤ str_length)
        × (upper_at 0 str ≡ b'T')
        × (upper_at 1 str ≡ b'X')
        × (upper_at 2 str ≡ b'T')
  unfolding txt_word to_upper
  txt_upper h =
      letters3 b'T' b'X' b'T' [] str str_length (omega arith) (omega arith) (omega arith) h

  doc_upper :
      is_word str str_length 3 doc_word ≡ true
      → (3 ≤ str_length)
        × (upper_at 0 str ≡ b'D')
        × (upper_at 1 str ≡ b'O')
        × (upper_at 2 str ≡ b'C')
  unfolding doc_word to_upper
  doc_upper h =
      letters3 b'D' b'O' b'C' [] str str_length (omega arith) (omega arith) (omega arith) h

  rtf_upper :
      is_word str str_length 3 rtf_word ≡ true
      → (3 ≤ str_length)
        × (upper_at 0 str ≡ b'R')
        × (upper_at 1 str ≡ b'T')
        × (upper_at 2 str ≡ b'F')
  unfolding rtf_word to_upper
  rtf_upper h =
      letters3 b'R' b'T' b'F' [] str str_length (omega arith) (omega arith) (omega arith) h

  odf_upper :
      is_word str str_length 3 odf_word ≡ true
      → (3 ≤ str_length)
        × (upper_at 0 str ≡ b'O')
        × (upper_at 1 str ≡ b'D')
        × (upper_at 2 str ≡ b'F')
  unfolding odf_word to_upper
  odf_upper h =
      letters3 b'O' b'D' b'F' [] str str_length (omega arith) (omega arith) (omega arith) h

  odt_upper :
      is_word str str_length 3 odt_word ≡ true
      → (3 ≤ str_length)
        × (upper_at 0 str ≡ b'O')
        × (upper_at 1 str ≡ b'D')
        × (upper_at 2 str ≡ b'T')
  unfolding odt_word to_upper
  odt_upper h =
      letters3 b'O' b'D' b'T' [] str str_length (omega arith) (omega arith) (omega arith) h

  -- For every text and every length the scanner gives the code of the first word of its table, in
  -- the order of the codes, that is no longer than the length and with which the text begins in
  -- any mixture of upper and lower case, and nothing where there is none.
  pub scan_for_text_files-first_word :
      scan_for_text_files str str_length ≡ first_word text_files_words str str_length
  unfolding scan_for_text_files first_word fixed_word
  scan_for_text_files-first_word = ground (
    arith, html_upper, htm_upper, css_upper, txt_upper, doc_upper, rtf_upper, odf_upper, odt_upper,
  )
