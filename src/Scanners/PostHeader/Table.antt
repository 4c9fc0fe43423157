-- ===== src/Scanners/PostHeader/Table.antt =====
-- The scanner of postHeader against its table of words.
use ammar_server.Base.{ℕ, ◌≤◌, true, ◌≡◌, Bytes, arith}
use ammar_server.Base.Text.{codes}
use ammar_server.Scanners.Words.{to_upper, upper_at, is_word, letters3, first_word, fixed_word}
use ammar_server.Scanners.PostHeader.{
  scan_for_post_header, post_header_words, content_type_word, content_disposition_word,
  content_length_word, upgrade_insecure_requests_word, connection_word,
}

module _ (str : Bytes) (str_length : ℕ) where
  content_type_upper :
      is_word str str_length 13 content_type_word ≡ true
      → (13 ≤ str_length)
        × (upper_at 0 str ≡ b'C')
        × (upper_at 1 str ≡ b'O')
        × (upper_at 2 str ≡ b'N')
  unfolding content_type_word to_upper
  content_type_upper h =
      letters3 b'C' b'O' b'N' (codes "TENT-TYPE:") str str_length (omega arith) (omega arith)
        (omega arith) h

  content_disposition_upper :
      is_word str str_length 20 content_disposition_word ≡ true
      → (20 ≤ str_length)
        × (upper_at 0 str ≡ b'C')
        × (upper_at 1 str ≡ b'O')
        × (upper_at 2 str ≡ b'N')
  unfolding content_disposition_word to_upper
  content_disposition_upper h =
      letters3 b'C' b'O' b'N' (codes "TENT-DISPOSITION:") str str_length (omega arith) (omega arith)
        (omega arith) h

  content_length_upper :
      is_word str str_length 15 content_length_word ≡ true
      → (15 ≤ str_length)
        × (upper_at 0 str ≡ b'C')
        × (upper_at 1 str ≡ b'O')
        × (upper_at 2 str ≡ b'N')
  unfolding content_length_word to_upper
  content_length_upper h =
      letters3 b'C' b'O' b'N' (codes "TENT-LENGTH:") str str_length (omega arith) (omega arith)
        (omega arith) h

  upgrade_insecure_requests_upper :
      is_word str str_length 26 upgrade_insecure_requests_word ≡ true
      → (26 ≤ str_length)
        × (upper_at 0 str ≡ b'U')
        × (upper_at 1 str ≡ b'P')
        × (upper_at 2 str ≡ b'G')
  unfolding upgrade_insecure_requests_word to_upper
  upgrade_insecure_requests_upper h =
      letters3 b'U' b'P' b'G' (codes "RADE-INSECURE-REQUESTS:") str str_length (omega arith)
        (omega arith) (omega arith) h

  connection_upper :
      is_word str str_length 11 connection_word ≡ true
      → (11 ≤ str_length)
        × (upper_at 0 str ≡ b'C')
        × (upper_at 1 str ≡ b'O')
        × (upper_at 2 str ≡ b'N')
  unfolding connection_word to_upper
  connection_upper h =
      letters3 b'C' b'O' b'N' (codes "NECTION:") str str_length (omega arith) (omega arith)
        (omega arith) h

  -- For every text and every length the scanner gives the code of the first word of its table, in
  -- the order of the codes, that is no longer than the length and with which the text begins in
  -- any mixture of upper and lower case, and nothing where there is none.
  pub scan_for_post_header-first_word :
      scan_for_post_header str str_length ≡ first_word post_header_words str str_length
  unfolding scan_for_post_header first_word fixed_word
  scan_for_post_header-first_word = ground (
    arith, content_type_upper, content_disposition_upper, content_length_upper,
    upgrade_insecure_requests_upper, connection_upper,
  )
