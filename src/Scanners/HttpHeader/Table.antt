-- ===== src/Scanners/HttpHeader/Table.antt =====
-- The scanner of httpHeader against its table of words.
use ammar_server.Base.{ℕ, ◌≤◌, true, ◌≡◌, Bytes, arith}
use ammar_server.Base.Text.{codes}
use ammar_server.Scanners.Words.{to_upper, upper_at, is_word, letters3, first_word, fixed_word}
use ammar_server.Scanners.HttpHeader.{
  scan_for_http_header, http_header_words, authorization_word, accept_encoding_word, cookie_word,
  connection_word, host_word, if_none_match_word, if_modified_since_word, if_unmodified_since_word,
  expect_word, transfer_encoding_word, range_word, referrer_word, referer_word, user_agent_word,
}

module _ (str : Bytes) (str_length : ℕ) where
  authorization_upper :
      is_word str str_length 14 authorization_word ≡ true
      → (14 ≤ str_length)
        × (upper_at 0 str ≡ b'A')
        × (upper_at 1 str ≡ b'U')
        × (upper_at 2 str ≡ b'T')
  unfolding authorization_word to_upper
  authorization_upper h =
      letters3 b'A' b'U' b'T' (codes "HORIZATION:") str str_length (omega arith) (omega arith)
        (omega arith) h

  accept_encoding_upper :
      is_word str str_length 16 accept_encoding_word ≡ true
      → (16 ≤ str_length)
        × (upper_at 0 str ≡ b'A')
        × (upper_at 1 str ≡ b'C')
        × (upper_at 2 str ≡ b'C')
  unfolding accept_encoding_word to_upper
  accept_encoding_upper h =
      letters3 b'A' b'C' b'C' (codes "EPT-ENCODING:") str str_length (omega arith) (omega arith)
        (omega arith) h

  cookie_upper :
      is_word str str_length 7 cookie_word ≡ true
      → (7 ≤ str_length)
        × (upper_at 0 str ≡ b'C')
        × (upper_at 1 str ≡ b'O')
        × (upper_at 2 str ≡ b'O')
  unfolding cookie_word to_upper
  cookie_upper h =
      letters3 b'C' b'O' b'O' (codes "KIE:") str str_length (omega arith) (omega arith)
        (omega arith) h

  connection_upper :
      is_word str str_length 11 connection_word ≡ true
      → (11 ≤ str_length)
        × (upper_at 0 str ≡ b'C')
        × (upper_at 1 str ≡ b'O')
        × (upper_at 2 str ≡ b'N')
  unfolding connection_word to_upper
  connection_upper h =
      letters3 b'C' b'O' b'N' (codes "NECTION:") str str_length (omega arith) (omega arith)
        (omega arith) h

  host_upper :
      is_word str str_length 5 host_word ≡ true
      → (5 ≤ str_length)
        × (upper_at 0 str ≡ b'H')
        × (upper_at 1 str ≡ b'O')
        × (upper_at 2 str ≡ b'S')
  unfolding host_word to_upper
  host_upper h =
      letters3 b'H' b'O' b'S' (codes "T:") str str_length (omega arith) (omega arith) (omega arith)
        h

  if_none_match_upper :
      is_word str str_length 14 if_none_match_word ≡ true
      → (14 ≤ str_length)
        × (upper_at 0 str ≡ b'I')
        × (upper_at 1 str ≡ b'F')
        × (upper_at 2 str ≡ b'-')
  unfolding if_none_match_word to_upper
  if_none_match_upper h =
      letters3 b'I' b'F' b'-' (codes "NONE-MATCH:") str str_length (omega arith) (omega arith)
        (omega arith) h

  if_modified_since_upper :
      is_word str str_length 18 if_modified_since_word ≡ true
      → (18 ≤ str_length)
        × (upper_at 0 str ≡ b'I')
        × (upper_at 1 str ≡ b'F')
        × (upper_at 2 str ≡ b'-')
  unfolding if_modified_since_word to_upper
  if_modified_since_upper h =
      letters3 b'I' b'F' b'-' (codes "MODIFIED-SINCE:") str str_length (omega arith) (omega arith)
        (omega arith) h

  if_unmodified_since_upper :
      is_word str str_length 20 if_unmodified_since_word ≡ true
      → (20 ≤ str_length)
        × (upper_at 0 str ≡ b'I')
        × (upper_at 1 str ≡ b'F')
        × (upper_at 2 str ≡ b'-')
  unfolding if_unmodified_since_word to_upper
  if_unmodified_since_upper h =
      letters3 b'I' b'F' b'-' (codes "UNMODIFIED-SINCE:") str str_length (omega arith) (omega arith)
        (omega arith) h

  expect_upper :
      is_word str str_length 7 expect_word ≡ true
      → (7 ≤ str_length)
        × (upper_at 0 str ≡ b'E')
        × (upper_at 1 str ≡ b'X')
        × (upper_at 2 str ≡ b'P')
  unfolding expect_word to_upper
  expect_upper h =
      letters3 b'E' b'X' b'P' (codes "ECT:") str str_length (omega arith) (omega arith)
        (omega arith) h

  transfer_encoding_upper :
      is_word str str_length 18 transfer_encoding_word ≡ true
      → (18 ≤ str_length)
        × (upper_at 0 str ≡ b'T')
        × (upper_at 1 str ≡ b'R')
        × (upper_at 2 str ≡ b'A')
  unfolding transfer_encoding_word to_upper
  transfer_encoding_upper h =
      letters3 b'T' b'R' b'A' (codes "NSFER-ENCODING:") str str_length (omega arith) (omega arith)
        (omega arith) h

  range_upper :
      is_word str str_length 6 range_word ≡ true
      → (6 ≤ str_length)
        × (upper_at 0 str ≡ b'R')
        × (upper_at 1 str ≡ b'A')
        × (upper_at 2 str ≡ b'N')
  unfolding range_word to_upper
  range_upper h =
      letters3 b'R' b'A' b'N' (codes "GE:") str str_length (omega arith) (omega arith) (omega arith)
        h

  referrer_upper :
      is_word str str_length 9 referrer_word ≡ true
      → (9 ≤ str_length)
        × (upper_at 0 str ≡ b'R')
        × (upper_at 1 str ≡ b'E')
        × (upper_at 2 str ≡ b'F')
  unfolding referrer_word to_upper
  referrer_upper h =
      letters3 b'R' b'E' b'F' (codes "ERRER:") str str_length (omega arith) (omega arith)
        (omega arith) h

  referer_upper :
      is_word str str_length 8 referer_word ≡ true
      → (8 ≤ str_length)
        × (upper_at 0 str ≡ b'R')
        × (upper_at 1 str ≡ b'E')
        × (upper_at 2 str ≡ b'F')
  unfolding referer_word to_upper
  referer_upper h =
      letters3 b'R' b'E' b'F' (codes "ERER:") str str_length (omega arith) (omega arith)
        (omega arith) h

  user_agent_upper :
      is_word str str_length 11 user_agent_word ≡ true
      → (11 ≤ str_length)
        × (upper_at 0 str ≡ b'U')
        × (upper_at 1 str ≡ b'S')
        × (upper_at 2 str ≡ b'E')
  unfolding user_agent_word to_upper
  user_agent_upper h =
      letters3 b'U' b'S' b'E' (codes "R-AGENT:") str str_length (omega arith) (omega arith)
        (omega arith) h

  -- For every text and every length the scanner gives the code of the first word of its table, in
  -- the order of the codes, that is no longer than the length and with which the text begins in
  -- any mixture of upper and lower case, and nothing where there is none.
  pub scan_for_http_header-first_word :
      scan_for_http_header str str_length ≡ first_word http_header_words str str_length
  unfolding scan_for_http_header first_word fixed_word
  scan_for_http_header-first_word = ground (
    arith, authorization_upper, accept_encoding_upper, cookie_upper, connection_upper, host_upper,
    if_none_match_upper, if_modified_since_upper, if_unmodified_since_upper, expect_upper,
    transfer_encoding_upper, range_upper, referrer_upper, referer_upper, user_agent_upper,
  )
