-- ===== src/Scanners/FirstLines/Table.antt =====
-- The scanner of firstLines against its table of words.
use ammar_server.Base.{ℕ, ◌≤◌, [], true, ◌≡◌, Bytes, arith}
use ammar_server.Base.Text.{codes}
use ammar_server.Scanners.Words.{to_upper, upper_at, is_word, letters3, first_word, fixed_word}
use ammar_server.Scanners.FirstLines.{
  scan_for_first_lines, first_lines_words, get_word, head_word, post_word, put_word, delete_word,
  trace_word, options_word, connect_word, patch_word,
}

module _ (str : Bytes) (str_length : ℕ) where
  get_upper :
      is_word str str_length 3 get_word ≡ true
      → (3 ≤ str_length)
        × (upper_at 0 str ≡ b'G')
        × (upper_at 1 str ≡ b'E')
        × (upper_at 2 str ≡ b'T')
  unfolding get_word to_upper
  get_upper h =
      letters3 b'G' b'E' b'T' [] str str_length (omega arith) (omega arith) (omega arith) h

  head_upper :
      is_word str str_length 4 head_word ≡ true
      → (4 ≤ str_length)
        × (upper_at 0 str ≡ b'H')
        × (upper_at 1 str ≡ b'E')
        × (upper_at 2 str ≡ b'A')
  unfolding head_word to_upper
  head_upper h =
      letters3 b'H' b'E' b'A' (codes "D") str str_length (omega arith) (omega arith) (omega arith) h

  post_upper :
      is_word str str_length 4 post_word ≡ true
      → (4 ≤ str_length)
        × (upper_at 0 str ≡ b'P')
        × (upper_at 1 str ≡ b'O')
        × (upper_at 2 str ≡ b'S')
  unfolding post_word to_upper
  post_upper h =
      letters3 b'P' b'O' b'S' (codes "T") str str_length (omega arith) (omega arith) (omega arith) h

  put_upper :
      is_word str str_length 3 put_word ≡ true
      → (3 ≤ str_length)
        × (upper_at 0 str ≡ b'P')
        × (upper_at 1 str ≡ b'U')
        × (upper_at 2 str ≡ b'T')
  unfolding put_word to_upper
  put_upper h =
      letters3 b'P' b'U' b'T' [] str str_length (omega arith) (omega arith) (omega arith) h

  delete_upper :
      is_word str str_length 6 delete_word ≡ true
      → (6 ≤ str_length)
        × (upper_at 0 str ≡ b'D')
        × (upper_at 1 str ≡ b'E')
        × (upper_at 2 str ≡ b'L')
  unfolding delete_word to_upper
  delete_upper h =
      letters3 b'D' b'E' b'L' (codes "ETE") str str_length (omega arith) (omega arith) (omega arith)
        h

  trace_upper :
      is_word str str_length 5 trace_word ≡ true
      → (5 ≤ str_length)
        × (upper_at 0 str ≡ b'T')
        × (upper_at 1 str ≡ b'R')
        × (upper_at 2 str ≡ b'A')
  unfolding trace_word to_upper
  trace_upper h =
      letters3 b'T' b'R' b'A' (codes "CE") str str_length (omega arith) (omega arith) (omega arith)
        h

  options_upper :
      is_word str str_length 7 options_word ≡ true
      → (7 ≤ str_length)
        × (upper_at 0 str ≡ b'O')
        × (upper_at 1 str ≡ b'P')
        × (upper_at 2 str ≡ b'T')
  unfolding options_word to_upper
  options_upper h =
      letters3 b'O' b'P' b'T' (codes "IONS") str str_length (omega arith) (omega arith)
        (omega arith) h

  connect_upper :
      is_word str str_length 7 connect_word ≡ true
      → (7 ≤ str_length)
        × (upper_at 0 str ≡ b'C')
        × (upper_at 1 str ≡ b'O')
        × (upper_at 2 str ≡ b'N')
  unfolding connect_word to_upper
  connect_upper h =
      letters3 b'C' b'O' b'N' (codes "NECT") str str_length (omega arith) (omega arith)
        (omega arith) h

  patch_upper :
      is_word str str_length 5 patch_word ≡ true
      → (5 ≤ str_length)
        × (upper_at 0 str ≡ b'P')
        × (upper_at 1 str ≡ b'A')
        × (upper_at 2 str ≡ b'T')
  unfolding patch_word to_upper
  patch_upper h =
      letters3 b'P' b'A' b'T' (codes "CH") str str_length (omega arith) (omega arith) (omega arith)
        h

  -- For every text and every length the scanner gives the code of the first word of its table, in
  -- the order of the codes, that is no longer than the length and with which the text begins in
  -- any mixture of upper and lower case, and nothing where there is none.
  pub scan_for_first_lines-first_word :
      scan_for_first_lines str str_length ≡ first_word first_lines_words str str_length
  unfolding scan_for_first_lines first_word fixed_word
  scan_for_first_lines-first_word = ground (
    arith, get_upper, head_upper, post_upper, put_upper, delete_upper, trace_upper, options_upper,
    connect_upper, patch_upper,
  )
