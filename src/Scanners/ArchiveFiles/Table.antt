-- ===== src/Scanners/ArchiveFiles/Table.antt =====
-- The scanner of archiveFiles against its table of words.
use ammar_server.Base.{ℕ, ◌≤◌, [], true, ◌≡◌, Bytes, arith}
use ammar_server.Base.Text.{codes}
use ammar_server.Scanners.Words.{
  to_upper, upper_at, is_word, letters2, letters3, first_word, fixed_word,
}
use ammar_server.Scanners.ArchiveFiles.{
  scan_for_archive_files, archive_files_words, n7z_word, ar_word, bz2_word, cbz_word, cpio_word,
  gz_word, iso_word, jar_word, lzma_word, tar_word, tgz_word, tar_7z_word, tar_z_word, tar_gz_word,
  tar_bz2_word, tar_bz_word, tar_lz_word, tar_lzma_word, tar_xz_word, xz_word, zip_word,
}

module _ (str : Bytes) (str_length : ℕ) where
  n7z_upper :
      is_word str str_length 2 n7z_word ≡ true
      → (2 ≤ str_length) × (upper_at 0 str ≡ b'7') × (upper_at 1 str ≡ b'Z')
  unfolding n7z_word to_upper
  n7z_upper h = letters2 b'7' b'Z' [] str str_length (omega arith) (omega arith) h

  ar_upper :
      is_word str str_length 2 ar_word ≡ true
      → (2 ≤ str_length) × (upper_at 0 str ≡ b'A') × (upper_at 1 str ≡ b'R')
  unfolding ar_word to_upper
  ar_upper h = letters2 b'A' b'R' [] str str_length (omega arith) (omega arith) h

  bz2_upper :
      is_word str str_length 3 bz2_word ≡ true
      → (3 ≤ str_length)
        × (upper_at 0 str ≡ b'B')
        × (upper_at 1 str ≡ b'Z')
        × (upper_at 2 str ≡ b'2')
  unfolding bz2_word to_upper
  bz2_upper h =
      letters3 b'B' b'Z' b'2' [] str str_length (omega arith) (omega arith) (omega arith) h

  cbz_upper :
      is_word str str_length 3 cbz_word ≡ true
      → (3 ≤ str_length)
        × (upper_at 0 str ≡ b'C')
        × (upper_at 1 str ≡ b'B')
        × (upper_at 2 str ≡ b'Z')
  unfolding cbz_word to_upper
  cbz_upper h =
      letters3 b'C' b'B' b'Z' [] str str_length (omega arith) (omega arith) (omega arith) h

  cpio_upper :
      is_word str str_length 4 cpio_word ≡ true
      → (4 ≤ str_length)
        × (upper_at 0 str ≡ b'C')
        × (upper_at 1 str ≡ b'P')
        × (upper_at 2 str ≡ b'I')
  unfolding cpio_word to_upper
  cpio_upper h =
      letters3 b'C' b'P' b'I' (codes "O") str str_length (omega arith) (omega arith) (omega arith) h

  gz_upper :
      is_word str str_length 2 gz_word ≡ true
      → (2 ≤ str_length) × (upper_at 0 str ≡ b'G') × (upper_at 1 str ≡ b'Z')
  unfolding gz_word to_upper
  gz_upper h = letters2 b'G' b'Z' [] str str_length (omega arith) (omega arith) h

  iso_upper :
      is_word str str_length 3 iso_word ≡ true
      → (3 ≤ str_length)
        × (upper_at 0 str ≡ b'I')
        × (upper_at 1 str ≡ b'S')
        × (upper_at 2 str ≡ b'O')
  unfolding iso_word to_upper
  iso_upper h =
      letters3 b'I' b'S' b'O' [] str str_length (omega arith) (omega arith) (omega arith) h

  jar_upper :
      is_word str str_length 3 jar_word ≡ true
      → (3 ≤ str_length)
        × (upper_at 0 str ≡ b'J')
        × (upper_at 1 str ≡ b'A')
        × (upper_at 2 str ≡ b'R')
  unfolding jar_word to_upper
  jar_upper h =
      letters3 b'J' b'A' b'R' [] str str_length (omega arith) (omega arith) (omega arith) h

  lzma_upper :
      is_word str str_length 4 lzma_word ≡ true
      → (4 ≤ str_length)
        × (upper_at 0 str ≡ b'L')
        × (upper_at 1 str ≡ b'Z')
        × (upper_at 2 str ≡ b'M')
  unfolding lzma_word to_upper
  lzma_upper h =
      letters3 b'L' b'Z' b'M' (codes "A") str str_length (omega arith) (omega arith) (omega arith) h

  tar_upper :
      is_word str str_length 3 tar_word ≡ true
      → (3 ≤ str_length)
        × (upper_at 0 str ≡ b'T')
        × (upper_at 1 str ≡ b'A')
        × (upper_at 2 str ≡ b'R')
  unfolding tar_word to_upper
  tar_upper h =
      letters3 b'T' b'A' b'R' [] str str_length (omega arith) (omega arith) (omega arith) h

  tgz_upper :
      is_word str str_length 3 tgz_word ≡ true
      → (3 ≤ str_length)
        × (upper_at 0 str ≡ b'T')
        × (upper_at 1 str ≡ b'G')
        × (upper_at 2 str ≡ b'Z')
  unfolding tgz_word to_upper
  tgz_upper h =
      letters3 b'T' b'G' b'Z' [] str str_length (omega arith) (omega arith) (omega arith) h

  tar_7z_upper :
      is_word str str_length 6 tar_7z_word ≡ true
      → (6 ≤ str_length)
        × (upper_at 0 str ≡ b'T')
        × (upper_at 1 str ≡ b'A')
        × (upper_at 2 str ≡ b'R')
  unfolding tar_7z_word to_upper
  tar_7z_upper h =
      letters3 b'T' b'A' b'R' (codes ".7Z") str str_length (omega arith) (omega arith) (omega arith)
        h

  tar_z_upper :
      is_word str str_length 5 tar_z_word ≡ true
      → (5 ≤ str_length)
        × (upper_at 0 str ≡ b'T')
        × (upper_at 1 str ≡ b'A')
        × (upper_at 2 str ≡ b'R')
  unfolding tar_z_word to_upper
  tar_z_upper h =
      letters3 b'T' b'A' b'R' (codes ".Z") str str_length (omega arith) (omega arith) (omega arith)
        h

  tar_gz_upper :
      is_word str str_length 6 tar_gz_word ≡ true
      → (6 ≤ str_length)
        × (upper_at 0 str ≡ b'T')
        × (upper_at 1 str ≡ b'A')
        × (upper_at 2 str ≡ b'R')
  unfolding tar_gz_word to_upper
  tar_gz_upper h =
      letters3 b'T' b'A' b'R' (codes ".GZ") str str_length (omega arith) (omega arith) (omega arith)
        h

  tar_bz2_upper :
      is_word str str_length 7 tar_bz2_word ≡ true
      → (7 ≤ str_length)
        × (upper_at 0 str ≡ b'T')
        × (upper_at 1 str ≡ b'A')
        × (upper_at 2 str ≡ b'R')
  unfolding tar_bz2_word to_upper
  tar_bz2_upper h =
      letters3 b'T' b'A' b'R' (codes ".BZ2") str str_length (omega arith) (omega arith)
        (omega arith) h

  tar_bz_upper :
      is_word str str_length 6 tar_bz_word ≡ true
      → (6 ≤ str_length)
        × (upper_at 0 str ≡ b'T')
        × (upper_at 1 str ≡ b'A')
        × (upper_at 2 str ≡ b'R')
  unfolding tar_bz_word to_upper
  tar_bz_upper h =
      letters3 b'T' b'A' b'R' (codes ".BZ") str str_length (omega arith) (omega arith) (omega arith)
        h

  tar_lz_upper :
      is_word str str_length 6 tar_lz_word ≡ true
      → (6 ≤ str_length)
        × (upper_at 0 str ≡ b'T')
        × (upper_at 1 str ≡ b'A')
        × (upper_at 2 str ≡ b'R')
  unfolding tar_lz_word to_upper
  tar_lz_upper h =
      letters3 b'T' b'A' b'R' (codes ".LZ") str str_length (omega arith) (omega arith) (omega arith)
        h

  tar_lzma_upper :
      is_word str str_length 8 tar_lzma_word ≡ true
      → (8 ≤ str_length)
        × (upper_at 0 str ≡ b'T')
        × (upper_at 1 str ≡ b'A')
        × (upper_at 2 str ≡ b'R')
  unfolding tar_lzma_word to_upper
  tar_lzma_upper h =
      letters3 b'T' b'A' b'R' (codes ".LZMA") str str_length (omega arith) (omega arith)
        (omega arith) h

  tar_xz_upper :
      is_word str str_length 6 tar_xz_word ≡ true
      → (6 ≤ str_length)
        × (upper_at 0 str ≡ b'T')
        × (upper_at 1 str ≡ b'A')
        × (upper_at 2 str ≡ b'R')
  unfolding tar_xz_word to_upper
  tar_xz_upper h =
      letters3 b'T' b'A' b'R' (codes ".XZ") str str_length (omega arith) (omega arith) (omega arith)
        h

  xz_upper :
      is_word str str_length 2 xz_word ≡ true
      → (2 ≤ str_length) × (upper_at 0 str ≡ b'X') × (upper_at 1 str ≡ b'Z')
  unfolding xz_word to_upper
  xz_upper h = letters2 b'X' b'Z' [] str str_length (omega arith) (omega arith) h

  zip_upper :
      is_word str str_length 3 zip_word ≡ true
      → (3 ≤ str_length)
        × (upper_at 0 str ≡ b'Z')
        × (upper_at 1 str ≡ b'I')
        × (upper_at 2 str ≡ b'P')
  unfolding zip_word to_upper
  zip_upper h =
      letters3 b'Z' b'I' b'P' [] str str_length (omega arith) (omega arith) (omega arith) h

  -- For every text and every length the scanner gives the code of the first word of its table, in
  -- the order of the codes, that is no longer than the length and with which the text begins in
  -- any mixture of upper and lower case, and nothing where there is none.
  pub scan_for_archive_files-first_word :
      scan_for_archive_files str str_length ≡ first_word archive_files_words str str_length
  unfolding scan_for_archive_files first_word fixed_word
  scan_for_archive_files-first_word = ground (
    arith, n7z_upper, ar_upper, bz2_upper, cbz_upper, cpio_upper, gz_upper, iso_upper, jar_upper,
    lzma_upper, tar_upper, tgz_upper, tar_7z_upper, tar_z_upper, tar_gz_upper, tar_bz2_upper,
    tar_bz_upper, tar_lz_upper, tar_lzma_upper, tar_xz_upper, xz_upper, zip_upper,
  )
