-- ===== src/Scanners/ArchiveFiles.antt =====
-- `scanFor_archiveFiles`, src/AmmServerlib/stringscanners/archiveFiles.c: a switch over the first letters, then the
-- words. The codes are constructors, and `none` is 0.
pub mod Table
use ammar_server.Base.{ℕ, List, [], ◌∷◌, Option, none, some, Bytes, ltb, ◌==◌, if◌then◌else◌}
use ammar_server.Base.Text.{codes}
use ammar_server.Scanners.Words.{upper_at, is_word, fixed_word, Word, word}

pub data ArchiveFile : Type 0 where
  n7z ar bz2 cbz cpio gz iso jar lzma tar tgz tar_7z tar_z tar_gz tar_bz2 tar_bz tar_lz tar_lzma
        tar_xz xz zip :
      ArchiveFile

unfoldable pub n7z_word : Bytes
n7z_word = codes "7Z"

unfoldable pub ar_word : Bytes
ar_word = codes "AR"

unfoldable pub bz2_word : Bytes
bz2_word = codes "BZ2"

unfoldable pub cbz_word : Bytes
cbz_word = codes "CBZ"

unfoldable pub cpio_word : Bytes
cpio_word = codes "CPIO"

unfoldable pub gz_word : Bytes
gz_word = codes "GZ"

unfoldable pub iso_word : Bytes
iso_word = codes "ISO"

unfoldable pub jar_word : Bytes
jar_word = codes "JAR"

unfoldable pub lzma_word : Bytes
lzma_word = codes "LZMA"

unfoldable pub tar_word : Bytes
tar_word = codes "TAR"

unfoldable pub tgz_word : Bytes
tgz_word = codes "TGZ"

unfoldable pub tar_7z_word : Bytes
tar_7z_word = codes "TAR.7Z"

unfoldable pub tar_z_word : Bytes
tar_z_word = codes "TAR.Z"

unfoldable pub tar_gz_word : Bytes
tar_gz_word = codes "TAR.GZ"

unfoldable pub tar_bz2_word : Bytes
tar_bz2_word = codes "TAR.BZ2"

unfoldable pub tar_bz_word : Bytes
tar_bz_word = codes "TAR.BZ"

unfoldable pub tar_lz_word : Bytes
tar_lz_word = codes "TAR.LZ"

unfoldable pub tar_lzma_word : Bytes
tar_lzma_word = codes "TAR.LZMA"

unfoldable pub tar_xz_word : Bytes
tar_xz_word = codes "TAR.XZ"

unfoldable pub xz_word : Bytes
xz_word = codes "XZ"

unfoldable pub zip_word : Bytes
zip_word = codes "ZIP"

unfoldable pub scan_for_archive_files : Bytes → ℕ → Option ArchiveFile
scan_for_archive_files str str_length =
    if ltb str_length 2
    then none
    else (if upper_at 0 str == b'A'
        then (fixed_word str str_length 2 ar_word ar)
        else if upper_at 0 str == b'B'
        then (fixed_word str str_length 3 bz2_word bz2)
        else if upper_at 0 str == b'C'
        then (if upper_at 1 str == b'B'
            then (fixed_word str str_length 3 cbz_word cbz)
            else if upper_at 1 str == b'P'
            then (fixed_word str str_length 4 cpio_word cpio)
            else none)
        else if upper_at 0 str == b'G'
        then (fixed_word str str_length 2 gz_word gz)
        else if upper_at 0 str == b'I'
        then (fixed_word str str_length 3 iso_word iso)
        else if upper_at 0 str == b'J'
        then (fixed_word str str_length 3 jar_word jar)
        else if upper_at 0 str == b'L'
        then (fixed_word str str_length 4 lzma_word lzma)
        else if upper_at 0 str == b'T'
        then (if upper_at 1 str == b'A'
            then (if upper_at 2 str == b'R'
                then (if is_word str str_length 3 tar_word
                    then some tar
                    else if is_word str str_length 6 tar_7z_word
                    then some tar_7z
                    else if is_word str str_length 5 tar_z_word
                    then some tar_z
                    else if is_word str str_length 6 tar_gz_word
                    then some tar_gz
                    else if is_word str str_length 7 tar_bz2_word
                    then some tar_bz2
                    else if is_word str str_length 6 tar_bz_word
                    then some tar_bz
                    else if is_word str str_length 6 tar_lz_word
                    then some tar_lz
                    else if is_word str str_length 8 tar_lzma_word
                    then some tar_lzma
                    else if is_word str str_length 6 tar_xz_word
                    then some tar_xz
                    else none)
                else none)
            else if upper_at 1 str == b'G'
            then (fixed_word str str_length 3 tgz_word tgz)
            else none)
        else if upper_at 0 str == b'X'
        then (fixed_word str str_length 2 xz_word xz)
        else if upper_at 0 str == b'Z'
        then (fixed_word str str_length 3 zip_word zip)
        else if upper_at 0 str == b'7'
        then (fixed_word str str_length 2 n7z_word n7z)
        else none)

-- The words with their codes, in the order of the codes.
abbrev pub archive_files_words : List (Word ArchiveFile)
archive_files_words =
    word 2 n7z_word n7z
    ∷ word 2 ar_word ar
    ∷ word 3 bz2_word bz2
    ∷ word 3 cbz_word cbz
    ∷ word 4 cpio_word cpio
    ∷ word 2 gz_word gz
    ∷ word 3 iso_word iso
    ∷ word 3 jar_word jar
    ∷ word 4 lzma_word lzma
    ∷ word 3 tar_word tar
    ∷ word 3 tgz_word tgz
    ∷ word 6 tar_7z_word tar_7z
    ∷ word 5 tar_z_word tar_z
    ∷ word 6 tar_gz_word tar_gz
    ∷ word 7 tar_bz2_word tar_bz2
    ∷ word 6 tar_bz_word tar_bz
    ∷ word 6 tar_lz_word tar_lz
    ∷ word 8 tar_lzma_word tar_lzma
    ∷ word 6 tar_xz_word tar_xz
    ∷ word 2 xz_word xz
    ∷ word 3 zip_word zip
    ∷ []
