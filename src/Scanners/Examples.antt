-- ===== src/Scanners/Examples.antt =====
-- Small texts for the scanners of src/AmmServerlib/stringscanners.
use ammar_server.Base.{◌≡◌}
use ammar_server.Base.Text.{codes}
use ammar_server.Scanners.Words.{first_word}
use ammar_server.Scanners.ArchiveFiles.{scan_for_archive_files, archive_files_words}
use ammar_server.Scanners.ArchiveFiles.Table.{scan_for_archive_files-first_word}
use ammar_server.Scanners.HttpHeader.{scan_for_http_header, http_header_words}
use ammar_server.Scanners.HttpHeader.Table.{scan_for_http_header-first_word}

scan_for_archive_files-first_word_example :
    scan_for_archive_files (codes "tar.gz") 6 ≡ first_word archive_files_words (codes "tar.gz") 6
scan_for_archive_files-first_word_example = scan_for_archive_files-first_word (codes "tar.gz") 6

scan_for_http_header-first_word_example :
    scan_for_http_header (codes "Host: a") 7 ≡ first_word http_header_words (codes "Host: a") 7
scan_for_http_header-first_word_example = scan_for_http_header-first_word (codes "Host: a") 7
