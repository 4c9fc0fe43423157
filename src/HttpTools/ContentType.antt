-- ===== src/HttpTools/ContentType.antt =====
-- `GetContentTypeForExtension`, `GetContentType` and `GetExtentionType`,
-- src/AmmServerlib/tools/http_tools.c. The content type is the text that is left in the buffer of the
-- caller; `none` is the result 0, which leaves the buffer as it was.
pub mod Classes
pub mod Fits
pub mod LastDot
use ammar_server.Base.{
  ℕ, zero, suc, ◌+◌, ◌-◌, Bool, true, false, ◌&&◌, ◌||◌, List, [], ◌∷◌, Option, none, some, Bytes,
  length, drop, ltb, leb, ◌==◌, if◌then◌else◌,
}
use ammar_server.Base.Text.{codes, strcmp}
use ammar_server.Scanners.Words.{to_upper, char_at}
use ammar_server.Scanners.TextFiles.{TextFile, scan_for_text_files}
use ammar_server.Scanners.ImageFiles.{ImageFile, scan_for_image_files}
use ammar_server.Scanners.VideoFiles.{VideoFile, scan_for_video_files}
use ammar_server.Scanners.AudioFiles.{AudioFile, scan_for_audio_files}
use ammar_server.Scanners.ApplicationFiles.{ApplicationFile, scan_for_application_files}
use ammar_server.Scanners.ArchiveFiles.{ArchiveFile, scan_for_archive_files}

unfoldable pub text_files_type : TextFile → Bytes
text_files_type TextFile.html = codes "text/html"
text_files_type TextFile.htm = codes "text/html"
text_files_type TextFile.css = codes "text/css"
text_files_type TextFile.txt = codes "text/txt"
text_files_type TextFile.doc = codes "text/doc"
text_files_type TextFile.rtf = codes "text/rtf"
text_files_type TextFile.odf = codes "text/odf"
text_files_type TextFile.odt = codes "text/odt"

unfoldable pub image_files_type : ImageFile → Bytes
image_files_type ImageFile.gif = codes "image/gif"
image_files_type ImageFile.png = codes "image/png"
image_files_type ImageFile.jpg = codes "image/jpg"
image_files_type ImageFile.jpeg = codes "image/jpg"
image_files_type ImageFile.webp = codes "image/webp"
image_files_type ImageFile.bmp = codes "image/bmp"
image_files_type ImageFile.tiff = codes "image/tiff"
image_files_type ImageFile.dib = codes "image/dib"
image_files_type ImageFile.rle = codes "image/rle"
image_files_type ImageFile.j2c = codes "image/j2c"
image_files_type ImageFile.ico = codes "image/ico"
image_files_type ImageFile.ppm = codes "image/ppm"
image_files_type ImageFile.pnm = codes "image/pnm"
image_files_type ImageFile.raw = codes "image/raw"
image_files_type ImageFile.svg = codes "image/svg+xml"

unfoldable pub video_files_type : VideoFile → Bytes
video_files_type VideoFile.avi = codes "video/mp4"
video_files_type VideoFile.mpeg4 = codes "video/mp4"
video_files_type VideoFile.mpeg = codes "video/mp4"
video_files_type VideoFile.mp4 = codes "video/mp4"
video_files_type VideoFile.ogv = codes "video/ogv"
video_files_type VideoFile.webm = codes "video/webm"
video_files_type VideoFile.mkv = codes "video/mkv"
video_files_type VideoFile.n3gp = codes "video/3gp"
video_files_type VideoFile.h263 = codes "video/h263"
video_files_type VideoFile.h264 = codes "video/h264"
video_files_type VideoFile.flv = codes "video/x-flv"

unfoldable pub audio_files_type : AudioFile → Bytes
audio_files_type AudioFile.mp3 = codes "audio/mp3"
audio_files_type AudioFile.wav = codes "audio/wav"
audio_files_type AudioFile.mid = codes "audio/mid"
audio_files_type AudioFile.ogg = codes "audio/ogg"
audio_files_type AudioFile.voc = codes "audio/voc"
audio_files_type AudioFile.au = codes "audio/au"

unfoldable pub application_files_type : ApplicationFile → Bytes
application_files_type ApplicationFile.exe = codes "application/exe"
application_files_type ApplicationFile.dll = codes "application/exe"
application_files_type ApplicationFile.scr = codes "application/exe"
application_files_type ApplicationFile.cpl = codes "application/exe"
application_files_type ApplicationFile.swf = codes "application/x-shockwave-flash"
application_files_type ApplicationFile.pdf = codes "application/pdf"
application_files_type ApplicationFile.json = codes "application/json"
application_files_type ApplicationFile.js = codes "application/javascript"

unfoldable pub archive_files_type : ArchiveFile → Bytes
archive_files_type ArchiveFile.gz = codes "application/gzip"
archive_files_type ArchiveFile.tar = codes "application/x-tar"
archive_files_type ArchiveFile.tgz = codes "application/gnutar"
archive_files_type ArchiveFile.zip = codes "application/zip"
archive_files_type ArchiveFile.jar = codes "application/octet-stream"
archive_files_type ArchiveFile.n7z = codes "application/octet-stream"
archive_files_type ArchiveFile.ar = codes "application/octet-stream"
archive_files_type ArchiveFile.bz2 = codes "application/octet-stream"
archive_files_type ArchiveFile.cbz = codes "application/octet-stream"
archive_files_type ArchiveFile.cpio = codes "application/octet-stream"
archive_files_type ArchiveFile.iso = codes "application/octet-stream"
archive_files_type ArchiveFile.lzma = codes "application/octet-stream"
archive_files_type ArchiveFile.tar_7z = codes "application/octet-stream"
archive_files_type ArchiveFile.tar_z = codes "application/octet-stream"
archive_files_type ArchiveFile.tar_gz = codes "application/octet-stream"
archive_files_type ArchiveFile.tar_bz2 = codes "application/octet-stream"
archive_files_type ArchiveFile.tar_bz = codes "application/octet-stream"
archive_files_type ArchiveFile.tar_lz = codes "application/octet-stream"
archive_files_type ArchiveFile.tar_lzma = codes "application/octet-stream"
archive_files_type ArchiveFile.tar_xz = codes "application/octet-stream"
archive_files_type ArchiveFile.xz = codes "application/octet-stream"

-- `strcasecmp(a,b)==0`
unfoldable pub strcasecmp : Bytes → Bytes → Bool
unfolding to_upper
strcasecmp [] [] = true
strcasecmp [] (y ∷ b) = false
strcasecmp (x ∷ a) [] = false
strcasecmp (x ∷ a) (y ∷ b) = to_upper x == to_upper y && strcasecmp a b

abbrev or_else {ℓ} : {A : Type ℓ} → Option A → Option Bytes → (A → Bytes) → Option Bytes
or_else none rest f = rest
or_else (some a) rest f = some (f a)

unfoldable pub raw_type : Bytes → Option Bytes
raw_type ext =
    if strcasecmp ext (codes "bin") || strcasecmp ext (codes "dat")
    then some (codes "application/octet-stream")
    else none

-- One switch after the other, on the codes of the six scanners.
unfoldable pub get_content_type_for_extension : Bytes → ℕ → Option Bytes
get_content_type_for_extension ext content_type_length =
    let n = length ext in
    if ltb content_type_length 29
    then none
    else (or_else (scan_for_text_files ext n)
        (or_else (scan_for_image_files ext n)
          (or_else (scan_for_video_files ext n)
            (or_else (scan_for_audio_files ext n)
              (or_else (scan_for_application_files ext n)
                (or_else (scan_for_archive_files ext n) (raw_type ext) archive_files_type)
                application_files_type)
              audio_files_type)
            video_files_type)
          image_files_type)
        text_files_type)

-- `while ((i>0)&&(filename[i]!='.')) { --i; }`
unfoldable pub last_dot : Bytes → ℕ → ℕ
last_dot filename zero = zero
last_dot filename (suc i) = if char_at filename (suc i) == b'.' then suc i else last_dot filename i

unfoldable pub get_content_type : Bytes → ℕ → Option Bytes
get_content_type filename content_type_length =
    let filename_length = length filename in
    let i = last_dot filename (filename_length - 1) in
    if filename_length == 0
    then none
    else if i == 0
    then none
    else if leb filename_length (i + 1)
    then none
    else get_content_type_for_extension (drop (i + 1) filename) content_type_length

pub data FileType : Type 0 where
  no_filetype reserved_cte_value text image audio video executable flash folder : FileType

unfoldable pub get_extention_type : Bytes → FileType
unfolding strcmp
get_extention_type ext =
    let c = char_at ext 0 in
    if c == 0
    then no_filetype
    else if c == b't'
    then text
    else if c == b'i'
    then image
    else if c == b'v'
    then video
    else if c == b'a'
    then (if strcmp ext (codes "application/x-shockwave-flash")
        then flash
        else if char_at ext 1 == b'u'
        then audio
        else if char_at ext 1 == b'p'
        then executable
        else no_filetype)
    else no_filetype
