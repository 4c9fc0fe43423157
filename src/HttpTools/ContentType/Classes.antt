-- ===== src/HttpTools/ContentType/Classes.antt =====
-- Content types and the coarse type that `GetExtentionType` reads off their letters.
use ammar_server.Base.{
  ℕ, ◌≡◌, refl, Option, none, some, Bytes, length, arith, inl, inr, ltb, Bool-cases,
}
use ammar_server.Base.Text.{codes}
use ammar_server.HttpTools.ContentType.{
  text_files_type, image_files_type, video_files_type, audio_files_type, application_files_type,
  archive_files_type, or_else, raw_type, get_content_type_for_extension, FileType,
  get_extention_type, executable, flash,
}
use ammar_server.Scanners.Words.{first_word}
use ammar_server.Scanners.TextFiles.{TextFile, text_files_words}
use ammar_server.Scanners.ImageFiles.{ImageFile, image_files_words}
use ammar_server.Scanners.VideoFiles.{VideoFile, video_files_words}
use ammar_server.Scanners.AudioFiles.{AudioFile, audio_files_words}
use ammar_server.Scanners.ApplicationFiles.{ApplicationFile, scan_for_application_files}
use ammar_server.Scanners.ArchiveFiles.{ArchiveFile}
use ammar_server.Scanners.TextFiles.Table.{scan_for_text_files-first_word}
use ammar_server.Scanners.ImageFiles.Table.{scan_for_image_files-first_word}
use ammar_server.Scanners.VideoFiles.Table.{scan_for_video_files-first_word}
use ammar_server.Scanners.AudioFiles.Table.{scan_for_audio_files-first_word}

unfoldable pub application_file_class : ApplicationFile → FileType
application_file_class ApplicationFile.swf = flash
application_file_class _ = executable

unfoldable pub first_class {ℓ} : {A : Type ℓ} → Option A → FileType → (A → FileType) → FileType
first_class none rest k = rest
first_class (some a) rest k = k a

-- The coarse type of an extension, by the tables of words in the order of the switches; what only
-- the tables of applications and archives know is executable, but for Flash.
unfoldable pub file_class : Bytes → FileType
file_class ext =
    let n = length ext in
    first_class (first_word text_files_words ext n)
      (first_class (first_word image_files_words ext n)
        (first_class (first_word video_files_words ext n)
          (first_class (first_word audio_files_words ext n)
            (first_class (scan_for_application_files ext n) executable application_file_class)
            (λ _. FileType.audio))
          (λ _. FileType.video))
        (λ _. FileType.image))
      (λ _. FileType.text)

module _ where
  text_class : (c : TextFile) → get_extention_type (text_files_type c) ≡ FileType.text
  unfolding get_extention_type text_files_type
  text_class TextFile.html = refl
  text_class _ = refl

  image_class : (c : ImageFile) → get_extention_type (image_files_type c) ≡ FileType.image
  unfolding get_extention_type image_files_type
  image_class ImageFile.gif = refl
  image_class _ = refl

  video_class : (c : VideoFile) → get_extention_type (video_files_type c) ≡ FileType.video
  unfolding get_extention_type video_files_type
  video_class VideoFile.avi = refl
  video_class _ = refl

  audio_class : (c : AudioFile) → get_extention_type (audio_files_type c) ≡ FileType.audio
  unfolding get_extention_type audio_files_type
  audio_class AudioFile.mp3 = refl
  audio_class _ = refl

  application_class :
      (c : ApplicationFile)
      → get_extention_type (application_files_type c) ≡ application_file_class c
  unfolding get_extention_type application_files_type application_file_class
  application_class ApplicationFile.swf = refl
  application_class ApplicationFile.exe = refl
  application_class _ = refl

  archive_class : (c : ArchiveFile) → get_extention_type (archive_files_type c) ≡ executable
  unfolding get_extention_type archive_files_type
  archive_class ArchiveFile.gz = refl
  archive_class _ = refl

  raw_class : (ext t : Bytes) → raw_type ext ≡ some t → get_extention_type t ≡ executable
  unfolding raw_type
  raw_class ext t h =
      let e : codes "application/octet-stream" ≡ t = ground arith in
      rw (← e) (unfold get_extention_type in refl)

  or_else_class {ℓ} :
      {A : Type ℓ} (o : Option A) (rest : Option Bytes) (f : A → Bytes) (t : Bytes)
      (k : A → FileType) (r : FileType)
      → ((a : A) → get_extention_type (f a) ≡ k a)
      → (rest ≡ some t → get_extention_type t ≡ r)
      → or_else o rest f ≡ some t
      → get_extention_type t ≡ first_class o r k
  unfolding first_class
  or_else_class none rest f t k r h g e = g e
  or_else_class (some a) rest f t k r h g e = let same : f a ≡ t = cc in rw (← same) (h a)

-- For every extension and buffer size: where there is a content type, the coarse type that is read
-- off it is the class of the extension by the tables of words, in the order text, image, video,
-- audio, and then executable, or Flash for the extension of Flash.
pub get_extention_type-content_type :
    (ext : Bytes) (n : ℕ) (t : Bytes)
    → get_content_type_for_extension ext n ≡ some t
    → get_extention_type t ≡ file_class ext
unfolding get_content_type_for_extension file_class
get_extention_type-content_type ext n t h = elim (Bool-cases (ltb n 29)) [
  | inl small ↦ absurd (cc (rw small at h))
  | inr big ↦
      rw
        (
          ← scan_for_text_files-first_word ext (length ext),
          ← scan_for_image_files-first_word ext (length ext),
          ← scan_for_video_files-first_word ext (length ext),
          ← scan_for_audio_files-first_word ext (length ext),
        )
        (or_else_class _ _ text_files_type t _ _ text_class
          (or_else_class _ _ image_files_type t _ _ image_class (
            or_else_class _ _ video_files_type t _ _ video_class (
              or_else_class _ _ audio_files_type t _ _ audio_class (
                or_else_class _ _ application_files_type t _ _ application_class
                  (or_else_rest _ _ t)))))
          (rw big at h))
]
  where
    or_else_rest :
        (o : Option ArchiveFile) (x : Bytes) (u : Bytes)
        → or_else o (raw_type x) archive_files_type ≡ some u
        → get_extention_type u ≡ executable
    or_else_rest none x u e = raw_class x u e
    or_else_rest (some a) x u e =
        let same : archive_files_type a ≡ u = cc in rw (← same) (archive_class a)
