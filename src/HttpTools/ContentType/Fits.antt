-- ===== src/HttpTools/ContentType/Fits.antt =====
-- The lengths of the content types against the size of the buffer.
use ammar_server.Base.{
  ℕ, ◌+◌, ◌≤◌, ◌≡◌, refl, Option, none, some, Bytes, length, arith, inl, inr, ltb, Bool-cases, ◌⊎◌,
}
use ammar_server.Base.Text.{codes}
use ammar_server.HttpTools.ContentType.{
  text_files_type, image_files_type, video_files_type, audio_files_type, application_files_type,
  archive_files_type, or_else, raw_type, get_content_type_for_extension,
}
use ammar_server.Scanners.TextFiles.{TextFile}
use ammar_server.Scanners.ImageFiles.{ImageFile}
use ammar_server.Scanners.VideoFiles.{VideoFile}
use ammar_server.Scanners.AudioFiles.{AudioFile}
use ammar_server.Scanners.ApplicationFiles.{ApplicationFile}
use ammar_server.Scanners.ArchiveFiles.{ArchiveFile}

abbrev pub flash_type : Bytes
flash_type = codes "application/x-shockwave-flash"

-- The text with its terminator takes at most 29 bytes, or it is the content type of Flash.
abbrev Short : Bytes → Type 0
Short t = (length t + 1 ≤ 29) ⊎ (t ≡ flash_type)

text-Short : (c : TextFile) → Short (text_files_type c)
unfolding text_files_type
text-Short TextFile.html = inl (omega arith)
text-Short _ = inl (omega arith)

image-Short : (c : ImageFile) → Short (image_files_type c)
unfolding image_files_type
image-Short ImageFile.gif = inl (omega arith)
image-Short _ = inl (omega arith)

video-Short : (c : VideoFile) → Short (video_files_type c)
unfolding video_files_type
video-Short VideoFile.avi = inl (omega arith)
video-Short _ = inl (omega arith)

audio-Short : (c : AudioFile) → Short (audio_files_type c)
unfolding audio_files_type
audio-Short AudioFile.mp3 = inl (omega arith)
audio-Short _ = inl (omega arith)

application-Short : (c : ApplicationFile) → Short (application_files_type c)
unfolding application_files_type
application-Short ApplicationFile.swf = inr refl
application-Short ApplicationFile.exe = inl (omega arith)
application-Short _ = inl (omega arith)

archive-Short : (c : ArchiveFile) → Short (archive_files_type c)
unfolding archive_files_type
archive-Short ArchiveFile.gz = inl (omega arith)
archive-Short _ = inl (omega arith)

raw-Short : (ext t : Bytes) → raw_type ext ≡ some t → Short t
unfolding raw_type
raw-Short ext t h =
    let e : codes "application/octet-stream" ≡ t = ground arith in rw (← e) (inl (omega arith))

or_else-Short {ℓ} :
    {A : Type ℓ} (o : Option A) (rest : Option Bytes) (f : A → Bytes) (t : Bytes)
    → ((a : A) → Short (f a))
    → (rest ≡ some t → Short t)
    → or_else o rest f ≡ some t
    → Short t
or_else-Short none rest f t h g e = g e
or_else-Short (some a) rest f t h g e = let same : f a ≡ t = cc in rw (← same) (h a)

-- For every extension and buffer size: where there is a content type, it fits in the buffer with
-- its terminator, unless it is the content type of Flash and the buffer has exactly 29 bytes.
pub content_type_fits :
    (ext : Bytes) (n : ℕ) (t : Bytes)
    → get_content_type_for_extension ext n ≡ some t
    → (length t + 1 ≤ n) ⊎ ((t ≡ flash_type) × (n ≡ 29))
unfolding get_content_type_for_extension
content_type_fits ext n t h = elim (Bool-cases (ltb n 29)) [
  | inl small ↦ absurd (cc (rw small at h))
  | inr big ↦
      let long : 29 ≤ n = ground arith in
      elim (or_else-Short _ _ text_files_type t text-Short
        (or_else-Short _ _ image_files_type t image-Short (
          or_else-Short _ _ video_files_type t video-Short (
            or_else-Short _ _ audio_files_type t audio-Short (
              or_else-Short _ _ application_files_type t application-Short
                (or_else-Short _ _ archive_files_type t archive-Short (raw-Short ext t))))))
        (rw big at h)) [
          | inl short ↦ inl (omega arith)
          | inr is_flash ↦ elim (Bool-cases (ltb 29 n)) [
            | inl more ↦ inl (rw is_flash (ground arith))
            | inr same ↦ inr (is_flash, ground arith)
          ]
        ]
]
