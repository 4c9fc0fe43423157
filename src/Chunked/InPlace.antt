-- ===== src/Chunked/InPlace.antt =====
-- The buffer of the walker of src/AmmServerlib/header_analysis/chunked_transfer.c beside the unread
-- bytes and the payload.
use ammar_server.Base.{
  ℕ, ◌+◌, ◌%◌, ◌≤◌, ◌<◌, ◌≡◌, refl, sym, ap, ◌∙◌, Bool, true, false, ◌++◌, arith, Bytes, length,
  drop, length-append, drop-drop, take, length-take,
}
use ammar_server.Chunked.{
  Trailer, trailer_wait, trailer_bad, trailer_done, ScanResult, incomplete, error_bad, uint, Walk,
  move_down, advance, stopped, end_walk,
}
use ammar_server.Chunked.Decoder.{Reading, waiting, wrong, payload, status, behind_trailer}
use ammar_server.Chunked.Moves.{move_down-Moved}

abbrev pub Sized : Reading → ℕ → Type 0
Sized (payload p) n = n ≡ length p
Sized _ n = Unit

abbrev pub Written : Reading → Bytes → Type 0
Written (payload p) buf = take (length p) buf ≡ p
Written _ buf = Unit

-- A run of the walker from `buf`, with or without writing, tells what `o` tells.
pub record Agrees (write : Bool) (buf : Bytes) (w : Walk) (o : Reading) : Type 0 where
  pub result : w.result ≡ status o
  pub width : length w.buffer ≡ length buf
  pub size : Sized o w.decoded_size
  pub written : write ≡ true → Written o w.buffer
  pub kept : write ≡ false → w.buffer ≡ buf

-- The positions stand for the unread bytes `s` and the payload `out`; what is written never
-- overtakes what is read.
pub record Ready (write : Bool) (buf : Bytes) (read w decoded : ℕ) (s out : Bytes) : Type 0 where
  pub small : length buf < uint
  pub read_le : read ≤ length buf
  pub unread : drop read buf ≡ s
  pub counted : decoded ≡ length out
  pub behind : length out ≤ read
  pub placed : write ≡ true → (w ≡ length out) × (take w buf ≡ out)

pub stopped-Agrees :
    (write : Bool) (buf : Bytes) (o : Reading) (r : ScanResult)
    → r ≡ status o
    → Sized o 0
    → Written o buf
    → Agrees write buf (stopped r buf) o
stopped-Agrees write buf o r e h k = record {
  result = e;
  width = refl;
  size = h;
  written = λ _. k;
  kept = λ _. refl;
}

pub trailer-Agrees :
    (write : Bool) (buf : Bytes) (read w decoded : ℕ) (s out : Bytes) (t : Trailer)
    → Ready write buf read w decoded s out
    → Agrees write buf (end_walk buf decoded t) (behind_trailer out t)
unfolding end_walk behind_trailer
trailer-Agrees write buf read w decoded s out trailer_wait h =
    stopped-Agrees write buf waiting incomplete refl tt tt
trailer-Agrees write buf read w decoded s out trailer_bad h =
    stopped-Agrees write buf wrong error_bad refl tt tt
trailer-Agrees write buf read w decoded s out (trailer_done rest) h = record {
  result = refl;
  width = refl;
  size = omega (arith, h.small, h.read_le, h.counted, h.behind);
  written = λ e. let (p, q) = h.placed e in rw (← p) q;
  kept = λ _. refl;
}

-- The buffer and the positions after the data of a chunk of `n` bytes at `r`.
module _ (buf : Bytes) (read w decoded n r : ℕ) (s out rest : Bytes) (n_le : n ≤ length rest)
    (r_le : read ≤ r) (r_eq : r + length rest ≡ length buf) (at_r : drop r buf ≡ rest) where
  pub record Next (write : Bool) (buf' : Bytes) (w' : ℕ) : Type 0 where
    pub width : length buf' ≡ length buf
    pub unread : drop (r + n) buf' ≡ drop n rest
    pub kept : write ≡ false → buf' ≡ buf
    pub placed :
        write ≡ true → (w' ≡ length (out ++ take n rest)) × (take w' buf' ≡ out ++ take n rest)

  dropped : drop (r + n) buf ≡ drop n rest
  dropped = sym (drop-drop n r buf) ∙ ap (drop n) at_r

  pub end_chunk-Next :
      (write : Bool)
      → Ready write buf read w decoded s out
      → Next write (move_down write buf w r n) (advance write w n)
  end_chunk-Next false h =
      unfold move_down in
      record { width = refl; unread = dropped; kept = λ _. refl; placed = λ e. cc }
  end_chunk-Next true h =
      let (at_w, told) = h.placed refl in
      let m = move_down-Moved buf w r n (omega (arith, h.behind)) (omega arith) in
      let fits : (w + n) % uint ≡ w + n = omega (arith, h.small, h.behind) in
      record {
        width = m.width;
        unread = m.unread ∙ dropped;
        kept = λ e. cc;
        placed = λ _. (
          fits ∙ omega (arith, length-append out (take n rest), length-take n rest),
          ap (λ k. take k (move_down true buf w r n)) fits
              ∙ m.written
              ∙ ap (λ b. b ++ take n (drop r buf)) told
              ∙ ap (λ b. out ++ take n b) at_r,
        );
      }
