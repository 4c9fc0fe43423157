-- ===== src/Chunked/Bounds.antt =====
-- The fuel and the decoded size of the walker of src/AmmServerlib/header_analysis/chunked_transfer.c.
use ammar_server.Base.{
  ℕ, zero, suc, ◌+◌, ◌≤◌, ◌<◌, ◌≡◌, ◌≢◌, refl, Bool, true, false, [], ◌++◌, inl, inr, arith, Bytes,
  length, drop, length-append, ◌==◌, ltb, Bool-cases, take, length-take, length-drop,
}
use ammar_server.Chunked.{
  Eol, eol_ok, eol_wait, eol_bad, eol_none, take_eol, SizeLine, need_more, malformed, too_big,
  size_line, Trailer, trailer_wait, trailer_bad, trailer_done, parse_chunk_size_line,
  parse_trailer_section, complete, out_of_fuel, uint, Walk, chunked_body_scan, chunked_body_decode,
}
use ammar_server.Chunked.Rest.{Leaves-length, take_eol-Leaves, size_line-Leaves}
use ammar_server.Chunked.Decoder.{
  Reading, waiting, wrong, oversized, unfinished, payload, behind_trailer, behind_data, behind_size,
  decode, meaning,
}
use ammar_server.Chunked.InPlace.{Agrees}
use ammar_server.Chunked.Walker.{walk-meaning}

-- One rule for the rounds: what holds of every reading but `payload` and of the payload so far at
-- a complete trailer, and is kept by a round, holds of the result.
module _ (max : ℕ) where
  abbrev pub Fine : ℕ → Reading → Type 0
  Fine room (payload p) = (length p ≤ max) × (length p ≤ room)
  Fine room unfinished = ⊥
  Fine room waiting = Unit
  Fine room wrong = Unit
  Fine room oversized = Unit

  trailer-Fine :
      (room : ℕ) (out : Bytes) (t : Trailer)
      → length out ≤ max
      → length out ≤ room
      → Fine room (behind_trailer out t)
  unfolding behind_trailer
  trailer-Fine room out trailer_wait h k = tt
  trailer-Fine room out trailer_bad h k = tt
  trailer-Fine room out (trailer_done rest) h k = (h, k)

  module _ (room : ℕ) (next : Bytes → Bytes → Reading) (s out : Bytes) (within : length out ≤ max)
      (inside : length out + length s ≤ room)
      (loop : (r o : Bytes)
        → length r < length s
        → length o ≤ max
        → length o + length r ≤ room
        → Fine room (next r o)) where
    eol-Fine :
        (n : ℕ) (rest : Bytes)
        → n ≤ length rest
        → length rest < length s
        → length out + n ≤ max
        → (e : Eol) → take_eol (drop n rest) ≡ e
        → Fine room (behind_data (λ r. next r (out ++ take n rest)) e)
    unfolding behind_data
    eol-Fine n rest h k m eol_wait e = tt
    eol-Fine n rest h k m eol_bad e = tt
    eol-Fine n rest h k m eol_none e = tt
    eol-Fine n rest h k m (eol_ok r) e =
        let shorter = Leaves-length 1 (drop n rest) r (take_eol-Leaves (drop n rest) r e) in
        let size = length-append out (take n rest) in
        let taken = length-take n rest in
        let remain = length-drop n rest in
        loop r (out ++ take n rest) (omega arith) (omega arith) (omega arith)

    line-Fine :
        (line : SizeLine)
        → parse_chunk_size_line s max (length out) ≡ line
        → Fine room (behind_size next out line)
    unfolding behind_size
    line-Fine need_more e = tt
    line-Fine malformed e = tt
    line-Fine too_big e = tt
    line-Fine (size_line n rest) e = elim (Bool-cases (n == 0)) [
      | inl z ↦ rw z (trailer-Fine room out (parse_trailer_section rest) within (omega arith))
      | inr nz ↦ elim (Bool-cases (ltb (length rest) n)) [
        | inl short ↦ rw (nz, short) tt
        | inr enough ↦
            let (left, _, fits) = size_line-Leaves s max (length out) n rest e in
            let shorter = Leaves-length 1 s rest left in
            rw (nz, enough)
              (eol-Fine n rest (ground arith) (omega arith) fits (take_eol (drop n rest)) refl)
      ]
    ]

  decode-Fine :
      (fuel room : ℕ) (s out : Bytes)
      → length s < fuel
      → length out ≤ max
      → length out + length s ≤ room
      → Fine room (decode fuel max s out)
  unfolding decode
  decode-Fine zero room s out f h k = absurd (omega arith)
  decode-Fine (suc fuel) room s out f h k =
      line-Fine room _ s out h k (λ r o p q t. decode-Fine fuel room r o (omega arith) q t)
        (parse_chunk_size_line s max (length out)) refl

pub meaning-Fine : (body : Bytes) (max : ℕ) → Fine max (length body) (meaning body max)
unfolding meaning
meaning-Fine body max =
    decode-Fine max (length body + 1) (length body) body [] (omega arith) (omega arith)
      (omega arith)

-- A finished walk: it did not run out of fuel, and a complete one stays within both bounds.
pub record Ends (max room : ℕ) (w : Walk) : Type 0 where
  pub ends : w.result ≢ out_of_fuel
  pub in_limit : w.result ≡ complete → w.decoded_size ≤ max
  pub in_body : w.result ≡ complete → w.decoded_size ≤ room

Agrees-Ends :
    (write : Bool) (buf : Bytes) (w : Walk) (o : Reading) (max room : ℕ)
    → Agrees write buf w o
    → Fine max room o
    → Ends max room w
Agrees-Ends write buf w waiting max room a f = record {
  ends = cc (a.result);
  in_limit = λ e. absurd (cc (a.result));
  in_body = λ e. absurd (cc (a.result));
}
Agrees-Ends write buf w wrong max room a f = record {
  ends = cc (a.result);
  in_limit = λ e. absurd (cc (a.result));
  in_body = λ e. absurd (cc (a.result));
}
Agrees-Ends write buf w oversized max room a f = record {
  ends = cc (a.result);
  in_limit = λ e. absurd (cc (a.result));
  in_body = λ e. absurd (cc (a.result));
}
Agrees-Ends write buf w unfinished max room a f = absurd f
Agrees-Ends write buf w (payload p) max room a f = record {
  ends = cc (a.result);
  in_limit = λ e. omega (arith, a.size, f.0);
  in_body = λ e. omega (arith, a.size, f.1);
}

-- For every body whose length fits in an `unsigned int` the loop of the scan and that of the
-- decoding end within a round for each byte and one more, and where they say that the body is
-- complete the decoded size is at most the limit and at most the length of the body.
pub walk-Ends :
    (body : Bytes) (max : ℕ)
    → length body < uint
    → Ends max (length body) (chunked_body_scan body max)
      × Ends max (length body) (chunked_body_decode body max)
walk-Ends body max h =
    let (d, s) = walk-meaning body max h in
    let f = meaning-Fine body max in
    (
      Agrees-Ends false body _ _ max (length body) s f,
      Agrees-Ends true body _ _ max (length body) d f,
    )
