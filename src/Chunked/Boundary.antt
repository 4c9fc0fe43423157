-- ===== src/Chunked/Boundary.antt =====
-- Framed chunks, decoded at the end of the body and scanned between two chunks.
use ammar_server.Base.{
  ℕ, suc, ◌+◌, ◌-◌, ◌≤◌, ◌<◌, ◌≡◌, refl, ap, ◌∙◌, List, [], ◌∷◌, arith, Bytes, length, take,
}
use ammar_server.Chunked.{
  hex_value, scan_digits, skip_line, limit_size, end_size_line, size_line_of, take_eol,
  parse_chunk_size_line, parse_trailer_section, complete, error_bad, uint, chunked_body_scan,
  chunked_body_decode,
}
use ammar_server.Chunked.Decoder.{
  wrong, payload, status, behind_trailer, behind_size, decode, meaning,
}
use ammar_server.Chunked.Walker.{walk-meaning}
use ammar_server.Chunked.Frames.{Chunk, AreChunks, frames, contents, decode-frames, length-frames}

-- `0 CRLF CRLF`
abbrev pub last_chunk : Bytes
last_chunk = b'0' ∷ 13 ∷ 10 ∷ 13 ∷ 10 ∷ []

decode-last_chunk :
    (fuel max : ℕ) (out : Bytes)
    → length out ≤ max
    → decode (suc fuel) max last_chunk out ≡ payload out
unfolding decode behind_size parse_chunk_size_line size_line_of scan_digits hex_value skip_line
    take_eol end_size_line limit_size parse_trailer_section behind_trailer
decode-last_chunk fuel max out h = ground arith

decode-nothing : (fuel max : ℕ) (out : Bytes) → decode (suc fuel) max [] out ≡ wrong
unfolding decode behind_size parse_chunk_size_line size_line_of scan_digits
decode-nothing fuel max out = refl

module _ (cs : List Chunk) (max : ℕ) (chunks : AreChunks cs)
    (fits : length (contents cs) ≤ max) where
  meaning-frames :
      (rest : Bytes)
      → length (frames cs rest) < uint
      → (fuel : ℕ) × (meaning (frames cs rest) max ≡ decode (suc fuel) max rest (contents cs))
  unfolding meaning
  meaning-frames rest small =
      let size = length-frames cs rest in
      let fuel = length (frames cs rest) - length cs in
      let e : length (frames cs rest) + 1 ≡ length cs + suc fuel = omega arith in
      (fuel, rw e (decode-frames cs (suc fuel) max rest [] chunks (omega arith) (omega arith)))

  -- For chunks whose texts spell the lengths of their contents in hexadecimal, with a total within
  -- the limit and a framed length that fits in an `unsigned int`: scanning the framed chunks with
  -- the last chunk behind them gives `complete`, and so does decoding them in place, which puts the
  -- contents in order at the front of the buffer, with their length for the decoded size.
  pub decode-encode :
      length (frames cs last_chunk) < uint
      → ((chunked_body_scan (frames cs last_chunk) max).result ≡ complete)
        × ((chunked_body_decode (frames cs last_chunk) max).result ≡ complete)
        × ((chunked_body_decode (frames cs last_chunk) max).decoded_size ≡ length (contents cs))
        × (take (length (contents cs)) (chunked_body_decode (frames cs last_chunk) max).buffer
            ≡ contents cs)
  decode-encode small =
      let (fuel, m) = meaning-frames last_chunk small in
      let e = m ∙ decode-last_chunk fuel max (contents cs) fits in
      let (d, s) = walk-meaning (frames cs last_chunk) max small in
      (s.result ∙ ap status e, d.result ∙ ap status e, rw e at d.size, rw e at (d.written refl))

  -- For chunks whose texts spell the lengths of their contents in hexadecimal, with a total within
  -- the limit and a framed length that fits in an `unsigned int`: when exactly their frames have
  -- arrived, without the last chunk, the scan says that the body is malformed, not that more data is
  -- needed.
  pub scan_between_chunks :
      length (frames cs []) < uint → (chunked_body_scan (frames cs []) max).result ≡ error_bad
  scan_between_chunks small =
      let (fuel, m) = meaning-frames [] small in
      (walk-meaning (frames cs []) max small).1.result
      ∙ ap status (m ∙ decode-nothing fuel max (contents cs))
