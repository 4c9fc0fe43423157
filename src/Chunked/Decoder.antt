-- ===== src/Chunked/Decoder.antt =====
-- What a chunked body means, over the bytes not yet read: the payload is collected in a list of
-- its own, with no buffer and no positions.
use ammar_server.Base.{
  ℕ, zero, suc, ◌+◌, [], ◌++◌, Bytes, length, take, drop, ltb, ◌==◌, if◌then◌else◌,
}
use ammar_server.Chunked.{
  Eol, eol_ok, eol_wait, eol_bad, eol_none, take_eol, SizeLine, need_more, malformed, too_big,
  size_line, Trailer, trailer_wait, trailer_bad, trailer_done, parse_chunk_size_line,
  parse_trailer_section, ScanResult, incomplete, complete, error_bad, error_too_big, out_of_fuel,
}

pub data Reading : Type 0 where
  waiting wrong oversized unfinished : Reading
  payload : Bytes → Reading

abbrev pub status : Reading → ScanResult
status waiting = incomplete
status wrong = error_bad
status oversized = error_too_big
status unfinished = out_of_fuel
status (payload p) = complete

unfoldable pub behind_trailer : Bytes → Trailer → Reading
behind_trailer out trailer_wait = waiting
behind_trailer out trailer_bad = wrong
behind_trailer out (trailer_done rest) = payload out

unfoldable pub behind_data : (Bytes → Reading) → Eol → Reading
behind_data next (eol_ok rest) = next rest
behind_data next eol_wait = waiting
behind_data next eol_bad = wrong
behind_data next eol_none = wrong

unfoldable pub behind_size : (Bytes → Bytes → Reading) → Bytes → SizeLine → Reading
behind_size next out need_more = waiting
behind_size next out malformed = wrong
behind_size next out too_big = oversized
behind_size next out (size_line size rest) =
    if size == 0
    then behind_trailer out (parse_trailer_section rest)
    else if ltb (length rest) size
    then waiting
    else behind_data (λ r. next r (out ++ take size rest)) (take_eol (drop size rest))

-- `out` is the payload read so far.
unfoldable pub decode : ℕ → ℕ → Bytes → Bytes → Reading
decode zero max s out = unfinished
decode (suc fuel) max s out =
    behind_size (λ r o. decode fuel max r o) out (parse_chunk_size_line s max (length out))

-- A round for each byte, as in the walker.
unfoldable pub meaning : Bytes → ℕ → Reading
meaning body max = decode (length body + 1) max body []
