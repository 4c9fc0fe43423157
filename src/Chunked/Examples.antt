-- ===== src/Chunked/Examples.antt =====
-- Runs of the walker of src/AmmServerlib/header_analysis/chunked_transfer.c on small bodies.
use mathlib.Core.List.{List, [], ◌∷◌, ◌++◌}
use ammar_server.Base.{true, false, ◌≡◌, refl, Bytes, length, take, arith}
use ammar_server.Base.Text.{codes}
use ammar_server.Chunked.{
  chunked_body_scan, chunked_body_decode, walk_chunked_body, walk, on_size_line, chunk_body,
  end_chunk, end_walk, move_down, memmove, parse_trailer_section, trailer_lines,
  parse_chunk_size_line, size_line_of, end_size_line, limit_size, take_eol, skip_line, scan_digits,
  hex_value, complete, error_bad,
}
use ammar_server.Chunked.Decoder.{meaning}
use ammar_server.Chunked.InPlace.{Agrees}
use ammar_server.Chunked.Walker.{walk-meaning}
use ammar_server.Chunked.Stable.{scan-append}
use ammar_server.Chunked.Bounds.{Ends, walk-Ends}
use ammar_server.Chunked.Frames.{Chunk, AreChunks, frames, contents, hex_number}
use ammar_server.Chunked.Boundary.{last_chunk, decode-encode, scan_between_chunks}

abbrev body : Bytes
body = codes "5;x\r\nhello\r\n2\n, \r\n0\r\nA: b\r\n\r\n"

abbrev more : Bytes
more = codes "GET /"

abbrev two_chunks : List Chunk
two_chunks =
    record { size_text = codes "5"; content = codes "hello" }
    ∷ record { size_text = codes "0b"; content = codes ", big world" }
    ∷ []

two_chunks-AreChunks : AreChunks two_chunks
unfolding hex_number hex_value
two_chunks-AreChunks = (
  record { spelled = refl; has_text = omega arith; has_content = omega arith },
  (record { spelled = refl; has_text = omega arith; has_content = omega arith }, tt),
)

body_done : (chunked_body_scan body 100).result ≡ complete
unfolding chunked_body_scan walk_chunked_body walk on_size_line chunk_body end_chunk end_walk
    move_down memmove parse_trailer_section trailer_lines parse_chunk_size_line size_line_of
    end_size_line limit_size take_eol skip_line scan_digits hex_value
body_done = refl

decoded : take 7 (chunked_body_decode body 100).buffer ≡ codes "hello, "
unfolding chunked_body_decode walk_chunked_body walk on_size_line chunk_body end_chunk end_walk
    move_down memmove parse_trailer_section trailer_lines parse_chunk_size_line size_line_of
    end_size_line limit_size take_eol skip_line scan_digits hex_value
decoded = refl

walk-meaning_example :
    Agrees true body (chunked_body_decode body 100) (meaning body 100)
    × Agrees false body (chunked_body_scan body 100) (meaning body 100)
walk-meaning_example = walk-meaning body 100 (omega arith)

walk-Ends_example :
    Ends 100 (length body) (chunked_body_scan body 100)
    × Ends 100 (length body) (chunked_body_decode body 100)
walk-Ends_example = walk-Ends body 100 (omega arith)

scan-append_example :
    ((chunked_body_scan (body ++ more) 100).result ≡ complete)
    × ((chunked_body_scan (body ++ more) 100).decoded_size
        ≡ (chunked_body_scan body 100).decoded_size)
    × (take
          (chunked_body_scan body 100).decoded_size
          (chunked_body_decode (body ++ more) 100).buffer
        ≡ take (chunked_body_scan body 100).decoded_size (chunked_body_decode body 100).buffer)
scan-append_example = scan-append body more 100 (omega arith) body_done

decode-encode_example :
    ((chunked_body_scan (frames two_chunks last_chunk) 100).result ≡ complete)
    × ((chunked_body_decode (frames two_chunks last_chunk) 100).result ≡ complete)
    × ((chunked_body_decode (frames two_chunks last_chunk) 100).decoded_size
        ≡ length (contents two_chunks))
    × (take
          (length (contents two_chunks))
          (chunked_body_decode (frames two_chunks last_chunk) 100).buffer
        ≡ contents two_chunks)
decode-encode_example =
    decode-encode two_chunks 100 two_chunks-AreChunks (omega arith) (omega arith)

scan_between_chunks_example : (chunked_body_scan (frames two_chunks []) 100).result ≡ error_bad
scan_between_chunks_example =
    scan_between_chunks two_chunks 100 two_chunks-AreChunks (omega arith) (omega arith)
