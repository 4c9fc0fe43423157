-- ===== src/Requests/Examples.antt =====
-- Small requests for src/AmmServerlib/header_analysis/generic_header_tools.c.
use ammar_server.Base.{◌≤◌, ◌≡◌, ◌↔◌, refl, true, false, ◌++◌, Bytes, some, length, drop, arith}
use ammar_server.Base.Text.{codes}
use ammar_server.Chunked.{
  chunked_body_scan, walk_chunked_body, walk, on_size_line, chunk_body, end_chunk, end_walk,
  move_down, memmove, parse_trailer_section, trailer_lines, parse_chunk_size_line, size_line_of,
  end_size_line, limit_size, take_eol, skip_line, scan_digits, hex_value,
}
use ammar_server.Chunked.Decoder.{meaning}
use ammar_server.Requests.{
  Header, Settings, ends_at, scan_for_header_end_from_start, scan_for_header_end_from_end,
  record_head_size, after_scan, chunked_is_complete, http_request_is_complete, wannabe_header_size,
  reallocate, grow_header,
}
use ammar_server.Requests.HeaderEnd.{scan_from_start_iff_scan_from_end}
use ammar_server.Requests.BlankLine.{FirstBlankLine, scan_for_header_end_from_start-FirstBlankLine}
use ammar_server.Requests.Decision.{Decides, http_request_is_complete-Decides}
use ammar_server.Requests.Complete.{
  receive, IsPost, http_request_is_complete-receive, http_request_is_complete-sized,
}
use ammar_server.Requests.Grow.{grow_header-bounds}

abbrev settings : Settings
settings = record { max_post_transaction_size = 1000000; enable_post = true }

-- A header and its blank line, 17 bytes.
abbrev blank : Bytes
blank = codes "POST /\r\nA: b\r\n\r\n"

abbrev framed_bytes : Bytes
framed_bytes = blank ++ codes "2\r\nhi\r\n0\r\n\r\n"

abbrev framed_request : Header
framed_request = record {
  is_post = true;
  chunked = true;
  has_header_raw = true;
  header_raw = framed_bytes;
  max_header_raw_size = 4096;
  header_raw_head_size = 15;
  header_raw_requested_size = 0;
  content_length = 0;
  failed = false;
  error_response_code = 0;
  keepalive = true;
  dumped_to_file = false;
}

-- The header and two of five bytes, in a buffer that they fill.
abbrev partial_request : Header
partial_request = record framed_request {
  chunked = false;
  header_raw = blank ++ codes "ab";
  max_header_raw_size = 18;
  content_length = 5;
}

abbrev whole_request : Header
whole_request = record partial_request { header_raw = blank ++ codes "abcdeGET" }

abbrev get_request : Header
get_request = record partial_request { is_post = false; header_raw = codes "GET /\n\n" }

framed_request-IsPost : IsPost true framed_request
framed_request-IsPost = record {
  post = refl;
  framed = refl;
  head = omega arith;
  body = omega arith;
  small = omega arith;
}

framed_request_done : http_request_is_complete settings framed_request ≡ (framed_request, true)
unfolding http_request_is_complete record_head_size chunked_is_complete after_scan chunked_body_scan
    walk_chunked_body walk on_size_line chunk_body end_chunk end_walk move_down memmove
    parse_trailer_section trailer_lines parse_chunk_size_line size_line_of end_size_line limit_size
    take_eol skip_line scan_digits hex_value
framed_request_done = refl

blank_ends : ends_at blank 15 ≡ true
unfolding ends_at
blank_ends = refl

http_request_is_complete-Decides_example :
    Decides settings framed_request
      (meaning (drop 16 framed_bytes) 1000000)
      (http_request_is_complete settings framed_request)
http_request_is_complete-Decides_example =
    http_request_is_complete-Decides settings framed_request framed_request-IsPost

http_request_is_complete-receive_example :
    http_request_is_complete settings (receive framed_request (codes "GET"))
    ≡ (receive framed_request (codes "GET"), true)
http_request_is_complete-receive_example =
    http_request_is_complete-receive settings framed_request (codes "GET") framed_request-IsPost
      (omega arith) refl framed_request_done

whole_request_ends : ends_at (blank ++ codes "abcdeGET") 15 ≡ true
unfolding ends_at
whole_request_ends = refl

http_request_is_complete-sized_example :
    http_request_is_complete settings whole_request ≡ (whole_request, true)
http_request_is_complete-sized_example =
    http_request_is_complete-sized settings whole_request refl refl (omega arith) (omega arith)
      (omega arith) (omega arith) whole_request_ends (omega arith)

get_open : ends_at (codes "GET /\n\n") 2 ≡ false
unfolding ends_at
get_open = refl

scan_for_header_end_from_start-FirstBlankLine_example :
    FirstBlankLine blank 3 (length blank) 0 (scan_for_header_end_from_start blank 0)
scan_for_header_end_from_start-FirstBlankLine_example =
    scan_for_header_end_from_start-FirstBlankLine blank 0

scan_from_start_iff_scan_from_end_example :
    ((scan_for_header_end_from_start (codes "GET /\n\n") 0).0 ≡ 0)
    ↔ ((scan_for_header_end_from_end (codes "GET /\n\n") 0 0).0 ≡ 0)
scan_from_start_iff_scan_from_end_example =
    scan_from_start_iff_scan_from_end (codes "GET /\n\n") 0 0 (omega arith) get_open

abbrev grown : Header
grown = record partial_request { max_header_raw_size = 524306 }

grows : grow_header settings partial_request true ≡ some (grown, true)
unfolding grow_header wannabe_header_size reallocate
grows = refl

grow_header-bounds_example : (18 ≤ 524306) × (524306 ≤ settings.max_post_transaction_size)
grow_header-bounds_example = grow_header-bounds settings partial_request true grown refl grows
