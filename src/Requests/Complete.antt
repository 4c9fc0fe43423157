-- ===== src/Requests/Complete.antt =====
-- `HTTPRequestIsComplete` of src/AmmServerlib/header_analysis/generic_header_tools.c.
use ammar_server.Base.{
  ℕ, ◌+◌, ◌%◌, ◌≤◌, ◌<◌, ◌≡◌, refl, sym, ap, ◌∙◌, Bool, true, false, ◌++◌, Bytes, length, drop, ltb,
  leb, ◌==◌, inl, inr, arith, Bool-cases, length-append, length-drop, drop_append_le,
}
use ammar_server.Chunked.{
  uint, ScanResult, complete, incomplete, error_bad, error_too_big, out_of_fuel, chunked_body_scan,
}
use ammar_server.Chunked.Stable.{scan-append}
use ammar_server.Requests.{
  Header, Settings, ends_at, fail_with, record_head_size, after_scan, chunked_is_complete,
  blank_line_is_there, sized_is_complete, http_request_is_complete, scan_for_header_end_from_end,
  found_from_end,
}
use ammar_server.Requests.HeaderEnd.{found_from_end-IsLastEnd}

-- More bytes of the same request have arrived.
abbrev pub receive : Header → Bytes → Header
receive header more = record header { header_raw = header.header_raw ++ more }

-- The header of a POST request has arrived, and more than that.
pub record IsPost (chunked : Bool) (header : Header) : Type 0 where
  pub post : header.is_post ≡ true
  pub framed : header.chunked ≡ chunked
  pub head : 0 < header.header_raw_head_size
  pub body : header.header_raw_head_size + 1 < length header.header_raw
  pub small : length header.header_raw < uint

head_size_stays :
    (header : Header) → 0 < header.header_raw_head_size → record_head_size header ≡ header
unfolding record_head_size
head_size_stays header h = let z : (header.header_raw_head_size == 0) ≡ false = ground arith in rw z

pub chunked_complete-after_scan :
    (settings : Settings) (header : Header)
    → IsPost true header
    → http_request_is_complete settings header
      ≡ after_scan settings header
          (chunked_body_scan
            (drop (header.header_raw_head_size + 1) header.header_raw)
            settings.max_post_transaction_size).result
unfolding http_request_is_complete
chunked_complete-after_scan settings header p =
    let z : (header.header_raw_head_size == 0) ≡ false = let h = p.head in ground arith in
    let w : (header.header_raw_head_size + 1) % uint ≡ header.header_raw_head_size + 1 =
      omega (arith, p.body, p.small) in
    let l : leb (length header.header_raw) (header.header_raw_head_size + 1) ≡ false =
      let h = p.body in ground arith in
    let post = p.post in
    let framed = p.framed in
    let start : http_request_is_complete settings header
        ≡ chunked_is_complete settings (record_head_size header) =
      rw (post, framed) in
    start ∙ rw (head_size_stays header p.head) (unfold chunked_is_complete in rw (z, w, l))

after_scan-complete :
    (settings : Settings) (header : Header) (result : ScanResult)
    → header.failed ≡ false
    → after_scan settings header result ≡ (header, true)
    → result ≡ complete
unfolding after_scan fail_with
after_scan-complete settings header complete f h = refl
after_scan-complete settings header error_bad f h = absurd (cc (f, ap (λ q. q.0.failed) h))
after_scan-complete settings header error_too_big f h = absurd (cc (f, ap (λ q. q.0.failed) h))
after_scan-complete settings header out_of_fuel f h = absurd (cc (ap (λ q. q.1) h))
after_scan-complete settings header incomplete f h =
    ground (arith, f, ap (λ q. q.0.failed) h, ap (λ q. q.1) h)

-- A chunked POST request whose header and some byte behind it have arrived, and that is complete
-- and has not failed, stays complete whatever bytes arrive behind it, if all of them fit in an
-- `unsigned int`.
pub http_request_is_complete-receive :
    (settings : Settings) (header : Header) (more : Bytes)
    → IsPost true header
    → length header.header_raw + length more < uint
    → header.failed ≡ false
    → http_request_is_complete settings header ≡ (header, true)
    → http_request_is_complete settings (receive header more) ≡ (receive header more, true)
http_request_is_complete-receive settings header more p fits f h =
    let n = header.header_raw_head_size + 1 in
    let max = settings.max_post_transaction_size in
    let body = drop n header.header_raw in
    let width : length (header.header_raw ++ more) ≡ length header.header_raw + length more =
      length-append header.header_raw more in
    let p' : IsPost true (receive header more) = record {
      post = p.post;
      framed = p.framed;
      head = p.head;
      body = omega (arith, width, p.body);
      small = omega (arith, width, fits);
    } in
    let done : (chunked_body_scan body max).result ≡ complete =
      after_scan-complete settings header _ f
        (sym (chunked_complete-after_scan settings header p) ∙ h) in
    let split : drop n (header.header_raw ++ more) ≡ body ++ more =
      drop_append_le n header.header_raw more (omega (arith, p.body)) in
    let small : length (body ++ more) < uint =
      omega (arith, length-append body more, length-drop n header.header_raw, fits) in
    let still : (chunked_body_scan (drop n (header.header_raw ++ more)) max).result ≡ complete =
      rw split (scan-append body more max small done).0 in
    chunked_complete-after_scan settings (receive header more) p'
    ∙ rw still (unfold after_scan in refl)

-- The bytes of a POST request with a length: its header, to the last new line, and its body.
abbrev pub total_size : Header → ℕ
total_size header = header.content_length + (header.header_raw_head_size + 1)

abbrev pub awaits : Header → Header
awaits header = record header { header_raw_requested_size = total_size header }

sized_shape :
    (settings : Settings) (header : Header)
    → header.is_post ≡ true
    → header.chunked ≡ false
    → 0 < header.header_raw_head_size
    → http_request_is_complete settings header ≡ sized_is_complete settings header
unfolding http_request_is_complete
sized_shape settings header post framed h =
    let start : http_request_is_complete settings header
        ≡ sized_is_complete settings (record_head_size header) =
      rw (post, framed) in
    start ∙ ap (sized_is_complete settings) (head_size_stays header h)

-- For a POST request without chunks whose header has been found, where the length in the header is
-- within the limit and the whole size fits in an `unsigned int`: while bytes are missing it is not
-- complete and the whole size is requested.
pub http_request_is_complete-awaits :
    (settings : Settings) (header : Header)
    → header.is_post ≡ true
    → header.chunked ≡ false
    → 0 < header.header_raw_head_size
    → header.content_length ≤ settings.max_post_transaction_size
    → total_size header < uint
    → length header.header_raw < total_size header
    → http_request_is_complete settings header ≡ (awaits header, false)
http_request_is_complete-awaits settings header post framed h max fits short =
    let z : (header.header_raw_head_size == 0) ≡ false = ground arith in
    let m : ltb settings.max_post_transaction_size header.content_length ≡ false = ground arith in
    let w : total_size header % uint ≡ total_size header = omega arith in
    let l : ltb (length header.header_raw) (total_size header) ≡ true = ground arith in
    sized_shape settings header post framed h ∙ unfold sized_is_complete in rw (z, m, w, l)

-- For a POST request without chunks whose header has been found, where the length in the header is
-- within the limit, the whole size fits in an `unsigned int`, at least four bytes have arrived and
-- two new lines end where the header does: as soon as no byte is missing it is complete.
pub http_request_is_complete-sized :
    (settings : Settings) (header : Header)
    → header.is_post ≡ true
    → header.chunked ≡ false
    → 2 ≤ header.header_raw_head_size
    → header.content_length ≤ settings.max_post_transaction_size
    → total_size header < uint
    → 4 ≤ length header.header_raw
    → ends_at header.header_raw header.header_raw_head_size ≡ true
    → total_size header ≤ length header.header_raw
    → http_request_is_complete settings header ≡ (header, true)
unfolding scan_for_header_end_from_end
http_request_is_complete-sized settings header post framed h max fits four ends whole =
    let z : (header.header_raw_head_size == 0) ≡ false = ground arith in
    let m : ltb settings.max_post_transaction_size header.content_length ≡ false = ground arith in
    let w : total_size header % uint ≡ total_size header = omega arith in
    let l : ltb (length header.header_raw) (total_size header) ≡ false = ground arith in
    let there : (found_from_end header.header_raw 0 == 0) ≡ false =
      elim (found_from_end-IsLastEnd header.header_raw 0 four) [
        | inl (_, none_at) ↦
            let all = none_at header.header_raw_head_size h (omega arith) in absurd (cc (all, ends))
        | inr (two, _, _, _) ↦ ground arith
      ] in
    sized_shape settings header post framed (omega arith)
    ∙ (elim (Bool-cases (leb (length header.header_raw) (total_size header))) [
      | inl exact ↦ unfold sized_is_complete in rw (z, m, w, l, exact)
      | inr more ↦
          unfold sized_is_complete in rw (z, m, w, l, more) (unfold blank_line_is_there in rw there)
    ])
