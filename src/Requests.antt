-- ===== src/Requests.antt =====
-- src/AmmServerlib/header_analysis/generic_header_tools.c: where the header of a request ends, when a
-- request has arrived whole, and how its buffer grows. The received bytes are `header_raw`; its
-- length is `headerRAWSize`. Calls that only log are left out.
pub mod HeaderEnd
pub mod BlankLine
pub mod Complete
pub mod Decision
pub mod Grow
pub mod Cap
mod Examples
use ammar_server.Base.{
  ℕ, zero, suc, ◌+◌, ◌-◌, ◌*◌, ◌%◌, ◌^◌, Bool, true, false, not, ◌&&◌, ◌||◌, List, [], ◌∷◌, Option,
  none, some, Bytes, length, get_or, drop, ltb, leb, ◌==◌, if◌then◌else◌,
}
use ammar_server.Base.Text.{codes}
use ammar_server.Chunked.{
  uint, ScanResult, complete, incomplete, error_bad, error_too_big, out_of_fuel, chunked_body_scan,
}

-- The request starts with the letters of a method.
unfoldable pub starts_with : Bytes → Bytes → Bool
starts_with [] request = true
starts_with (c ∷ cs) [] = false
starts_with (c ∷ cs) (r ∷ request) = c == r && starts_with cs request

unfoldable pub http_header_is_head : Bytes → Bool
unfolding starts_with
http_header_is_head request =
    if ltb (length request) 4 then false else starts_with (codes "HEAD") request

unfoldable pub http_header_is_post : Bytes → Bool
unfolding starts_with
http_header_is_post request =
    if ltb (length request) 4 then false else starts_with (codes "POST") request

unfoldable pub http_header_is_get : Bytes → Bool
unfolding starts_with
http_header_is_get request =
    if ltb (length request) 3 then false else starts_with (codes "GET") request

abbrev pub cr : ℕ
cr = 13

abbrev pub lf : ℕ
lf = 10

-- The tests of one round of the two scans: two new lines end at `i`.
unfoldable pub ends_at : Bytes → ℕ → Bool
ends_at request i =
    get_or request i 0 == lf
    && ((leb 1 i && get_or request (i - 1) 0 == lf)
        || (leb 3 i
            && get_or request (i - 3) 0 == cr
            && get_or request (i - 2) 0 == lf
            && get_or request (i - 1) 0 == cr))

unfoldable pub scan_from_start : Bytes → ℕ → ℕ → ℕ
unfolding ends_at
scan_from_start request zero i = 0
scan_from_start request (suc left) i =
    let rest = scan_from_start request left (i + 1) in if ends_at request i then i else rest

-- What the scan from the start returns.
unfoldable pub found_from_start : Bytes → ℕ
unfolding scan_from_start
found_from_start request =
    if ltb (length request) 4 then 0 else scan_from_start request (length request - 3) 3

-- What is returned, and `*thisScanResult`, which is written only when something is found.
abbrev pub reported : ℕ → ℕ → ℕ × ℕ
reported this_scan_result found = (found, if found == 0 then this_scan_result else found)

-- `HTTPHeaderScanForHeaderEndFromStart`; 0 is not found.
unfoldable pub scan_for_header_end_from_start : Bytes → ℕ → ℕ × ℕ
unfolding found_from_start
scan_for_header_end_from_start request this_scan_result =
    reported this_scan_result (found_from_start request)

unfoldable pub scan_from_end : Bytes → ℕ → ℕ → ℕ
unfolding ends_at
scan_from_end request dont_search_before zero = 0
scan_from_end request dont_search_before (suc k) =
    let rest = scan_from_end request dont_search_before k in
    if ltb (dont_search_before + 1) (suc k)
    then if ends_at request (suc k) then suc k else rest
    else 0

-- What the scan from the end returns.
unfoldable pub found_from_end : Bytes → ℕ → ℕ
unfolding scan_from_end
found_from_end request dont_search_before =
    if ltb (length request) 4
    then 0
    else scan_from_end request dont_search_before (length request - 1)

-- `HTTPHeaderScanForHeaderEndFromEnd`
unfoldable pub scan_for_header_end_from_end : Bytes → ℕ → ℕ → ℕ × ℕ
unfolding found_from_end
scan_for_header_end_from_end request dont_search_before this_scan_result =
    reported this_scan_result (found_from_end request dont_search_before)

-- The fields of `struct HTTPHeader` that these functions use; `is_post` is `requestType==POST`, and
-- `has_header_raw` is `headerRAW!=0`.
pub record Header : Type 0 where
  pub is_post : Bool
  pub chunked : Bool
  pub has_header_raw : Bool
  pub header_raw : Bytes
  pub max_header_raw_size : ℕ
  pub header_raw_head_size : ℕ
  pub header_raw_requested_size : ℕ
  pub content_length : ℕ
  pub failed : Bool
  pub error_response_code : ℕ
  pub keepalive : Bool
  pub dumped_to_file : Bool

pub record Settings : Type 0 where
  pub max_post_transaction_size : ℕ
  pub enable_post : Bool

-- `CapRequestLengthToHeaderEnd`
unfoldable pub cap_request_length_to_header_end : Header → ℕ → ℕ → ℕ
cap_request_length_to_header_end output start_offset request_length =
    let header_end_absolute = (output.header_raw_head_size + 1) % uint in
    if not output.chunked || output.header_raw_head_size == 0
    then request_length
    else if leb header_end_absolute start_offset
    then 0
    else if ltb (header_end_absolute - start_offset) request_length
    then header_end_absolute - start_offset
    else request_length

unfoldable pub fail_with : Header → ℕ → Header
fail_with header code = record header {
  failed = true;
  error_response_code = code;
  keepalive = false;
}

-- The end of the header is recorded once, by the scan of the pristine buffer.
unfoldable pub record_head_size : Header → Header
record_head_size header =
    if header.header_raw_head_size == 0
    then record header {
      header_raw_head_size =
          (scan_for_header_end_from_start header.header_raw header.header_raw_head_size).1;
    }
    else header

-- `HTTPRequestIsComplete` behind the scan of a chunked body. No scan is `out_of_fuel`.
unfoldable pub after_scan : Settings → Header → ScanResult → Header × Bool
unfolding fail_with
after_scan settings header complete = (header, true)
after_scan settings header error_bad = (fail_with header 400, true)
after_scan settings header error_too_big = (fail_with header 413, true)
after_scan settings header out_of_fuel = (header, false)
after_scan settings header incomplete =
    if leb header.max_header_raw_size (length header.header_raw)
      && (not settings.enable_post
          || leb settings.max_post_transaction_size header.max_header_raw_size)
    then (fail_with header 413, true)
    else (header, false)

unfoldable pub chunked_is_complete : Settings → Header → Header × Bool
unfolding after_scan
chunked_is_complete settings header =
    let header_length = (header.header_raw_head_size + 1) % uint in
    if header.header_raw_head_size == 0
    then (header, false)
    else if leb (length header.header_raw) header_length
    then (header, false)
    else after_scan settings header
        (chunked_body_scan (drop header_length header.header_raw)
          settings.max_post_transaction_size).result

-- The end of a request without a body: a blank line, looked for from the end.
unfoldable pub blank_line_is_there : Header → Header × Bool
blank_line_is_there header =
    let (found, this_scan_result) = scan_for_header_end_from_end header.header_raw 0 0 in
    (header, not (found == 0))

unfoldable pub sized_is_complete : Settings → Header → Header × Bool
unfolding fail_with blank_line_is_there
sized_is_complete settings header =
    let total = (header.content_length + (header.header_raw_head_size + 1)) % uint in
    if header.header_raw_head_size == 0
    then (header, false)
    else if ltb settings.max_post_transaction_size header.content_length
    then (fail_with header 413, true)
    else if ltb (length header.header_raw) total
    then (record header { header_raw_requested_size = total }, false)
    else if leb (length header.header_raw) total
    then (header, true)
    else blank_line_is_there header

-- `HTTPRequestIsComplete`, where `MASTER_ENABLE_POST` is 1 as in `server_configuration.h`.
unfoldable pub http_request_is_complete : Settings → Header → Header × Bool
unfolding record_head_size chunked_is_complete sized_is_complete blank_line_is_there
http_request_is_complete settings header =
    if header.is_post && header.chunked
    then chunked_is_complete settings (record_head_size header)
    else if header.is_post
    then sized_is_complete settings (record_head_size header)
    else blank_line_is_there header

-- `HTTP_POST_GROWTH_STEP_REQUEST_HEADER`
abbrev pub growth_step : ℕ
growth_step = 524288

-- The size that `growHeader` wishes for, and whether the configuration allows it.
unfoldable pub wannabe_header_size : Settings → Header → ℕ × Bool
wannabe_header_size settings header =
    if header.header_raw_requested_size == 0
    then ((header.max_header_raw_size + growth_step) % uint, true)
    else (
      header.header_raw_requested_size,
      leb header.header_raw_requested_size settings.max_post_transaction_size,
    )

-- A reallocation from the old size, and the clearing of the new part, which writes behind the buffer
-- where the new size is below the old one: `none`.
unfoldable pub reallocate : Header → ℕ → Bool → Option (Header × Bool)
reallocate header size ok =
    if not ok
    then some (record header { dumped_to_file = true }, false)
    else if ltb size header.max_header_raw_size
    then none
    else some (record header { max_header_raw_size = size }, true)

-- `growHeader`; the flag is the success of `realloc`.
unfoldable pub grow_header : Settings → Header → Bool → Option (Header × Bool)
unfolding wannabe_header_size reallocate
grow_header settings header ok =
    let (wannabe, allowed) = wannabe_header_size settings header in
    let limit = settings.max_post_transaction_size in
    if header.failed
    then some (header, false)
    else if not allowed
    then some (record header { dumped_to_file = true }, false)
    else if not header.has_header_raw
    then if ok
      then some (record header { has_header_raw = true; max_header_raw_size = wannabe }, true)
      else some (header, false)
    else if ltb header.max_header_raw_size limit
    then reallocate header (if ltb limit wannabe then limit else wannabe) ok
    else some (record header { dumped_to_file = true }, false)
