-- ===== src/Requests/Decision.antt =====
-- What `HTTPRequestIsComplete` of src/AmmServerlib/header_analysis/generic_header_tools.c decides on a
-- chunked request, by what its body means.
use ammar_server.Base.{
  ℕ, ◌+◌, ◌<◌, ◌≡◌, ◌≢◌, refl, sym, ap, ◌∙◌, Bool, true, false, not, ◌&&◌, ◌||◌, Bytes, length,
  drop, leb, inl, inr, ◌⊎◌, arith, Bool-cases, length-drop,
}
use mathlib.Core.Path.{subst}
use ammar_server.Chunked.{uint}
use ammar_server.Chunked.Decoder.{
  Reading, waiting, wrong, oversized, unfinished, payload, status, meaning,
}
use ammar_server.Chunked.Bounds.{Fine, meaning-Fine}
use ammar_server.Chunked.Walker.{walk-meaning}
use ammar_server.Requests.{Header, Settings, fail_with, after_scan, http_request_is_complete}
use ammar_server.Requests.Complete.{IsPost, chunked_complete-after_scan}

-- The header of a request that is answered with an error and whose connection is closed.
abbrev pub refused : Header → ℕ → Header
refused header code = record header { failed = true; error_response_code = code; keepalive = false }

-- The bytes that have arrived leave room in the buffer, or the buffer may grow.
abbrev pub HasRoom : Settings → Header → Type 0
HasRoom settings header =
    (length header.header_raw < header.max_header_raw_size)
    ⊎ ((settings.enable_post ≡ true)
        × (header.max_header_raw_size < settings.max_post_transaction_size))

-- The answer and the fields of the header, for each meaning of the body. A body is never left
-- undecided by the fuel of the walker.
pub data Decides (settings : Settings) (header : Header) : Reading → Header × Bool → Type 0 where
  whole : {p : Bytes} → Decides settings header (payload p) (header, true)
  bad_request : Decides settings header wrong (refused header 400, true)
  too_large : Decides settings header oversized (refused header 413, true)
  awaits : HasRoom settings header → Decides settings header waiting (header, false)
  full : ¬ HasRoom settings header → Decides settings header waiting (refused header 413, true)

-- The test of the source on a full buffer.
no_room : ℕ → ℕ → ℕ → Bool → Bool
no_room limit most n enabled = leb most n && (not enabled || leb limit most)

no_room-false :
    (limit most n : ℕ) (enabled : Bool)
    → no_room limit most n enabled ≡ false
    → (n < most) ⊎ ((enabled ≡ true) × (most < limit))
unfolding no_room
no_room-false limit most n true h = elim (Bool-cases (leb most n)) [
  | inl reached ↦ inr (refl, ground arith)
  | inr below ↦ inl (ground arith)
]
no_room-false limit most n false h = inl (ground arith)

no_room-true :
    (limit most n : ℕ) (enabled : Bool)
    → no_room limit most n enabled ≡ true
    → ¬ ((n < most) ⊎ ((enabled ≡ true) × (most < limit)))
unfolding no_room
no_room-true limit most n enabled h (inl below) = ground arith
no_room-true limit most n true h (inr (e, below)) = ground arith
no_room-true limit most n false h (inr (e, below)) = cc

after_scan-Decides :
    (settings : Settings) (header : Header) (o : Reading)
    → o ≢ unfinished
    → Decides settings header o (after_scan settings header (status o))
unfolding after_scan fail_with no_room
after_scan-Decides settings header (payload p) h = whole
after_scan-Decides settings header wrong h = bad_request
after_scan-Decides settings header oversized h = too_large
after_scan-Decides settings header unfinished h = absurd (h refl)
after_scan-Decides settings header waiting h =
    let limit = settings.max_post_transaction_size in
    let most = header.max_header_raw_size in
    let n = length header.header_raw in
    elim (Bool-cases (no_room limit most n settings.enable_post)) [
      | inl e ↦ rw e (full (no_room-true limit most n settings.enable_post e))
      | inr e ↦ rw e (awaits (no_room-false limit most n settings.enable_post e))
    ]

finished : (max room : ℕ) (o : Reading) → Fine max room o → o ≢ unfinished
finished max room waiting f e = cc
finished max room wrong f e = cc
finished max room oversized f e = cc
finished max room (payload p) f e = cc
finished max room unfinished f e = f

-- For a chunked POST request whose header and some byte behind it have arrived, of a length that
-- fits in an `unsigned int`, by what the bytes behind the header mean as a chunked body: a whole body
-- makes the request complete and changes nothing; a malformed one is answered 400 and one above the
-- limit 413, as complete, and the connection is not kept; while bytes are missing the request is not
-- complete and nothing changes, if the buffer has room or POST is enabled and the buffer may grow up to
-- the limit, and is answered 413 otherwise. No other meaning arises.
pub http_request_is_complete-Decides :
    (settings : Settings) (header : Header)
    → IsPost true header
    → Decides settings header
        (meaning
          (drop (header.header_raw_head_size + 1) header.header_raw)
          settings.max_post_transaction_size)
        (http_request_is_complete settings header)
http_request_is_complete-Decides settings header p =
    let body = drop (header.header_raw_head_size + 1) header.header_raw in
    let max = settings.max_post_transaction_size in
    let small : length body < uint =
      omega (arith, length-drop (header.header_raw_head_size + 1) header.header_raw, p.small) in
    let same : http_request_is_complete settings header
        ≡ after_scan settings header (status (meaning body max)) =
      chunked_complete-after_scan settings header p
      ∙ ap (after_scan settings header) (walk-meaning body max small).1.result in
    subst (Decides settings header (meaning body max)) (sym same) (
      after_scan-Decides settings header (meaning body max)
        (finished max (length body) (meaning body max) (meaning-Fine body max)))
