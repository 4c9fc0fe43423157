-- ===== src/Chunked.antt =====
-- The chunked transfer coding, src/AmmServerlib/header_analysis/chunked_transfer.c.
-- `body` with `bodyLength` is the list of the bytes buffered. A position into it is the list of the
-- bytes from there on; the walker, which moves bytes down in the same buffer, keeps its positions
-- as numbers and reads the list from the buffer as it stands. Results that C returns as a number
-- are constructors: `malformed` is -1, `too_big` is -2, `need_more` is 0.
pub mod Rest
pub mod Decoder
pub mod Stable
pub mod Frames
pub mod Bounds
pub mod Moves
pub mod InPlace
pub mod Walker
pub mod Boundary
mod Examples
pub use ammar_server.Base.{ulong, uint}
use ammar_server.Base.{
  ℕ, zero, suc, ◌+◌, ◌-◌, ◌*◌, ◌/◌, ◌%◌, ◌^◌, Bool, true, false, ◌&&◌, ◌||◌, List, [], ◌∷◌, ◌++◌,
  Option, none, some, Bytes, length, take, drop, ltb, leb, ◌==◌, if◌then◌else◌,
}

-- `HexValue`; -1 is `none`.
unfoldable pub hex_value : ℕ → Option ℕ
hex_value c =
    if leb b'0' c && leb c b'9'
    then some (c - b'0')
    else if leb b'a' c && leb c b'f'
    then some (10 + (c - b'a'))
    else if leb b'A' c && leb c b'F'
    then some (10 + (c - b'A'))
    else none

pub record Digits : Type 0 where
  pub size : ℕ
  pub digits : ℕ
  pub rest : Bytes

-- The loop over the digits. `none` is its `return -1`.
unfoldable pub scan_digits : Bytes → ℕ → ℕ → Option Digits
scan_digits [] size digits = some (record { size = size; digits = digits; rest = [] })
scan_digits (c ∷ cs) size digits = elim (hex_value c) [
  | none ↦ some (record { size = size; digits = digits; rest = c ∷ cs })
  | some value ↦
      let next = scan_digits cs ((size * 16 + value) % ulong) (digits + 1) in
      if ltb ((ulong - 1 - 15) / 16) size then none else next
]

abbrev pub is_eol : ℕ → Bool
is_eol c = c == 13 || c == 10

-- `while ((pos<bodyLength) && (body[pos]!='\r') && (body[pos]!='\n')) { ++pos; }`
unfoldable pub skip_line : Bytes → Bytes
skip_line [] = []
skip_line (c ∷ cs) = if is_eol c then c ∷ cs else skip_line cs

pub data Eol : Type 0 where
  eol_ok : Bytes → Eol
  eol_wait eol_bad eol_none : Eol

-- The end of a line at a position: CR LF, or a bare LF. `eol_none` where another byte stands.
unfoldable pub take_eol : Bytes → Eol
take_eol [] = eol_wait
take_eol (c ∷ []) = if c == 13 then eol_wait else if c == 10 then eol_ok [] else eol_none
take_eol (c ∷ d ∷ cs) =
    if c == 13
    then (if d == 10 then eol_ok cs else eol_bad)
    else if c == 10
    then eol_ok (d ∷ cs)
    else eol_none

pub data SizeLine : Type 0 where
  need_more malformed too_big : SizeLine
  size_line : ℕ → Bytes → SizeLine

unfoldable pub limit_size : ℕ → ℕ → ℕ → Bytes → SizeLine
limit_size max decoded size rest =
    if ltb max size || ltb (max - size) decoded then too_big else size_line size rest

unfoldable pub end_size_line : ℕ → ℕ → ℕ → Eol → SizeLine
end_size_line max decoded size (eol_ok rest) = limit_size max decoded size rest
end_size_line max decoded size eol_wait = need_more
end_size_line max decoded size eol_bad = malformed
end_size_line max decoded size eol_none = malformed

unfoldable pub size_line_of : ℕ → ℕ → Option Digits → SizeLine
size_line_of max decoded none = malformed
size_line_of max decoded (some d) =
    if d.digits == 0
    then malformed
    else end_size_line max decoded d.size (take_eol (skip_line d.rest))

-- `ParseChunkSizeLine`
unfoldable pub parse_chunk_size_line : Bytes → ℕ → ℕ → SizeLine
unfolding size_line_of
parse_chunk_size_line s max decoded = size_line_of max decoded (scan_digits s 0 0)

pub data Trailer : Type 0 where
  trailer_wait trailer_bad : Trailer
  trailer_done : Bytes → Trailer

-- The loop over the lines: the flag says that the position is the start of a line, so that an end
-- of line there is the blank line. A CR that is not followed by LF is -1 on a blank line and
-- behind a line alike.
unfoldable pub trailer_lines : Bool → Bytes → Trailer
trailer_lines start [] = trailer_wait
trailer_lines start (c ∷ []) = if c == 10 && start then trailer_done [] else trailer_wait
trailer_lines start (c ∷ d ∷ cs) =
    let crlf = trailer_lines true cs in
    let lf = trailer_lines true (d ∷ cs) in
    let inside = trailer_lines false (d ∷ cs) in
    if c == 13
    then (if d == 10 then (if start then trailer_done cs else crlf) else trailer_bad)
    else if c == 10
    then (if start then trailer_done (d ∷ cs) else lf)
    else inside

-- `ParseTrailerSection`: what stands before its loop is the blank line of the loop.
unfoldable pub parse_trailer_section : Bytes → Trailer
unfolding trailer_lines
parse_trailer_section = trailer_lines true

pub data ScanResult : Type 0 where
  incomplete complete error_bad error_too_big out_of_fuel : ScanResult

-- `memmove(buf+dst,buf+src,n)` within the buffer
unfoldable pub memmove : Bytes → ℕ → ℕ → ℕ → Bytes
memmove buf dst src n = take dst buf ++ (take n (drop src buf) ++ drop (dst + n) buf)

pub record Walk : Type 0 where
  pub result : ScanResult
  pub buffer : Bytes
  pub decoded_size : ℕ

abbrev pub position : ℕ → Bytes → ℕ
position body_length rest = body_length - length rest

-- `writePos`, and `memmove` unless the two positions are one; with no `writeBody` nothing moves.
unfoldable pub move_down : Bool → Bytes → ℕ → ℕ → ℕ → Bytes
move_down write buf write_pos read_pos n =
    if write then (if write_pos == read_pos then buf else memmove buf write_pos read_pos n) else buf

abbrev pub advance : Bool → ℕ → ℕ → ℕ
advance write write_pos n = if write then (write_pos + n) % uint else write_pos

abbrev pub stopped : ScanResult → Bytes → Walk
stopped r buf = record { result = r; buffer = buf; decoded_size = 0 }

unfoldable pub end_walk : Bytes → ℕ → Trailer → Walk
end_walk buf decoded trailer_wait = stopped incomplete buf
end_walk buf decoded trailer_bad = stopped error_bad buf
end_walk buf decoded (trailer_done rest) = record {
  result = complete;
  buffer = buf;
  decoded_size = decoded % uint;
}

-- What follows the data of a chunk; `next` is the rest of the loop, from a position.
unfoldable pub end_chunk : (ℕ → Walk) → ℕ → Bytes → Eol → Walk
end_chunk next body_length buf (eol_ok rest) = next (position body_length rest)
end_chunk next body_length buf eol_wait = stopped incomplete buf
end_chunk next body_length buf eol_bad = stopped error_bad buf
end_chunk next body_length buf eol_none = stopped error_bad buf

-- One chunk, behind its size line.
unfoldable pub chunk_body : (Bytes → ℕ → ℕ → ℕ → Walk) → Bool → Bytes → ℕ → ℕ → ℕ → ℕ → ℕ → Walk
chunk_body next write buf body_length read_pos write_pos decoded size =
    if ltb (body_length - read_pos) size
    then stopped incomplete buf
    else (let buf' = move_down write buf write_pos read_pos (size % uint) in
        let read' = (read_pos + size % uint) % uint in
        end_chunk
          (λ p. next buf' p (advance write write_pos (size % uint)) ((decoded + size) % ulong))
          body_length buf' (take_eol (drop read' buf')))

unfoldable pub on_size_line :
    (Bytes → ℕ → ℕ → ℕ → Walk) → Bool → Bytes → ℕ → ℕ → ℕ → SizeLine → Walk
on_size_line next write buf body_length write_pos decoded need_more = stopped incomplete buf
on_size_line next write buf body_length write_pos decoded malformed = stopped error_bad buf
on_size_line next write buf body_length write_pos decoded too_big = stopped error_too_big buf
on_size_line next write buf body_length write_pos decoded (size_line size rest) =
    if size == 0
    then end_walk buf decoded (parse_trailer_section rest)
    else chunk_body next write buf body_length (position body_length rest) write_pos decoded size

-- `WalkChunkedBody`, each round of its endless loop on one unit of fuel.
unfoldable pub walk : ℕ → Bool → ℕ → ℕ → Bytes → ℕ → ℕ → ℕ → Walk
walk zero write max body_length buf read_pos write_pos decoded = stopped out_of_fuel buf
walk (suc fuel) write max body_length buf read_pos write_pos decoded =
    on_size_line (λ b r w d. walk fuel write max body_length b r w d) write buf body_length
      write_pos decoded (parse_chunk_size_line (drop read_pos buf) max decoded)

-- A round of fuel for each byte, and one more.
unfoldable pub walk_chunked_body : Bool → Bytes → ℕ → Walk
walk_chunked_body write body max = walk (length body + 1) write max (length body) body 0 0 0

unfoldable pub chunked_body_scan : Bytes → ℕ → Walk
chunked_body_scan body max = walk_chunked_body false body max

unfoldable pub chunked_body_decode : Bytes → ℕ → Walk
chunked_body_decode body max = walk_chunked_body true body max
