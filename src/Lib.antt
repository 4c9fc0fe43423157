-- ===== src/Lib.antt =====
-- The core of AmmarServer, an HTTP server library in C, as definitions that run and theorems about
-- them. The parts that are modelled decide what bytes a request is made of and what they mean.
--
-- How the parts interact. Bytes of a request arrive in a growing buffer. `HTTPRequestIsComplete`
-- (src/AmmServerlib/header_analysis/generic_header_tools.c) is asked after every receive whether
-- the request is whole: for a chunked body it runs the scan of
-- src/AmmServerlib/header_analysis/chunked_transfer.c, for a body with a length it compares sizes,
-- and otherwise it looks for a blank line; `growHeader` makes room. The header lines are
-- recognised by the generated scanners of src/AmmServerlib/stringscanners. The query of a request
-- is split in place into fields, and handlers look fields up by name
-- (src/AmmServerlib/header_analysis/get_data.c). A path is checked by `FilenameStripperOk` and
-- given a content type by `GetContentType` (src/AmmServerlib/tools/http_tools.c), which also
-- decodes the escapes of a path and encodes the bytes of a token. Pages are filled by replacing
-- variables in a growing block of text (src/AmmServerlib/AString/AString.c). The hash map of
-- src/Hashmap/hashmap.c carries the caches and the sessions
-- (src/AmmServerlib/cache/session_list.c), which are a map from tokens to maps of values: the
-- cookie of a request is a token, and a request without a known one gets a new session under a
-- fresh token.
--
-- The files:
-- - Base: names of the libraries, passed on; Boolean tests (Base/Tests), lists over the native
--   numbers (Base/Lists), parts of lists and places in them (Base/Slices), C strings (Base/Text).
-- - Chunked: chunked_transfer.c. Each function has the name of the C function in the spelling of
--   the language (`WalkChunkedBody` is `walk_chunked_body`); the loops that share a variable are
--   functions of their own. The buffer is a list of bytes, positions are numbers modulo 2 ^ 32 and
--   sizes modulo 2 ^ 64. Chunked/Decoder is a decoder without buffer and positions; Chunked/Rest,
--   Moves, InPlace, Walker relate the two; Stable, Frames, Bounds and Boundary use that decoder.
-- - Requests: generic_header_tools.c, with the fields of `struct HTTPHeader` that it uses as a
--   record. Requests/HeaderEnd, BlankLine, Complete, Decision, Grow and Cap hold the proofs.
-- - Scanners: the scanners, with the words of each as a table; Scanners/X/Table for the scanner X.
-- - HttpTools/ContentType, HttpTools/Paths: the parts of http_tools.c named above.
-- - HttpTools/Base64, HttpTools/Unescape: the encoding and the escapes. Base64/RoundTrip has a
--   decoder; Unescape/Steps, Text, Reading and Exact relate the loop in place to a function on
--   texts.
-- - GetData: get_data.c. The buffer is a list of bytes and a pointer into it an offset from the
--   query. GetData/Lookup is the lookup by name. Reading, Fields, Pairs, Scanned, Found, Lengths,
--   Query and Values follow a query of names and values; Ends, Nameless and Crash a name without a
--   value.
-- - CookieData: cookie_data.c, on the same items; CookieData/Safety has the proof.
-- - AString: AString.c, with the copies within a block in AString/Memory. Search, Inject, Longer
--   and Replace hold the proofs for one replacement, Pieces, Instances and Nested for several.
-- - HashMap: hashmap.c; HashMap/Operations has what adds, removes and searches. HashMap/Valid,
--   Keeps, KeepsRemoval, View, Added, Search, Sorted, Contents, Removed, Held, ContainsKey and
--   Written hold the proofs; Contents has the finite map that a list of entries stands for.
-- - Sessions: session_list.c, a client of HashMap. Sessions/Creation has the eviction, the
--   creation and `getSessionFromHeader`, Sessions/Info the values by token; Values, Expiry,
--   Stored, Oldest, Eviction and Capacity hold the proofs.
-- - The modules called Examples run the definitions on small inputs.
--
-- Choices of the model. A C string is the list of the bytes before its terminator. A failing
-- `malloc` or `realloc` is a flag of the call. A fault (a null pointer that is read or written, a
-- write behind a buffer) is `none` or `crash`. The new bytes of a block that `realloc` grows, the
-- random bytes of a token, the tokens that are drawn and the clock are arguments. The loop of
-- `WalkChunkedBody` runs on fuel, one round for each byte of the body and one more; `out_of_fuel`
-- is the result when that is not enough. The binary search runs on as much fuel as there are
-- entries and one more. Locks are not modelled: calls on one object are a sequence. `qsort` and
-- `bsearch` of the C library are written out, as a stable sort and as the usual halving.
--
-- Not modelled: sockets, files, threads and event loops, logging, generated templates, the
-- services and the clients, which are system calls or formatted output around these parts; and of
-- the parts above the walk over the header lines, the relocation of the pointers into the buffer
-- when it grows, the lookup of cookies, the fields of bodies, the functions on files, and the
-- closing of the table of sessions.
pub mod AString
pub mod Base
pub mod Chunked
pub mod Scanners
pub mod HttpTools
pub mod GetData
pub mod CookieData
pub mod HashMap
pub mod Requests
pub mod Sessions
