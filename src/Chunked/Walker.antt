-- ===== src/Chunked/Walker.antt =====
-- The loop of `WalkChunkedBody`, src/AmmServerlib/header_analysis/chunked_transfer.c, round by round.
use ammar_server.Base.{
  ℕ, zero, suc, ◌+◌, ◌-◌, ◌%◌, ◌≤◌, ◌<◌, ◌≡◌, refl, sym, ◌∙◌, Bool, true, false, [], ◌++◌, inl, inr,
  arith, Bytes, length, drop, length-append, ◌==◌, ltb, Bool-cases, take, length-take, length-drop,
}
use ammar_server.Chunked.{
  Eol, eol_ok, eol_wait, eol_bad, eol_none, take_eol, SizeLine, need_more, malformed, too_big,
  size_line, parse_chunk_size_line, parse_trailer_section, incomplete, error_bad, error_too_big,
  out_of_fuel, ulong, uint, position, Walk, move_down, advance, end_chunk, chunk_body, on_size_line,
  walk, walk_chunked_body, chunked_body_scan, chunked_body_decode,
}
use ammar_server.Chunked.Rest.{Leaves-length, drop-position, take_eol-Leaves, size_line-Leaves}
use ammar_server.Chunked.Decoder.{
  Reading, waiting, wrong, oversized, unfinished, behind_data, behind_size, decode, meaning,
}
use ammar_server.Chunked.InPlace.{Agrees, Ready, stopped-Agrees, trailer-Agrees, end_chunk-Next}

-- The rest of the loop agrees, at every buffer of the same width.
abbrev Loop : Bool → Bytes → (Bytes → ℕ → ℕ → ℕ → Walk) → (Bytes → Bytes → Reading) → Type 0
Loop write buf next spec =
    (b : Bytes) (r w d : ℕ) (s out : Bytes)
    → length b ≡ length buf
    → Ready write b r w d s out
    → Agrees write b (next b r w d) (spec s out)

Agrees-back :
    (write : Bool) (buf buf' : Bytes) (w : Walk) (o : Reading)
    → length buf' ≡ length buf
    → (write ≡ false → buf' ≡ buf)
    → Agrees write buf' w o
    → Agrees write buf w o
Agrees-back write buf buf' w o e k a = record {
  result = a.result;
  width = a.width ∙ e;
  size = a.size;
  written = a.written;
  kept = λ f. a.kept f ∙ k f;
}

module _ (write : Bool) (next : Bytes → ℕ → ℕ → ℕ → Walk) (spec : Bytes → Bytes → Reading)
    (buf : Bytes) (read w decoded : ℕ) (s out : Bytes)
    (ready : Ready write buf read w decoded s out) (loop : Loop write buf next spec) where
  -- Behind the data of a chunk of `n` bytes at `r`.
  eol-Agrees :
      (n r : ℕ) (rest buf' : Bytes) (w' : ℕ)
      → n ≤ length rest
      → read ≤ r
      → r + length rest ≡ length buf
      → length buf' ≡ length buf
      → drop (r + n) buf' ≡ drop n rest
      → (write ≡ false → buf' ≡ buf)
      → (write ≡ true → (w' ≡ length (out ++ take n rest)) × (take w' buf' ≡ out ++ take n rest))
      → (e : Eol) → take_eol (drop n rest) ≡ e
      → Agrees write buf
          (end_chunk (λ p. next buf' p w' ((decoded + n) % ulong)) (length buf) buf' e)
          (behind_data (λ t. spec t (out ++ take n rest)) e)
  unfolding end_chunk behind_data
  eol-Agrees n r rest buf' w' fits past at_end width unread kept placed eol_wait e =
      Agrees-back write buf buf' _ _ width kept
        (stopped-Agrees write buf' waiting incomplete refl tt tt)
  eol-Agrees n r rest buf' w' fits past at_end width unread kept placed eol_bad e =
      Agrees-back write buf buf' _ _ width kept
        (stopped-Agrees write buf' wrong error_bad refl tt tt)
  eol-Agrees n r rest buf' w' fits past at_end width unread kept placed eol_none e =
      Agrees-back write buf buf' _ _ width kept
        (stopped-Agrees write buf' wrong error_bad refl tt tt)
  eol-Agrees n r rest buf' w' fits past at_end width unread kept placed (eol_ok t) e =
      let left = take_eol-Leaves (drop n rest) t e in
      let shorter = Leaves-length 1 (drop n rest) t left in
      let size = length-append out (take n rest) in
      let taken = length-take n rest in
      let remain = length-drop n rest in
      let cut : drop (position (length buf) t) buf' ≡ t =
        rw (← width) (drop-position 1 (r + n) buf' t (omega arith) (rw (← unread) at left)) in
      Agrees-back write buf buf' _ _ width kept (
        loop buf' (position (length buf) t) w' ((decoded + n) % ulong) t (out ++ take n rest) width
          (record {
            small = rw width ready.small;
            read_le = omega arith;
            unread = cut;
            counted = omega (arith, ready.small, ready.counted, ready.behind, ready.read_le);
            behind = omega (arith, ready.behind);
            placed = placed;
          }))

  line-Agrees :
      (max : ℕ) (line : SizeLine)
      → parse_chunk_size_line s max (length out) ≡ line
      → Agrees write buf
          (on_size_line next write buf (length buf) w decoded line)
          (behind_size spec out line)
  unfolding on_size_line behind_size
  line-Agrees max need_more e = stopped-Agrees write buf waiting incomplete refl tt tt
  line-Agrees max malformed e = stopped-Agrees write buf wrong error_bad refl tt tt
  line-Agrees max too_big e = stopped-Agrees write buf oversized error_too_big refl tt tt
  line-Agrees max (size_line n rest) e = elim (Bool-cases (n == 0)) [
    | inl z ↦
        rw z (trailer-Agrees write buf read w decoded s out (parse_trailer_section rest) ready)
    | inr nz ↦
        let left = (size_line-Leaves s max (length out) n rest e).0 in
        let shorter = Leaves-length 1 s rest left in
        let total = rw ready.unread at (length-drop read buf) in
        let room : length buf - position (length buf) rest ≡ length rest = omega arith in
        elim (Bool-cases (ltb (length rest) n)) [
          | inl short ↦
              rw (nz, short)
                (unfold chunk_body in
                  rw (room, short) (stopped-Agrees write buf waiting incomplete refl tt tt))
          | inr enough ↦
              let r = position (length buf) rest in
              let fits : n ≤ length rest = ground arith in
              let same : n % uint ≡ n = omega (arith, ready.small) in
              let sum : (r + n) % uint ≡ r + n = omega (arith, ready.small) in
              let at_r =
                drop-position 1 read buf rest ready.read_le (rw (← ready.unread) at left) in
              let m =
                end_chunk-Next buf read w decoded n r s out rest fits (omega (arith, ready.read_le))
                  (omega arith) at_r write ready in
              rw (nz, enough)
                (unfold chunk_body in
                  rw (room, enough, same, sum, m.unread)
                    (eol-Agrees n r rest (move_down write buf w r n) (advance write w n) fits
                      (omega (arith, ready.read_le)) (omega arith) m.width m.unread m.kept m.placed
                      (take_eol (drop n rest)) refl))
        ]
  ]

walk-Agrees :
    (fuel max : ℕ) (write : Bool) (bl : ℕ) (buf : Bytes) (read w decoded : ℕ) (s out : Bytes)
    → bl ≡ length buf
    → Ready write buf read w decoded s out
    → Agrees write buf (walk fuel write max bl buf read w decoded) (decode fuel max s out)
unfolding walk decode
walk-Agrees zero max write bl buf read w decoded s out e h =
    stopped-Agrees write buf unfinished out_of_fuel refl tt tt
walk-Agrees (suc fuel) max write bl buf read w decoded s out e h =
    let line : parse_chunk_size_line (drop read buf) max decoded
        ≡ parse_chunk_size_line s max (length out) =
      cc (h.unread, h.counted) in
    rw (line, e)
      (line-Agrees write _ _ buf read w decoded s out h
        (λ b r v d t o f k. walk-Agrees fuel max write (length buf) b r v d t o (sym f) k) max _
        refl)

pub start-Ready :
    (write : Bool) (body : Bytes) → length body < uint → Ready write body 0 0 0 body []
start-Ready write body h = record {
  small = h;
  read_le = omega arith;
  unread = refl;
  counted = refl;
  behind = omega arith;
  placed = λ e. (refl, refl);
}

pub body-Agrees :
    (write : Bool) (body : Bytes) (max : ℕ)
    → length body < uint
    → Agrees write body (walk_chunked_body write body max) (meaning body max)
unfolding walk_chunked_body meaning
body-Agrees write body max h =
    walk-Agrees (length body + 1) max write (length body) body 0 0 0 body [] refl
      (start-Ready write body h)

-- For a body whose length fits in an `unsigned int`: the scan and the decoding in place both give
-- the result that the body means, the scan leaves the buffer as it was, and where the body is
-- complete the decoded size is the length of the payload and the decoding has put the payload at
-- the front of the buffer. Neither changes the length of the buffer.
pub walk-meaning :
    (body : Bytes) (max : ℕ)
    → length body < uint
    → Agrees true body (chunked_body_decode body max) (meaning body max)
      × Agrees false body (chunked_body_scan body max) (meaning body max)
unfolding chunked_body_decode chunked_body_scan
walk-meaning body max h = (body-Agrees true body max h, body-Agrees false body max h)
