-- ===== src/Chunked/Stable.antt =====
-- The walker of src/AmmServerlib/header_analysis/chunked_transfer.c on a body with bytes behind it.
use ammar_server.Base.{
  ℕ, zero, suc, ◌+◌, ◌*◌, ◌%◌, ◌≤◌, ◌<◌, ◌≡◌, refl, sym, ap, ◌∙◌, Bool, true, false, [], ◌∷◌, ◌++◌,
  some, inl, inr, arith, Bytes, length, drop, length-append, drop_append_le, take_append_le, ◌==◌,
  ltb, Bool-cases, Option-cases, take,
}
use ammar_server.Chunked.{
  hex_value, scan_digits, is_eol, skip_line, ulong, limit_size, end_size_line, size_line_of,
  trailer_lines, Eol, eol_ok, eol_wait, eol_bad, eol_none, take_eol, SizeLine, need_more, malformed,
  too_big, size_line, Trailer, trailer_wait, trailer_bad, trailer_done, parse_chunk_size_line,
  parse_trailer_section, complete, uint, chunked_body_scan, chunked_body_decode,
}
use ammar_server.Chunked.Decoder.{
  Reading, waiting, wrong, oversized, unfinished, payload, status, behind_trailer, behind_data,
  behind_size, decode, meaning,
}
use ammar_server.Chunked.InPlace.{Agrees}
use ammar_server.Chunked.Walker.{walk-meaning}

module _ (more : Bytes) where
  -- A line end that is there stays.
  take_eol-append :
      (s r : Bytes) → take_eol s ≡ eol_ok r → take_eol (s ++ more) ≡ eol_ok (r ++ more)
  unfolding take_eol
  take_eol-append [] r h = cc
  take_eol-append (c ∷ d ∷ cs) r h = ground arith
  take_eol-append (c ∷ []) r h = one more
    where
      one : (m : Bytes) → take_eol (c ∷ m) ≡ eol_ok (r ++ m)
      one [] = ground arith
      one (d ∷ m) = ground arith

  skip_line-append :
      (s : Bytes) (x : ℕ) (xs : Bytes)
      → skip_line s ≡ x ∷ xs
      → skip_line (s ++ more) ≡ x ∷ (xs ++ more)
  unfolding skip_line
  skip_line-append [] x xs h = cc
  skip_line-append (c ∷ cs) x xs h = elim (Bool-cases (is_eol c)) [
    | inl e ↦ let k : c ∷ cs ≡ x ∷ xs = rw e at h in rw e (ap (λ l. l ++ more) k)
    | inr e ↦ rw e (skip_line-append cs x xs (rw e at h))
  ]

  scan_digits-append :
      (s : Bytes) (size digits : ℕ) (n d x : ℕ) (xs : Bytes)
      → scan_digits s size digits ≡ some (record { size = n; digits = d; rest = x ∷ xs })
      → scan_digits (s ++ more) size digits
        ≡ some (record { size = n; digits = d; rest = x ∷ (xs ++ more) })
  unfolding scan_digits
  scan_digits-append [] size digits n d x xs h = cc
  scan_digits-append (c ∷ cs) size digits n d x xs h = elim (Option-cases (hex_value c)) [
    | inl e ↦ ground arith
    | inr (v, e) ↦
        ground (arith, scan_digits-append cs ((size * 16 + v) % ulong) (digits + 1) n d x xs)
  ]

  trailer-append :
      (start : Bool) (s r : Bytes)
      → trailer_lines start s ≡ trailer_done r
      → trailer_lines start (s ++ more) ≡ trailer_done (r ++ more)
  unfolding trailer_lines
  trailer-append start [] r h = cc
  trailer-append start (c ∷ []) r h = one more
    where
      one : (m : Bytes) → trailer_lines start (c ∷ m) ≡ trailer_done (r ++ m)
      one [] = ground arith
      one (d ∷ m) = ground arith
  trailer-append start (c ∷ d ∷ cs) r h = ground (
    arith,
    trailer-append true cs r,
    trailer-append true (d ∷ cs) r,
    trailer-append false (d ∷ cs) r,
  )

  end-append :
      (max dec size n : ℕ) (rest l : Bytes) (e : Eol)
      → take_eol l ≡ e
      → end_size_line max dec size e ≡ size_line n rest
      → end_size_line max dec size (take_eol (l ++ more)) ≡ size_line n (rest ++ more)
  unfolding end_size_line limit_size
  end-append max dec size n rest l (eol_ok r) t h = rw (take_eol-append l r t) (ground arith)
  end-append max dec size n rest l eol_wait t h = cc
  end-append max dec size n rest l eol_bad t h = cc
  end-append max dec size n rest l eol_none t h = cc

  skipped-append :
      (max dec size n : ℕ) (rest l k : Bytes)
      → skip_line l ≡ k
      → end_size_line max dec size (take_eol k) ≡ size_line n rest
      → end_size_line max dec size (take_eol (skip_line (l ++ more))) ≡ size_line n (rest ++ more)
  skipped-append max dec size n rest l [] e h = unfold take_eol end_size_line in ground arith
  skipped-append max dec size n rest l (x ∷ xs) e h =
      rw (skip_line-append l x xs e) (end-append max dec size n rest (x ∷ xs) _ refl h)

  digits-append :
      (s : Bytes) (max dec sz dg n : ℕ) (l rest : Bytes)
      → scan_digits s 0 0 ≡ some (record { size = sz; digits = dg; rest = l })
      → size_line_of max dec (some (record { size = sz; digits = dg; rest = l })) ≡ size_line n rest
      → size_line_of max dec (scan_digits (s ++ more) 0 0) ≡ size_line n (rest ++ more)
  unfolding size_line_of
  digits-append s max dec sz dg n [] rest e h =
      unfold skip_line take_eol end_size_line in ground arith
  digits-append s max dec sz dg n (x ∷ xs) rest e h = elim (Bool-cases (dg == 0)) [
    | inl z ↦ cc (rw z at h)
    | inr nz ↦
        rw (scan_digits-append s 0 0 sz dg x xs e, nz)
          (skipped-append max dec sz n rest (x ∷ xs) _ refl (rw nz at h))
  ]

  line-append :
      (s : Bytes) (max dec n : ℕ) (rest : Bytes)
      → parse_chunk_size_line s max dec ≡ size_line n rest
      → parse_chunk_size_line (s ++ more) max dec ≡ size_line n (rest ++ more)
  unfolding parse_chunk_size_line
  line-append s max dec n rest h = elim (Option-cases (scan_digits s 0 0)) [
    | inl e ↦ unfold size_line_of in ground arith
    | inr (d, e) ↦ digits-append s max dec d.size d.digits n d.rest rest e (rw e at h)
  ]

  behind_trailer-append :
      (out p s : Bytes) (t : Trailer)
      → parse_trailer_section s ≡ t
      → behind_trailer out t ≡ payload p
      → behind_trailer out (parse_trailer_section (s ++ more)) ≡ payload p
  unfolding behind_trailer parse_trailer_section
  behind_trailer-append out p s trailer_wait e h = cc
  behind_trailer-append out p s trailer_bad e h = cc
  behind_trailer-append out p s (trailer_done r) e h = rw (trailer-append true s r e) h

  module _ (next next' : Bytes → Bytes → Reading) (p : Bytes)
      (loop : (r o : Bytes) → next r o ≡ payload p → next' (r ++ more) o ≡ payload p) where
    data-append :
        (out s : Bytes) (e : Eol)
        → take_eol s ≡ e
        → behind_data (λ r. next r out) e ≡ payload p
        → behind_data (λ r. next' r out) (take_eol (s ++ more)) ≡ payload p
    unfolding behind_data
    data-append out s (eol_ok r) e h = rw (take_eol-append s r e) (loop r out h)
    data-append out s eol_wait e h = cc
    data-append out s eol_bad e h = cc
    data-append out s eol_none e h = cc

    size-append :
        (out s : Bytes) (max : ℕ) (line : SizeLine)
        → parse_chunk_size_line s max (length out) ≡ line
        → behind_size next out line ≡ payload p
        → behind_size next' out (parse_chunk_size_line (s ++ more) max (length out)) ≡ payload p
    unfolding behind_size
    size-append out s max need_more e h = cc
    size-append out s max malformed e h = cc
    size-append out s max too_big e h = cc
    size-append out s max (size_line n rest) e h = elim (Bool-cases (n == 0)) [
      | inl z ↦
          rw (line-append s max (length out) n rest e, z)
            (behind_trailer-append out p rest _ refl (rw z at h))
      | inr nz ↦ elim (Bool-cases (ltb (length rest) n)) [
        | inl short ↦ cc (rw (nz, short) at h)
        | inr enough ↦
            let fits : n ≤ length rest = ground arith in
            let more_fits : ltb (length (rest ++ more)) n ≡ false =
              ground (arith, length-append rest more) in
            rw
              (
                line-append s max (length out) n rest e,
                nz,
                more_fits,
                drop_append_le n rest more fits,
                take_append_le n rest more fits,
              )
              (data-append (out ++ take n rest) (drop n rest) _ refl (rw (nz, enough) at h))
      ]
    ]

  decode-append :
      (fuel fuel' max : ℕ) (s out p : Bytes)
      → fuel ≤ fuel'
      → decode fuel max s out ≡ payload p
      → decode fuel' max (s ++ more) out ≡ payload p
  unfolding decode
  decode-append zero fuel' max s out p k h = cc
  decode-append (suc fuel) zero max s out p k h = absurd (omega arith)
  decode-append (suc fuel) (suc fuel') max s out p k h =
      size-append (λ r o. decode fuel max r o) (λ r o. decode fuel' max r o) p
        (λ r o e. decode-append fuel fuel' max r o p (omega arith) e) out s max _ refl h

pub meaning-append :
    (body more p : Bytes) (max : ℕ)
    → meaning body max ≡ payload p
    → meaning (body ++ more) max ≡ payload p
unfolding meaning
meaning-append body more p max h =
    decode-append more (length body + 1) (length (body ++ more) + 1) max body [] p
      (omega (arith, length-append body more)) h

-- For a body and bytes behind it whose lengths together fit in an `unsigned int`: if the scan says
-- that the body is complete, it says so too of the body with the bytes behind it, with the same
-- decoded size, and the decoding in place puts the same payload at the front of both buffers.
pub scan-append :
    (body more : Bytes) (max : ℕ)
    → length (body ++ more) < uint
    → (chunked_body_scan body max).result ≡ complete
    → ((chunked_body_scan (body ++ more) max).result ≡ complete)
      × ((chunked_body_scan (body ++ more) max).decoded_size
          ≡ (chunked_body_scan body max).decoded_size)
      × (take
            (chunked_body_scan body max).decoded_size
            (chunked_body_decode (body ++ more) max).buffer
          ≡ take (chunked_body_scan body max).decoded_size (chunked_body_decode body max).buffer)
scan-append body more max h k = go (meaning body max) refl
  where
    small : length body < uint
    small = omega (arith, length-append body more)

    short :
        Agrees true body (chunked_body_decode body max) (meaning body max)
        × Agrees false body (chunked_body_scan body max) (meaning body max)
    short = walk-meaning body max small

    long :
        Agrees true
          (body ++ more)
          (chunked_body_decode (body ++ more) max)
          (meaning (body ++ more) max)
        × Agrees false
            (body ++ more)
            (chunked_body_scan (body ++ more) max)
            (meaning (body ++ more) max)
    long = walk-meaning (body ++ more) max h

    go :
        (o : Reading)
        → meaning body max ≡ o
        → ((chunked_body_scan (body ++ more) max).result ≡ complete)
          × ((chunked_body_scan (body ++ more) max).decoded_size
              ≡ (chunked_body_scan body max).decoded_size)
          × (take
                (chunked_body_scan body max).decoded_size
                (chunked_body_decode (body ++ more) max).buffer
              ≡ take
                  (chunked_body_scan body max).decoded_size
                  (chunked_body_decode body max).buffer)
    go waiting e = absurd (cc (short.1.result, ap status e))
    go wrong e = absurd (cc (short.1.result, ap status e))
    go oversized e = absurd (cc (short.1.result, ap status e))
    go unfinished e = absurd (cc (short.1.result, ap status e))
    go (payload p) e =
        let e' = meaning-append body more p max e in
        let n = rw e at short.1.size in
        let n' = rw e' at long.1.size in
        (
          long.1.result ∙ ap status e',
          n' ∙ sym n,
          rw n (rw e' at (long.0.written refl) ∙ sym (rw e at (short.0.written refl))),
        )
