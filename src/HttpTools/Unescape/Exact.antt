-- ===== src/HttpTools/Unescape/Exact.antt =====
-- `StripHTMLCharacters_Inplace` of src/AmmServerlib/tools/http_tools.c on a buffer with little or much
-- behind its text.
use mathlib.Core.List.{append_assoc}
use ammar_server.Base.{
  ℕ, zero, suc, ◌+◌, ◌-◌, ◌≤◌, ◌<◌, ◌≡◌, refl, sym, ap, ◌∙◌, Bool, false, ◌&&◌, [], ◌∷◌, ◌++◌, none,
  some, arith, Bytes, length, get_elem?, set, take, drop, ltb, ◌==◌, length-set, length-append,
  take-take, take-append-drop, get_elem?_inside, get_elem?_outside, take-set_above, inl, inr,
  Option-cases,
}
use ammar_server.AString.Search.{IsText}
use ammar_server.HttpTools.Unescape.{
  replace_escape, strip_loop, strlen, close_text, strip_long, strip_html_characters,
}
use ammar_server.HttpTools.Unescape.Steps.{At, first, front_suc}
use ammar_server.HttpTools.Unescape.Text.{unescape}
use ammar_server.HttpTools.Unescape.Reading.{ReadsAll, strip_loop-unescape}

module _ (security : Bool) (len : ℕ) where
  -- A round behind the text replaces nothing.
  passed :
      (block : Bytes) (i offset c : ℕ)
      → len ≤ i + offset
      → get_elem? block (i + offset) ≡ some c
      → replace_escape security len block i offset ≡ some (block, offset)
  unfolding replace_escape
  passed block i offset c h r =
      let late : (c == b'%' && ltb (i + offset) (len - 2)) ≡ false = ground arith in rw (r, late)

  tail_round :
      (block : Bytes) (i o c v rounds : ℕ)
      → len ≤ i + suc o
      → get_elem? block (i + suc o) ≡ some c
      → get_elem? block (i + 1 + suc o) ≡ some v
      → strip_loop security len block i (suc o) (suc rounds)
        ≡ strip_loop security len (set block (i + 1) v) (i + 1) (suc o) rounds
  unfolding strip_loop
  tail_round block i o c v rounds h r s = rw (passed block i (suc o) c h r, s)

  tail_runs :
      (rounds : ℕ) (block : Bytes) (i offset : ℕ)
      → i + rounds ≡ len
      → len ≤ i + offset
      → len + offset < length block
      → (next : Bytes) × (strip_loop security len block i offset rounds ≡ some (next, offset))
        × (take (i + 1) next ≡ take (i + 1) block)
        × (length next ≡ length block)
  tail_runs zero block i offset e h room = (block, unfold strip_loop in refl, refl, refl)
  tail_runs (suc rounds) block i zero e h room = absurd (omega arith)
  tail_runs (suc rounds) block i (suc o) e h room =
      let (c, r) = get_elem?_inside block (i + suc o) (omega arith) in
      let (v, s) = get_elem?_inside block (i + 1 + suc o) (omega arith) in
      let wide = length-set block (i + 1) v in
      let (next, run, front, size) =
        tail_runs rounds (set block (i + 1) v) (i + 1) (suc o) (omega arith) (omega arith)
          (omega (arith, wide)) in
      (
        next,
        tail_round block i o c v rounds h r s ∙ run,
        sym (take-take (i + 1) (i + 1 + 1) next (omega arith))
            ∙ ap (take (i + 1)) front
            ∙ take-take (i + 1) (i + 1 + 1) (set block (i + 1) v) (omega arith)
            ∙ take-set_above (i + 1) block (i + 1) v (omega arith),
        size ∙ wide,
      )

  crash_first :
      (block : Bytes) (i o rounds : ℕ)
      → get_elem? block (i + suc o) ≡ none
      → strip_loop security len block i (suc o) (suc rounds) ≡ none
  unfolding strip_loop replace_escape
  crash_first block i o rounds r = rw r

  crash_second :
      (block : Bytes) (i o c rounds : ℕ)
      → len ≤ i + suc o
      → get_elem? block (i + suc o) ≡ some c
      → get_elem? block (i + 1 + suc o) ≡ none
      → strip_loop security len block i (suc o) (suc rounds) ≡ none
  unfolding strip_loop
  crash_second block i o c rounds h r s = rw (passed block i (suc o) c h r, s)

  -- A round either crashes or is followed by one that does.
  crash_round :
      (block : Bytes) (i o rounds : ℕ)
      → len ≤ i + suc o
      → ((v : ℕ)
          → get_elem? block (i + 1 + suc o) ≡ some v
          → strip_loop security len (set block (i + 1) v) (i + 1) (suc o) rounds ≡ none)
      → strip_loop security len block i (suc o) (suc rounds) ≡ none
  crash_round block i o rounds h later = elim (Option-cases (get_elem? block (i + suc o))) [
    | inl r ↦ crash_first block i o rounds r
    | inr (c, r) ↦ elim (Option-cases (get_elem? block (i + 1 + suc o))) [
      | inl s ↦ crash_second block i o c rounds h r s
      | inr (v, s) ↦ tail_round block i o c v rounds h r s ∙ later v s
    ]
  ]

  tail_crashes :
      (rounds : ℕ) (block : Bytes) (i o : ℕ)
      → i + suc rounds ≡ len
      → len ≤ i + suc o
      → length block ≤ len + suc o
      → strip_loop security len block i (suc o) (suc rounds) ≡ none
  tail_crashes zero block i o e h short =
      crash_round block i o 0 h
        (λ v s. absurd (cc (sym (get_elem?_outside block (i + 1 + suc o) (omega arith)) ∙ s)))
  tail_crashes (suc rounds) block i o e h short = crash_round block i o (suc rounds) h (λ v s.
      tail_crashes rounds (set block (i + 1) v) (i + 1) o (omega arith) (omega arith)
        (omega (arith, length-set block (i + 1) v)))

strlen_lem : (text slack : Bytes) → IsText text → strlen (text ++ (0 ∷ slack)) ≡ length text
unfolding strlen
strlen_lem [] slack t = refl
strlen_lem (c ∷ text) slack t =
    let e : (c == 0) ≡ false = ground (arith, t.0) in rw e (ap suc (strlen_lem text slack t.1))

close_text-take :
    (len k : ℕ) (block : Bytes) (shift : ℕ)
    → (0 < shift → k ≤ len)
    → (take k (close_text len (block, shift)) ≡ take k block)
      × (length (close_text len (block, shift)) ≡ length block)
unfolding close_text
close_text-take len k block zero h = (refl, refl)
close_text-take len k block (suc o) h =
    (take-set_above k block len 0 (h (omega arith)), length-set block len 0)

-- The text of the buffer has at least three characters.
module _ (security : Bool) (text slack : Bytes) (t : IsText text) (three : 3 ≤ length text) where
  strip_is_long :
      strip_html_characters security (text ++ (0 ∷ slack))
      ≡ strip_long security (length text) (text ++ (0 ∷ slack))
  unfolding strip_html_characters
  strip_is_long =
      let e0 : (length text == 0) ≡ false = ground arith in
      let e1 : (length text == 1) ≡ false = ground arith in
      let e2 : (length text == 2) ≡ false = ground arith in rw (strlen_lem text slack t, e0, e1, e2)

  start : At (text ++ (0 ∷ slack)) [] text slack (length text) 0 0
  start = record { front = refl; back = refl; here = first_lem text; place = omega arith }
    where
      first_lem : (s : Bytes) → get_elem? (s ++ (0 ∷ slack)) 0 ≡ some (first s)
      first_lem [] = refl
      first_lem (c ∷ s) = refl

  whole_text : ReadsAll security (text ++ (0 ∷ slack)) [] text slack (length text) 0 0 (length text)
  whole_text =
      strip_loop-unescape security slack (length text) text (text ++ (0 ∷ slack)) [] 0 0
        (length text) start (omega arith)

  strip_long_run :
      (next : Bytes) (shift : ℕ)
      → strip_loop security (length text) (text ++ (0 ∷ slack)) 0 0 (length text)
        ≡ some (next, shift)
      → strip_html_characters security (text ++ (0 ∷ slack))
        ≡ some (close_text (length text) (next, shift))
  unfolding strip_long
  strip_long_run next shift e = strip_is_long ∙ rw e

  closed :
      (next : Bytes) (shift : ℕ)
      → strip_loop security (length text) (text ++ (0 ∷ slack)) 0 0 (length text)
        ≡ some (next, shift)
      → take (0 + length (unescape security text) + 1) next ≡ unescape security text ++ (0 ∷ [])
      → 0 + length (unescape security text) + shift ≡ length text
      → (filename rest : Bytes) × (strip_html_characters security (text ++ (0 ∷ slack))
          ≡ some filename)
        × (filename ≡ unescape security text ++ (0 ∷ rest))
        × (length filename ≡ length next)
  closed next shift e f place =
      let out = unescape security text in
      let k = 0 + length out + 1 in
      let filename = close_text (length text) (next, shift) in
      let (front, size) = close_text-take (length text) k next shift (λ h. omega arith) in
      (
        filename,
        drop k filename,
        strip_long_run next shift e,
        sym (take-append-drop k filename)
            ∙ ap (λ l. l ++ drop k filename) (front ∙ f)
            ∙ append_assoc out (0 ∷ []) (drop k filename),
        size,
      )

  -- A text of at least three characters, in a buffer that goes on behind its terminator for at least as
  -- many bytes as the text becomes shorter, is replaced by what it stands for, with a terminator behind
  -- it, with no access outside of the buffer, whose size stays: each escape becomes its character, and
  -- the percent sign of each one that is refused becomes an underscore.
  pub strip_html_characters-unescape :
      length text - length (unescape security text) ≤ length slack
      → (filename rest : Bytes) × (strip_html_characters security (text ++ (0 ∷ slack))
          ≡ some filename)
        × (filename ≡ unescape security text ++ (0 ∷ rest))
        × (length filename ≡ length (text ++ (0 ∷ slack)))
  strip_html_characters-unescape room =
      let w = whole_text in
      let out = unescape security text in
      let i = 0 + length out in
      let (next, run, front, size) =
        tail_runs security (length text) w.left w.next i w.shift w.counted
          (omega (arith, w.at.place))
          (omega (arith, w.at.place, w.size, length-append text (0 ∷ slack))) in
      let (filename, rest, done, split, wide) =
        closed next w.shift (w.run ∙ run) (front ∙ front_suc w.next out i 0 w.at.front w.at.here)
          (omega (arith, w.at.place)) in
      (filename, rest, done, split, wide ∙ size ∙ w.size)

  crashes :
      (block : Bytes) (i shift rounds : ℕ)
      → i + rounds ≡ length text
      → i + shift ≡ length text
      → 0 < shift
      → length block ≤ length text + shift
      → strip_loop security (length text) block i shift rounds ≡ none
  crashes block i zero rounds e f h k = absurd (omega arith)
  crashes block i (suc o) zero e f h k = absurd (omega arith)
  crashes block i (suc o) (suc rounds) e f h k =
      tail_crashes security (length text) rounds block i o e (omega arith) k

  long_crash :
      strip_loop security (length text) (text ++ (0 ∷ slack)) 0 0 (length text) ≡ none
      → strip_long security (length text) (text ++ (0 ∷ slack)) ≡ none
  unfolding strip_long
  long_crash e = rw e

  -- A text of at least three characters that becomes shorter by more bytes than there are behind its
  -- terminator makes the loop read behind the end of the buffer.
  pub strip_html_characters_overrun :
      length slack < length text - length (unescape security text)
      → strip_html_characters security (text ++ (0 ∷ slack)) ≡ none
  strip_html_characters_overrun short =
      let w = whole_text in
      let i = 0 + length (unescape security text) in
      strip_is_long
      ∙ long_crash (
          w.run
          ∙ crashes w.next i w.shift w.left w.counted (omega (arith, w.at.place))
              (omega (arith, w.at.place))
              (omega (arith, w.at.place, w.size, length-append text (0 ∷ slack))))
