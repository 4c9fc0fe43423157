-- ===== src/GetData/Fields.antt =====
-- The names and the values of a query one after the other,
-- src/AmmServerlib/header_analysis/get_data.c.
use ammar_server.Base.{
  ℕ, zero, suc, ◌+◌, ◌≡◌, refl, sym, ap, ◌∙◌, Bool, true, false, not, ◌||◌, [], ◌∷◌, ◌++◌, some,
  Bytes, length, get_elem?, drop, ◌==◌, if◌then◌else◌, ◌>>=◌, arith,
}
use ammar_server.GetData.Reading.{
  IsName, one_more_character, if_not, drop_head, scan_loop-plain, begun-begun, named, valued,
  next_name, at_equals-named, at_ampersand-valued,
}
use ammar_server.GetData.{
  Item, seeking_name, seeking_value, Scan, is_line_end, at_equals, at_ampersand, begun,
  at_character, scan_loop,
}

-- A character of a value.
abbrev pub is_value_character : ℕ → Bool
is_value_character c = not (is_line_end c || c == b'&')

pub data IsValue : Bytes → Type 0 where
  value_end : IsValue []
  value_character :
      {c : ℕ} {value : Bytes} → is_value_character c ≡ true → IsValue value → IsValue (c ∷ value)

pub value_tests : (a b : Bool) → not (a || b) ≡ true → (a ≡ false) × (b ≡ false)
value_tests false false h = (refl, refl)
value_tests true b h = cc
value_tests false true h = cc

at_equals-other :
    (b : Bool) (i : ℕ) (s : Scan) → (if b then at_equals seeking_value i s else some s) ≡ some s
unfolding at_equals
at_equals-other true i s = refl
at_equals-other false i s = refl

at_character-inside :
    (s : Scan) (i c : ℕ)
    → is_value_character c ≡ true
    → s.state ≡ seeking_value
    → at_character c i s ≡ some s
unfolding at_character
at_character-inside s i c plain inside =
    let tests = value_tests (is_line_end c) (c == b'&') plain in
    let e : begun s.state ≡ s.state = ap begun inside ∙ sym inside in
    ap
      (λ q.
        if c == b'='
        then at_equals q i (record s { state = q })
        else if c == b'&'
        then at_ampersand q i (record s { state = q })
        else some (record s { state = q }))
      e
    ∙ ap (λ r. if c == b'=' then at_equals s.state i s else r) (if_not _ _ (c == b'&') tests.1)
    ∙ ap (λ q. if c == b'=' then at_equals q i s else some s) inside
    ∙ at_equals-other (c == b'=') i s

-- The step at a character that does not end the text.
pub scan_loop-step :
    (s t : Scan) (i n c : ℕ)
    → get_elem? s.buffer i ≡ some c
    → is_line_end c ≡ false
    → at_character c i s ≡ some t
    → scan_loop (suc n) i s ≡ scan_loop n (i + 1) t
unfolding scan_loop
scan_loop-step s t i n c here end step =
    rw here
      (if_not _ _ (is_line_end c) end ∙ ap (λ m. m >>= (λ read. scan_loop n (i + 1) read)) step)

module _ (s : Scan) (item : Item) (free : get_elem? s.target s.target_number ≡ some item) where
  at_character-named :
      (i : ℕ)
      → begun s.state ≡ seeking_name
      → get_elem? s.buffer i ≡ some b'='
      → at_character b'=' i s ≡ some (named s item i)
  unfolding at_character
  at_character-named i waiting here =
      ap (λ q. at_equals q i (record s { state = q })) waiting
      ∙ at_equals-named (record s { state = seeking_name }) item i free here

  pub at_character-valued :
      (i : ℕ)
      → s.state ≡ seeking_value
      → get_elem? s.buffer i ≡ some b'&'
      → at_character b'&' i s ≡ some (next_name (valued s item i) i)
  unfolding at_character
  at_character-valued i inside here =
      ap (λ q. at_ampersand q i (record s { state = q })) (ap begun inside)
      ∙ at_ampersand-valued (record s { state = seeking_value }) item i free here

module _ (t : Bytes) where
  -- A name and its `=`.
  pub scan_loop-name :
      (name : Bytes) (s : Scan) (item : Item) (i n m : ℕ)
      → IsName name
      → begun s.state ≡ seeking_name
      → get_elem? s.target s.target_number ≡ some item
      → drop i s.buffer ≡ name ++ (b'=' ∷ t)
      → m ≡ length name + suc n
      → scan_loop m i s ≡ scan_loop n (i + length name + 1) (named s item (i + length name))
  scan_loop-name name s item i n zero h waiting free here room = absurd (omega arith)
  scan_loop-name [] s item i n (suc m) h waiting free here room =
      let step =
        scan_loop-step s (named s item i) i m b'=' (drop_head i s.buffer b'=' t here).0 refl
          (at_character-named s item free i waiting (drop_head i s.buffer b'=' t here).0) in
      let e : m ≡ n = omega arith in
      let f : i ≡ i + 0 = omega arith in
      step
      ∙ ap (λ k. scan_loop k (i + 1) (named s item i)) e
      ∙ ap (λ j. scan_loop n (j + 1) (named s item j)) f
  scan_loop-name (c ∷ name) s item i n (suc m) (one_more_character plain h) waiting free here room =
      let (read, next) = drop_head i s.buffer c (name ++ (b'=' ∷ t)) here in
      let e : i + 1 ≡ suc i = omega arith in
      let f : i + 1 + length name ≡ i + suc (length name) = omega arith in
      scan_loop-plain s i m c read plain
      ∙ scan_loop-name name (record s { state = begun s.state }) item (i + 1) n m h
          (begun-begun s.state ∙ waiting) free (rw e next) (omega arith)
      ∙ ap (λ j. scan_loop n (j + 1) (named s item j)) f

  -- The characters of a value.
  pub scan_loop-value :
      (value : Bytes) (s : Scan) (i n m : ℕ)
      → IsValue value
      → s.state ≡ seeking_value
      → drop i s.buffer ≡ value ++ t
      → m ≡ length value + n
      → scan_loop m i s ≡ scan_loop n (i + length value) s
  scan_loop-value [] s i n m h inside here room =
      let e : m ≡ n = omega arith in
      let f : i ≡ i + 0 = omega arith in ap (λ k. scan_loop k i s) e ∙ ap (λ j. scan_loop n j s) f
  scan_loop-value (c ∷ value) s i n zero h inside here room = absurd (omega arith)
  scan_loop-value (c ∷ value) s i n (suc m) (value_character plain h) inside here room =
      let (read, next) = drop_head i s.buffer c (value ++ t) here in
      let e : i + 1 ≡ suc i = omega arith in
      let f : i + 1 + length value ≡ i + suc (length value) = omega arith in
      scan_loop-step s s i m c read (value_tests (is_line_end c) (c == b'&') plain).0
        (at_character-inside s i c plain inside)
      ∙ scan_loop-value value s (i + 1) n m h inside (rw e next) (omega arith)
      ∙ ap (λ j. scan_loop n j s) f
