-- ===== src/GetData/Reading.antt =====
-- How a query is read, src/AmmServerlib/header_analysis/get_data.c: the characters of a name and of a
-- value, and the marks between them.
use ammar_server.Base.{
  ℕ, zero, suc, ◌+◌, ◌<◌, ◌≡◌, refl, ap, ◌∙◌, Bool, true, false, not, ◌||◌, [], ◌∷◌, none, some,
  Bytes, length, get_elem?, set, drop, ltb, ◌==◌, if◌then◌else◌, ◌>>=◌, arith,
}
use ammar_server.GetData.{
  Item, AutomatonState, found_nothing, seeking_name, seeking_value, Scan, store_name, store_value,
  terminate, next_item, is_line_end, at_equals, at_ampersand, begun, at_character, scan_loop,
  last_value,
}

-- A character of a name.
abbrev pub is_plain : ℕ → Bool
is_plain c = not (is_line_end c || (c == b'=' || c == b'&'))

pub data IsName : Bytes → Type 0 where
  no_more : IsName []
  one_more_character : {c : ℕ} {name : Bytes} → is_plain c ≡ true → IsName name → IsName (c ∷ name)

module _ {A : Type 0} where
  pub if_not : (x y : A) (b : Bool) → b ≡ false → (if b then x else y) ≡ y
  if_not x y true h = cc
  if_not x y false h = refl

  if_so : (x y : A) (b : Bool) → b ≡ true → (if b then x else y) ≡ x
  if_so x y true h = refl
  if_so x y false h = cc

pub plain_tests :
    (a b c : Bool) → not (a || (b || c)) ≡ true → (a ≡ false) × ((b ≡ false) × (c ≡ false))
plain_tests false false false h = (refl, (refl, refl))
plain_tests true b c h = cc
plain_tests false true c h = cc
plain_tests false false true h = cc

pub drop_head :
    (i : ℕ) (xs : Bytes) (c : ℕ) (t : Bytes)
    → drop i xs ≡ c ∷ t
    → (get_elem? xs i ≡ some c) × (drop (suc i) xs ≡ t)
drop_head zero [] c t h = cc
drop_head zero (x ∷ xs) c t h = (cc, cc)
drop_head (suc i) [] c t h = cc
drop_head (suc i) (x ∷ xs) c t h = drop_head i xs c t h

module _ (s : Scan) (i n c : ℕ) (here : get_elem? s.buffer i ≡ some c) where
  at_character-plain :
      is_plain c ≡ true → at_character c i s ≡ some (record s { state = begun s.state })
  unfolding at_character
  at_character-plain h =
      let (end, (equals, ampersand)) = plain_tests (is_line_end c) (c == b'=') (c == b'&') h in
      if_not _ _ (c == b'=') equals ∙ if_not _ _ (c == b'&') ampersand

  pub scan_loop-plain :
      is_plain c ≡ true
      → scan_loop (suc n) i s ≡ scan_loop n (i + 1) (record s { state = begun s.state })
  unfolding scan_loop
  scan_loop-plain h =
      let (end, (equals, ampersand)) = plain_tests (is_line_end c) (c == b'=') (c == b'&') h in
      rw here (
        if_not _ _ (is_line_end c) end
        ∙ ap (λ m. m >>= (λ read. scan_loop n (i + 1) read)) (at_character-plain h))

pub begun-begun : (state : AutomatonState) → begun (begun state) ≡ begun state
begun-begun found_nothing = refl
begun-begun seeking_name = refl
begun-begun seeking_value = refl

get_elem?-lt : (xs : Bytes) (i c : ℕ) → get_elem? xs i ≡ some c → i < length xs
get_elem?-lt [] i c h = cc
get_elem?-lt (x ∷ xs) zero c h = omega arith
get_elem?-lt (x ∷ xs) (suc i) c h = let k = get_elem?-lt xs i c h in omega arith

pub terminate-some :
    (s : Scan) (i c : ℕ)
    → get_elem? s.buffer i ≡ some c
    → terminate i s ≡ some (record s { buffer = set s.buffer i 0 })
unfolding terminate
terminate-some s i c h =
    let k = get_elem?-lt s.buffer i c h in
    let e : ltb i (length s.buffer) ≡ true = ground arith in if_so _ _ (ltb i (length s.buffer)) e

-- The scan after a name and `=`.
abbrev pub named : Scan → Item → ℕ → Scan
named s item i = record s {
  target = set s.target s.target_number (record item { name = some s.start; value = none });
  buffer = set s.buffer i 0;
  state = seeking_value;
  start = i + 1;
}

-- The scan after a value and what ends it.
abbrev pub valued : Scan → Item → ℕ → Scan
valued s item i = record s {
  target = set s.target s.target_number (record item { value = some s.start });
  buffer = set s.buffer i 0;
  target_number = s.target_number + 1;
}

abbrev pub next_name : Scan → ℕ → Scan
next_name s i = record s { state = seeking_name; start = i + 1 }

module _ (s : Scan) (item : Item) (i : ℕ)
    (free : get_elem? s.target s.target_number ≡ some item) where
  pub at_equals-named :
      get_elem? s.buffer i ≡ some b'=' → at_equals seeking_name i s ≡ some (named s item i)
  unfolding at_equals store_name
  at_equals-named here = rw free (
      ap (λ m. m >>= (λ (done : Scan). some (record done { state = seeking_value; start = i + 1 })))
        (terminate-some _ i b'=' here))

  pub at_ampersand-valued :
      get_elem? s.buffer i ≡ some b'&'
      → at_ampersand seeking_value i s ≡ some (next_name (valued s item i) i)
  unfolding at_ampersand store_value
  at_ampersand-valued here = rw free (
      ap (λ m. m >>= (λ (done : Scan). some (record done { state = seeking_name; start = i + 1 })))
        (terminate-some _ i b'&' here))

  pub last_value-valued :
      (c : ℕ)
      → get_elem? s.buffer i ≡ some c
      → last_value seeking_value (s, i) ≡ some (valued s item i)
  unfolding last_value store_value
  last_value-valued c here =
      rw free (ap (λ m. m >>= (λ (done : Scan). some (next_item done))) (terminate-some _ i c here))
