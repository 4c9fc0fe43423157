-- ===== src/GetData/Scanned.antt =====
-- The scan of a query of names and values, src/AmmServerlib/header_analysis/get_data.c.
use mathlib.Core.List.{append_assoc}
use ammar_server.Base.{
  ℕ, suc, ◌+◌, ◌≡◌, refl, sym, ap, ◌∙◌, List, [], ◌∷◌, ◌++◌, none, some, Bytes, length, get_elem?,
  arith, length-append, drop-append, set-append_at,
}
use ammar_server.GetData.Fields.{
  scan_loop-name, scan_loop-value, scan_loop-step, at_character-valued,
}
use ammar_server.GetData.Reading.{named, valued, next_name, drop_head, last_value-valued}
use ammar_server.GetData.Pairs.{
  Pair, IsPair, value_place, pointed, before, length-before, name_ended, value_ended, value_here,
  end_here,
}
use ammar_server.GetData.{
  Item, AutomatonState, seeking_name, seeking_value, Scan, begun, scan_loop, last_value,
}

abbrev pub scan_with : Bytes → ℕ → AutomatonState → ℕ → List Item → Scan
scan_with b at q n t = record { buffer = b; start = at; state = q; target_number = n; target = t }

pub Scan_eq :
    (b b' : Bytes) (at at' : ℕ) (q : AutomatonState) (n n' : ℕ) (t t' : List Item)
    → b ≡ b'
    → at ≡ at'
    → n ≡ n'
    → t ≡ t'
    → scan_with b at q n t ≡ scan_with b' at' q n' t'
Scan_eq b b' at at' q n n' t t' e1 e2 e3 e4 = rw (e1, e2, e3, e4) refl

item_here :
    (items : List Item) (x : Item) (free : List Item)
    → get_elem? (items ++ (x ∷ free)) (length items) ≡ some x
item_here [] x free = refl
item_here (y ∷ items) x free = item_here items x free

-- The scan at the first character of a pair.
abbrev pub at_pair : AutomatonState → Bytes → Bytes → List Item → List Item → Scan
at_pair q pre text items free = record {
  buffer = pre ++ text;
  start = length pre;
  state = q;
  target_number = length items;
  target = items ++ free;
}

-- The value of an item is the null pointer while it is sought.
abbrev unvalued : ℕ → Item → Item
unvalued at x = record x { name = some at; value = none }

module _ (pre : Bytes) (p : Pair) (d : ℕ) (post : Bytes) (items : List Item) (x : Item)
    (free : List Item) where
  -- The scan at the first character of a value.
  abbrev pub at_value : Scan
  at_value = record {
    buffer = (pre ++ p.name) ++ (0 ∷ (p.value ++ (d ∷ post)));
    start = value_place (length pre) p;
    state = seeking_value;
    target_number = length items;
    target = items ++ (unvalued (length pre) x ∷ free);
  }

  -- The scan where a value ends.
  abbrev pub after_value : Scan
  after_value = record {
    buffer = before pre p ++ (0 ∷ post);
    start = value_place (length pre) p;
    state = seeking_value;
    target_number = length items + 1;
    target = items ++ (pointed (length pre) p x ∷ free);
  }

  named-at_value :
      (q : AutomatonState)
      → named
          (at_pair q pre (p.name ++ (b'=' ∷ (p.value ++ (d ∷ post)))) items (x ∷ free))
          x
          (length pre + length p.name)
        ≡ at_value
  named-at_value q =
      Scan_eq _ _ _ _ seeking_value _ _ _ _ (name_ended pre p d post) refl refl
        (set-append_at items x free (unvalued (length pre) x))

  valued-after_value :
      valued at_value (unvalued (length pre) x) (value_place (length pre) p + length p.value)
      ≡ after_value
  valued-after_value =
      Scan_eq _ _ _ _ seeking_value _ _ _ _ (value_ended pre p d post) refl refl
        (set-append_at items (unvalued (length pre) x) free (pointed (length pre) p x))

  item_valued :
      get_elem? (items ++ (unvalued (length pre) x ∷ free)) (length items)
      ≡ some (unvalued (length pre) x)
  item_valued = item_here items (unvalued (length pre) x) free

  end_read :
      get_elem?
        ((pre ++ p.name) ++ (0 ∷ (p.value ++ (d ∷ post))))
        (value_place (length pre) p + length p.value)
      ≡ some d
  end_read =
      (drop_head (value_place (length pre) p + length p.value) _ d post (end_here pre p d post)).0

  -- The loop from the first character of a pair to the end of its value.
  pub scan_loop-pair :
      (q : AutomatonState) (n m : ℕ)
      → IsPair p
      → begun q ≡ seeking_name
      → m ≡ length p.name + suc (length p.value + n)
      → scan_loop m
          (length pre)
          (at_pair q pre (p.name ++ (b'=' ∷ (p.value ++ (d ∷ post)))) items (x ∷ free))
        ≡ scan_loop n (value_place (length pre) p + length p.value) at_value
  scan_loop-pair q n m h waiting room =
      let s = at_pair q pre (p.name ++ (b'=' ∷ (p.value ++ (d ∷ post)))) items (x ∷ free) in
      scan_loop-name (p.value ++ (d ∷ post)) p.name s x (length pre) (length p.value + n) m
        h.name-IsName waiting (item_here items x free) (drop-append pre _) room
      ∙ ap (scan_loop (length p.value + n) (value_place (length pre) p)) (named-at_value q)
      ∙ scan_loop-value (d ∷ post) p.value at_value (value_place (length pre) p) n
          (length p.value + n) h.value-IsValue refl (value_here pre p d post) refl

  pub last_value-after :
      last_value seeking_value (at_value, value_place (length pre) p + length p.value)
      ≡ some after_value
  last_value-after =
      last_value-valued at_value (unvalued (length pre) x)
        (value_place (length pre) p + length p.value) item_valued d end_read
      ∙ ap some valued-after_value

module _ (pre : Bytes) (p : Pair) (post : Bytes) (items : List Item) (x : Item)
    (free : List Item) where
  -- The `&` behind a value leads to the next pair.
  pub scan_loop-next :
      (n : ℕ)
      → scan_loop
          (suc n)
          (value_place (length pre) p + length p.value)
          (at_value pre p b'&' post items x free)
        ≡ scan_loop n (length (before pre p ++ (0 ∷ []))) (
            at_pair seeking_name
              (before pre p ++ (0 ∷ []))
              post
              (items ++ (pointed (length pre) p x ∷ []))
              free)
  scan_loop-next n =
      let j = value_place (length pre) p + length p.value in
      let s = at_value pre p b'&' post items x free in
      let t = valued s (unvalued (length pre) x) j in
      let here = end_read pre p b'&' post items x free in
      let e = length-append (before pre p) (0 ∷ []) in
      let f = length-before pre p in
      let g = length-append items (pointed (length pre) p x ∷ []) in
      let k : length pre + length p.name + 1 + length p.value + 1
          ≡ length (before pre p ++ (0 ∷ [])) =
        omega arith in
      let l : length items + 1 ≡ length (items ++ (pointed (length pre) p x ∷ [])) = omega arith in
      scan_loop-step s (next_name t j) j n b'&' here refl (
        at_character-valued s (unvalued (length pre) x) (item_valued pre p b'&' post items x free) j
          refl here)
      ∙ ap (λ u. scan_loop n (j + 1) (next_name u j))
          (valued-after_value pre p b'&' post items x free)
      ∙ ap (scan_loop n (j + 1)) (
          Scan_eq _ _ _ _ seeking_name _ _ _ _ (sym (append_assoc (before pre p) (0 ∷ []) post)) k l
            (sym (append_assoc items (pointed (length pre) p x ∷ []) free)))
      ∙ ap
          (λ i. scan_loop n i (
            at_pair seeking_name (before pre p ++ (0 ∷ [])) post
              (items ++ (pointed (length pre) p x ∷ [])) free))
          k
