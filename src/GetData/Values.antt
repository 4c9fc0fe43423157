-- ===== src/GetData/Values.antt =====
-- Looking up the fields of a query, src/AmmServerlib/header_analysis/get_data.c.
use mathlib.Core.List.{append_assoc}
use ammar_server.Base.Text.{strcmp}
use ammar_server.Base.{
  ℕ, suc, ◌<◌, ◌≡◌, refl, sym, ap, ◌∙◌, Bool, true, false, ◌&&◌, List, [], ◌∷◌, ◌++◌, Option, none,
  some, Bytes, length, take, drop, min, arith, length-append, drop-append, take-append, ◌==◌, ◌>>=◌,
  if◌then◌else◌,
}
use ammar_server.AString.Search.{IsText}
use ammar_server.GetData.Reading.{IsName, one_more_character, if_not, plain_tests}
use ammar_server.GetData.Pairs.{
  Pair, IsPair, ArePairs, one_pair, another_pair, query, terminated, value_place, behind, before,
  length-before, before-terminated, value_here,
}
use ammar_server.GetData.Lengths.{measured, measured_items, not_zero}
use ammar_server.GetData.Query.{finalize_generic_get_field-pairs}
use ammar_server.GetData.Lookup.{
  strcmp_is_zero, has_name, find_item, get_get_item_from_name, pointer_and_length,
  get_pointer_to_get_item_value,
}
use ammar_server.GetData.{Run, Item, is_line_end, max_variable_count, finalize_generic_get_field}

-- The text that a pointer and a length stand for.
abbrev pub pointed_text : Bytes → Option ℕ × ℕ → Option Bytes
pointed_text buffer (none, n) = none
pointed_text buffer (some at, n) = some (take n (drop at buffer))

-- The value of the first pair with a name.
unfoldable pub value_named : Bytes → Pair → List Pair → Option Bytes
value_named name p [] = if strcmp p.name name then some p.value else none
value_named name p (q ∷ ps) =
    let rest = value_named name q ps in if strcmp p.name name then some p.value else rest

if_rest : (b r : Bool) → (if b then some r else some false) ≡ some (b && r)
if_rest true r = refl
if_rest false r = refl

strcmp_is_zero-strcmp :
    (rest text name : Bytes)
    → IsName text
    → IsText name
    → strcmp_is_zero (text ++ (0 ∷ rest)) name ≡ some (strcmp text name)
unfolding strcmp_is_zero strcmp
strcmp_is_zero-strcmp rest [] [] h k = refl
strcmp_is_zero-strcmp rest [] (d ∷ name) h k =
    let positive : 0 < d = k.0 in let e : (0 == d) ≡ false = ground arith in if_not _ _ (0 == d) e
strcmp_is_zero-strcmp rest (c ∷ text) [] (one_more_character plain h) k =
    ap some (not_zero c (plain_tests (is_line_end c) (c == b'=') (c == b'&') plain).0)
strcmp_is_zero-strcmp rest (c ∷ text) (d ∷ name) (one_more_character plain h) k =
    rw (strcmp_is_zero-strcmp rest text name h k.1) (if_rest (c == d) (strcmp text name))

-- The item of the first pair with a name.
unfoldable item_named : ℕ → Bytes → Pair → List Pair → Option Item
item_named at name p [] = if strcmp p.name name then some (measured at p) else none
item_named at name p (q ∷ ps) =
    let rest = item_named (behind at p) name q ps in
    if strcmp p.name name then some (measured at p) else rest

module _ (pre : Bytes) (p : Pair) (h : IsPair p) (post buffer : Bytes)
    (e : buffer ≡ pre ++ (p.name ++ (0 ∷ (p.value ++ (0 ∷ post))))) where
  has_name-strcmp :
      (name : Bytes)
      → IsText name
      → has_name buffer name (some (length pre)) ≡ some (strcmp p.name name)
  unfolding has_name
  has_name-strcmp name k =
      ap (λ b. strcmp_is_zero (drop (length pre) b) name) e
      ∙ ap (λ s. strcmp_is_zero s name) (drop-append pre (p.name ++ (0 ∷ (p.value ++ (0 ∷ post)))))
      ∙ strcmp_is_zero-strcmp (p.value ++ (0 ∷ post)) p.name name h.name-IsName k

  value_text : take (length p.value) (drop (value_place (length pre) p) buffer) ≡ p.value
  value_text =
      ap (λ b. take (length p.value) (drop (value_place (length pre) p) b))
        (e ∙ sym (append_assoc pre p.name (0 ∷ (p.value ++ (0 ∷ post)))))
      ∙ ap (take (length p.value)) (value_here pre p 0 post)
      ∙ take-append p.value (0 ∷ post)

next_pair :
    (pre : Bytes) (p r : Pair) (ps : List Pair) (buffer post : Bytes)
    → buffer ≡ pre ++ terminated p (r ∷ ps) (0 ∷ post)
    → buffer ≡ (before pre p ++ (0 ∷ [])) ++ terminated r ps (0 ∷ post)
unfolding terminated
next_pair pre p r ps buffer post e =
    e
    ∙ sym (
        append_assoc (before pre p) (0 ∷ []) (terminated r ps (0 ∷ post))
        ∙ before-terminated pre p 0 (terminated r ps (0 ∷ post)))

next_place : (pre : Bytes) (p : Pair) → length (before pre p ++ (0 ∷ [])) ≡ behind (length pre) p
next_place pre p =
    let f = length-append (before pre p) (0 ∷ []) in let g = length-before pre p in omega arith

find_item-step :
    (b : Bool) (n : ℕ) (buffer name : Bytes) (item : Item) (items : List Item) (r : Option Item)
    → has_name buffer name item.name ≡ some b
    → find_item n buffer name items ≡ some r
    → find_item (suc n) buffer name (item ∷ items) ≡ some (if b then some item else r)
unfolding find_item
find_item-step true n buffer name item items r e h = rw e refl
find_item-step false n buffer name item items r e h = rw e h

pointed_text-if :
    (b : Bool) (at : ℕ) (p : Pair) (buffer : Bytes) (r : Option Item) (v : Option Bytes)
    → take (length p.value) (drop (value_place at p) buffer) ≡ p.value
    → pointed_text buffer (pointer_and_length r) ≡ v
    → pointed_text buffer (pointer_and_length (if b then some (measured at p) else r))
      ≡ (if b then some p.value else v)
pointed_text-if true at p buffer r v e h = ap some e
pointed_text-if false at p buffer r v e h = h

module _ (name post : Bytes) (k : IsText name) where
  find_item-item_named :
      (ps : List Pair) (p : Pair) (pre buffer : Bytes) (free : List Item)
      → ArePairs p ps
      → length ps < length free
      → buffer ≡ pre ++ terminated p ps (0 ∷ post)
      → find_item (suc (length ps)) buffer name (measured_items (length pre) p ps free)
        ≡ some (item_named (length pre) name p ps)
  unfolding terminated measured_items item_named
  find_item-item_named ps p pre buffer [] h room e = absurd (omega arith)
  find_item-item_named [] p pre buffer (x ∷ free) (one_pair h) room e =
      let nothing : find_item 0 buffer name free ≡ some none = unfold find_item in refl in
      find_item-step _ 0 buffer name (measured (length pre) p) free none
        (has_name-strcmp pre p h post buffer e name k) nothing
  find_item-item_named (r ∷ ps) p pre buffer (x ∷ free) (another_pair h hs) room e =
      let f = next_place pre p in
      let rest =
        find_item-item_named ps r (before pre p ++ (0 ∷ [])) buffer free hs (omega arith)
          (next_pair pre p r ps buffer post e) in
      find_item-step _ (suc (length ps)) buffer name (measured (length pre) p) _ _
        (has_name-strcmp pre p h (terminated r ps (0 ∷ post)) buffer e name k)
        (sym (ap (λ j. find_item (suc (length ps)) buffer name (measured_items j r ps free)) f)
          ∙ rest
          ∙ ap (λ j. some (item_named j name r ps)) f)

  pointed_text-value_named :
      (ps : List Pair) (p : Pair) (pre buffer : Bytes)
      → ArePairs p ps
      → buffer ≡ pre ++ terminated p ps (0 ∷ post)
      → pointed_text buffer (pointer_and_length (item_named (length pre) name p ps))
        ≡ value_named name p ps
  unfolding terminated item_named value_named
  pointed_text-value_named [] p pre buffer (one_pair h) e =
      pointed_text-if (strcmp p.name name) (length pre) p buffer none none
        (value_text pre p h post buffer e) refl
  pointed_text-value_named (r ∷ ps) p pre buffer (another_pair h hs) e =
      pointed_text-if (strcmp p.name name) (length pre) p buffer _ _
        (value_text pre p h (terminated r ps (0 ∷ post)) buffer e)
        (ap (λ j. pointed_text buffer (pointer_and_length (item_named j name r ps)))
            (sym (next_place pre p))
          ∙ pointed_text-value_named ps r (before pre p ++ (0 ∷ [])) buffer hs
              (next_pair pre p r ps buffer post e))

-- What a handler reads of the query of a request under a name.
abbrev pub looked_up : List Item → Bytes → ℕ → Bytes → Run (Option Bytes)
looked_up target buffer value_length name = do
  done ← finalize_generic_get_field target buffer value_length
  r ← get_pointer_to_get_item_value done.0.buffer (some done.0.target) done.0.target_number name
  some (pointed_text done.0.buffer r)

-- After a query of at most 128 pairs `name=value` with `&` between them, whose names have no line end,
-- `=` or `&` and whose values have no line end or `&`, and for which the array has items,
-- `getPointerToGETItemValue` gives for any name, in which no terminator stands, the value of the first
-- pair that has it, or the null pointer if none has.
pub get_pointer_to_get_item_value-value_named :
    (p : Pair) (ps : List Pair) (c : ℕ) (post : Bytes) (target : List Item) (name : Bytes)
    → ArePairs p ps
    → length ps < max_variable_count
    → length ps < length target
    → IsText name
    → looked_up target (query p ps (c ∷ post)) (length (query p ps [])) name
      ≡ some (value_named name p ps)
unfolding get_pointer_to_get_item_value get_get_item_from_name
get_pointer_to_get_item_value-value_named p ps c post target name h few room k =
    let buffer = terminated p ps (0 ∷ post) in
    let count : min (suc (length ps)) 128 ≡ suc (length ps) = omega arith in
    rw
      (
        finalize_generic_get_field-pairs p ps c post target h room,
        count,
        find_item-item_named name post k ps p [] buffer target h room refl,
      )
      (ap some (pointed_text-value_named name post k ps p [] buffer h refl))
