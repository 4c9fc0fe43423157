-- ===== src/GetData/Pairs.antt =====
-- Queries of names and values, src/AmmServerlib/header_analysis/get_data.c: their text, what the scan
-- leaves of it, and the items that it finds.
use mathlib.Core.List.{append_assoc}
use ammar_server.Base.{
  ℕ, suc, ◌+◌, ◌≡◌, sym, ap, ◌∙◌, List, [], ◌∷◌, ◌++◌, some, Bytes, length, set, drop, arith,
  length-append, drop-append_eq, set-append_at,
}
use ammar_server.GetData.Fields.{IsValue}
use ammar_server.GetData.Reading.{IsName}
use ammar_server.GetData.{Item}

pub record Pair : Type 0 where
  pub name : Bytes
  pub value : Bytes

pub record IsPair (p : Pair) : Type 0 where
  pub name-IsName : IsName p.name
  pub value-IsValue : IsValue p.value

pub data ArePairs : Pair → List Pair → Type 0 where
  one_pair : {p : Pair} → IsPair p → ArePairs p []
  another_pair : {p q : Pair} {ps : List Pair} → IsPair p → ArePairs q ps → ArePairs p (q ∷ ps)

-- The text of pairs, and what follows it.
unfoldable pub query : Pair → List Pair → Bytes → Bytes
query p [] post = p.name ++ (b'=' ∷ (p.value ++ post))
query p (q ∷ ps) post = p.name ++ (b'=' ∷ (p.value ++ (b'&' ∷ query q ps post)))

unfoldable pub query_size : Pair → List Pair → ℕ
query_size p [] = length p.name + suc (length p.value)
query_size p (q ∷ ps) = length p.name + suc (length p.value + suc (query_size q ps))

-- The text with its marks replaced by terminators.
unfoldable pub terminated : Pair → List Pair → Bytes → Bytes
terminated p [] post = p.name ++ (0 ∷ (p.value ++ post))
terminated p (q ∷ ps) post = p.name ++ (0 ∷ (p.value ++ (0 ∷ terminated q ps post)))

-- Where the value of a pair begins, and what begins behind it.
abbrev pub value_place : ℕ → Pair → ℕ
value_place at p = at + length p.name + 1

abbrev pub behind : ℕ → Pair → ℕ
behind at p = value_place at p + length p.value + 1

abbrev pub pointed : ℕ → Pair → Item → Item
pointed at p item = record item { name = some at; value = some (value_place at p) }

-- The items that point at pairs, in the place of those of the array.
unfoldable pub pointed_items : ℕ → Pair → List Pair → List Item → List Item
pointed_items at p ps [] = []
pointed_items at p [] (item ∷ free) = pointed at p item ∷ free
pointed_items at p (q ∷ ps) (item ∷ free) =
    pointed at p item ∷ pointed_items (behind at p) q ps free

-- The start of the last value.
unfoldable pub last_start : ℕ → Pair → List Pair → ℕ
last_start at p [] = value_place at p
last_start at p (q ∷ ps) = last_start (behind at p) q ps

pub length-query :
    (p : Pair) (ps : List Pair) (post : Bytes)
    → length (query p ps post) ≡ query_size p ps + length post
unfolding query query_size
length-query p [] post =
    let e = length-append p.name (b'=' ∷ (p.value ++ post)) in
    let f = length-append p.value post in omega arith
length-query p (q ∷ ps) post =
    let e = length-append p.name (b'=' ∷ (p.value ++ (b'&' ∷ query q ps post))) in
    let f = length-append p.value (b'&' ∷ query q ps post) in
    let g = length-query q ps post in omega arith

-- What stands before the end of a pair.
abbrev pub before : Bytes → Pair → Bytes
before pre p = (pre ++ p.name) ++ (0 ∷ p.value)

pub length-before :
    (pre : Bytes) (p : Pair)
    → length (before pre p) ≡ length pre + length p.name + 1 + length p.value
length-before pre p =
    let e = length-append (pre ++ p.name) (0 ∷ p.value) in
    let f = length-append pre p.name in omega arith

set-append_eq :
    (n : ℕ) (pre : Bytes) (x : ℕ) (post : Bytes)
    → n ≡ length pre
    → set (pre ++ (x ∷ post)) n 0 ≡ pre ++ (0 ∷ post)
set-append_eq n pre x post e = rw e (set-append_at pre x post 0)

module _ (pre : Bytes) (p : Pair) (d : ℕ) (post : Bytes) where
  pub name_ended :
      set (pre ++ (p.name ++ (b'=' ∷ (p.value ++ (d ∷ post))))) (length pre + length p.name) 0
      ≡ (pre ++ p.name) ++ (0 ∷ (p.value ++ (d ∷ post)))
  name_ended =
      ap (λ b. set b (length pre + length p.name) 0)
        (sym (append_assoc pre p.name (b'=' ∷ (p.value ++ (d ∷ post)))))
      ∙ set-append_eq (length pre + length p.name) (pre ++ p.name) b'=' (p.value ++ (d ∷ post))
          (sym (length-append pre p.name))

  pub value_ended :
      set
        ((pre ++ p.name) ++ (0 ∷ (p.value ++ (d ∷ post))))
        (length pre + length p.name + 1 + length p.value)
        0
      ≡ before pre p ++ (0 ∷ post)
  value_ended =
      ap (λ b. set b (length pre + length p.name + 1 + length p.value) 0)
        (sym (append_assoc (pre ++ p.name) (0 ∷ p.value) (d ∷ post)))
      ∙ set-append_eq (length pre + length p.name + 1 + length p.value) (before pre p) d post
          (sym (length-before pre p))

  pub value_here :
      drop (length pre + length p.name + 1) ((pre ++ p.name) ++ (0 ∷ (p.value ++ (d ∷ post))))
      ≡ p.value ++ (d ∷ post)
  value_here =
      let e = length-append (pre ++ p.name) (0 ∷ []) in
      let f = length-append pre p.name in
      ap (drop (length pre + length p.name + 1))
        (sym (append_assoc (pre ++ p.name) (0 ∷ []) (p.value ++ (d ∷ post))))
      ∙ drop-append_eq (length pre + length p.name + 1) ((pre ++ p.name) ++ (0 ∷ []))
          (p.value ++ (d ∷ post)) (omega arith)

  pub end_here :
      drop
        (length pre + length p.name + 1 + length p.value)
        ((pre ++ p.name) ++ (0 ∷ (p.value ++ (d ∷ post))))
      ≡ d ∷ post
  end_here =
      ap (drop (length pre + length p.name + 1 + length p.value))
        (sym (append_assoc (pre ++ p.name) (0 ∷ p.value) (d ∷ post)))
      ∙ drop-append_eq (length pre + length p.name + 1 + length p.value) (before pre p) (d ∷ post)
          (sym (length-before pre p))

  pub before-terminated :
      before pre p ++ (d ∷ post) ≡ pre ++ (p.name ++ (0 ∷ (p.value ++ (d ∷ post))))
  before-terminated =
      append_assoc (pre ++ p.name) (0 ∷ p.value) (d ∷ post)
      ∙ append_assoc pre p.name (0 ∷ (p.value ++ (d ∷ post)))
