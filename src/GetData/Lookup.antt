-- ===== src/GetData/Lookup.antt =====
-- `getGETItemFromName` and `getPointerToGETItemValue` of src/AmmServerlib/header_analysis/get_data.c.
-- The name that is looked for is its text, the terminator left out.
use ammar_server.Base.{
  ℕ, zero, suc, Bool, false, List, [], ◌∷◌, Option, none, some, Bytes, drop, min, ◌==◌, ◌>>=◌,
  if◌then◌else◌,
}
use ammar_server.GetData.{Run, Item, max_variable_count}

-- `strcmp(p->name,nameToLookFor) == 0`
unfoldable pub strcmp_is_zero : Bytes → Bytes → Run Bool
strcmp_is_zero [] name = none
strcmp_is_zero (c ∷ s) [] = some (c == 0)
strcmp_is_zero (c ∷ s) (d ∷ name) =
    let rest = strcmp_is_zero s name in if c == d then rest else some false

unfoldable pub has_name : Bytes → Bytes → Option ℕ → Run Bool
unfolding strcmp_is_zero
has_name buffer name none = some false
has_name buffer name (some at) = strcmp_is_zero (drop at buffer) name

-- The loop, with `PNum` rounds.
unfoldable pub find_item : ℕ → Bytes → Bytes → List Item → Run (Option Item)
unfolding has_name
find_item zero buffer name items = some none
find_item (suc n) buffer name [] = none
find_item (suc n) buffer name (item ∷ items) = do
  found ← has_name buffer name item.name
  let rest = find_item n buffer name items
  if found then some (some item) else rest

-- The array is the null pointer or the items.
unfoldable pub get_get_item_from_name : Bytes → Option (List Item) → ℕ → Bytes → Run (Option Item)
unfolding find_item
get_get_item_from_name buffer none number name = some none
get_get_item_from_name buffer (some items) number name =
    find_item (min number max_variable_count) buffer name items

-- The pointer and its length.
abbrev pub pointer_and_length : Option Item → Option ℕ × ℕ
pointer_and_length none = (none, 0)
pointer_and_length (some item) = (item.value, item.value_size)

unfoldable pub get_pointer_to_get_item_value :
    Bytes → Option (List Item) → ℕ → Bytes → Run (Option ℕ × ℕ)
unfolding get_get_item_from_name
get_pointer_to_get_item_value buffer items number name = do
  item ← get_get_item_from_name buffer items number name
  some (pointer_and_length item)
