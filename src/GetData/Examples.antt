-- ===== src/GetData/Examples.antt =====
-- The fields of concrete queries.
use ammar_server.Base.{◌≡◌, refl, true, List, [], ◌∷◌, ◌++◌, some, none, arith, length, replicate}
use ammar_server.GetData.Reading.{no_more, one_more_character}
use ammar_server.GetData.Fields.{value_end, value_character}
use ammar_server.GetData.Pairs.{Pair, ArePairs, one_pair, another_pair, query}
use ammar_server.GetData.Query.{parsed, finalize_generic_get_field-pairs}
use ammar_server.GetData.Crash.{finalize_generic_get_field-crashes}
use ammar_server.GetData.Values.{looked_up, value_named, get_pointer_to_get_item_value-value_named}
use ammar_server.GetData.{Item, zero_item, finalize_generic_get_field}

-- `a=1&b=`
abbrev first : Pair
first = record { name = b'a' ∷ []; value = b'1' ∷ [] }

abbrev second : Pair
second = record { name = b'b' ∷ []; value = [] }

abbrev two_pairs-ArePairs : ArePairs first (second ∷ [])
two_pairs-ArePairs =
    another_pair
      (record {
        name-IsName = one_more_character refl no_more;
        value-IsValue = value_character refl value_end;
      })
      (one_pair
        (record { name-IsName = one_more_character refl no_more; value-IsValue = value_end }))

abbrev four_items : List Item
four_items = replicate 4 zero_item

finalize_generic_get_field-pairs_example :
    finalize_generic_get_field four_items
      (query first (second ∷ []) (0 ∷ []))
      (length (query first (second ∷ []) []))
    ≡ some (parsed first (second ∷ []) [] four_items, true)
finalize_generic_get_field-pairs_example =
    finalize_generic_get_field-pairs first (second ∷ []) 0 [] four_items two_pairs-ArePairs
      (omega arith)

get_pointer_to_get_item_value-value_named_example :
    looked_up four_items
      (query first (second ∷ []) (0 ∷ []))
      (length (query first (second ∷ []) []))
      (b'b' ∷ [])
    ≡ some (value_named (b'b' ∷ []) first (second ∷ []))
get_pointer_to_get_item_value-value_named_example =
    get_pointer_to_get_item_value-value_named first (second ∷ []) 0 [] four_items (b'b' ∷ [])
      two_pairs-ArePairs (omega arith) (omega arith) (omega arith, tt)

finalize_generic_get_field-crashes_example :
    finalize_generic_get_field four_items ((b'a' ∷ []) ++ (b'&' ∷ (b'b' ∷ (0 ∷ [])))) 3 ≡ none
finalize_generic_get_field-crashes_example =
    finalize_generic_get_field-crashes four_items (b'a' ∷ []) (b'b' ∷ (0 ∷ [])) 3
      (one_more_character refl no_more) (omega arith)
