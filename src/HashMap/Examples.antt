-- ===== src/HashMap/Examples.antt =====
-- Small maps for src/Hashmap/hashmap.c.
use mathlib.Core.List.{[], ◌∷◌, Perm}
use ammar_server.Base.{if◌then◌else◌, none, ℕ, ◌≡◌, refl, true, false, Bytes, some, arith}
use ammar_server.Base.Text.{codes, strcmp}
use ammar_server.HashMap.{
  hash_function, hash_loop, Entry, HashMap, hit, zero_entry, hash_map_grow, hash_map_is_ok,
  is_empty_list, live, hash_map_sort, hash_map_is_sorted, find_serial,
  find_index_serial_with_precomputed_hash, find_index_serial, count_hit,
  hash_map_prepare_for_queries,
}
use ammar_server.HashMap.Operations.{
  counts_hit, after_search, Allocator, key_fails, store_key, store_payload, add_entry, hash_map_add,
  fill_gap, remove_at, hash_map_remove_key, guessed, search_prepared, prepared, find_index,
  hash_map_contains_key,
}
use ammar_server.HashMap.Valid.{IsValid}
use ammar_server.HashMap.Keeps.{hash_map_add-IsValid}
use ammar_server.HashMap.KeepsRemoval.{hash_map_remove_key-IsValid}
use ammar_server.HashMap.View.{HaveKeys, has_key}
use ammar_server.HashMap.Search.{Found, search_prepared-Found}
use ammar_server.HashMap.Contents.{value_of, AreDistinct}
use ammar_server.HashMap.Removed.{HoldsOthers, hash_map_remove_key-HoldsOthers}
use ammar_server.HashMap.Held.{Answers, find_index_serial-Answers, hash_map_add-value_of}
use ammar_server.HashMap.ContainsKey.{ContainsKey, hash_map_contains_key-ContainsKey}
use ammar_server.HashMap.Sorted.{hash_map_sort-hash_map_is_sorted}

abbrev entry : ℕ → Bytes → ℕ → Entry ℕ
entry index key value = record {
  index = index;
  key_hash = hash_function (some key);
  key_length = 2;
  key = some key;
  payload_length = 4;
  payload = some value;
  hits = 0;
}

-- A full map of two entries, whose hashes are in falling order.
abbrev two : HashMap ℕ
two = record {
  max_number_of_entries = 2;
  cur_number_of_entries = 2;
  entry_allocation_step = 2;
  entries = entry 0 (codes "to") 7 ∷ entry 1 (codes "Az") 8 ∷ [];
  clear_callback = false;
  is_sorted = false;
  use_sorting = true;
}

abbrev all_ok : Allocator
all_ok = record { grow_ok = true; key_ok = true; payload_ok = true }

two-IsValid : IsValid two
two-IsValid = record {
  width = refl;
  filled = omega arith;
  small = omega arith;
  entries_ok = ((refl, refl), ((refl, refl), tt));
}

two-HaveKeys : HaveKeys (live two)
two-HaveKeys = ((codes "to", refl, refl), ((codes "Az", refl, refl), tt))

abbrev three : HashMap ℕ
three = record two {
  max_number_of_entries = 4;
  cur_number_of_entries = 3;
  entries =
      entry 0 (codes "to") 7 ∷ entry 1 (codes "Az") 8 ∷ entry 2 (codes "us") 9 ∷ zero_entry ∷ [];
}

added : hash_map_add two (some (codes "us")) (some 9) 4 all_ok ≡ some (three, true)
unfolding hash_map_add hash_map_grow hash_map_is_ok is_empty_list add_entry key_fails store_key
    store_payload
added = refl

hash_map_add-IsValid_example : IsValid three
hash_map_add-IsValid_example =
    hash_map_add-IsValid two (some (codes "us")) (some 9) 4 all_ok (three, true) two-IsValid
      (omega arith) (omega arith) added

abbrev one : HashMap ℕ
one = record two { cur_number_of_entries = 1; entries = entry 1 (codes "Az") 8 ∷ zero_entry ∷ [] }

removed : hash_map_remove_key two (codes "to") ≡ some (one, true)
unfolding hash_map_remove_key hash_map_is_ok is_empty_list find_index_serial
    find_index_serial_with_precomputed_hash find_serial hash_function hash_loop strcmp count_hit
    remove_at fill_gap
removed = refl

hash_map_remove_key-IsValid_example : IsValid one
hash_map_remove_key-IsValid_example =
    hash_map_remove_key-IsValid two (codes "to") (one, true) two-IsValid removed

search_finds : search_prepared two (codes "Az") (hash_function (some (codes "Az"))) 0 ≡ hit 1
unfolding search_prepared guessed find_index_serial_with_precomputed_hash find_serial hash_function
    hash_loop strcmp
search_finds = refl

search_prepared-Found_example : Found two (codes "Az") 0 1
search_prepared-Found_example = search_prepared-Found two (codes "Az") 0 1 search_finds

two_is_ok : hash_map_is_ok two ≡ true
unfolding hash_map_is_ok is_empty_list
two_is_ok = refl

hash_map_sort-hash_map_is_sorted_example :
    ((hash_map_sort two).1 ≡ true)
    × (hash_map_is_sorted (hash_map_sort two).0 ≡ true)
    × Perm (live (hash_map_sort two).0) (live two)
hash_map_sort-hash_map_is_sorted_example =
    hash_map_sort-hash_map_is_sorted two two-IsValid refl two_is_ok

-- `Az` and `BY` have the same hash: a map with only `Az` answers that it holds `BY`.
wrongly_contained : (hash_map_contains_key one (codes "BY")).1 ≡ hit 0
unfolding hash_map_contains_key find_index counts_hit after_search prepared hash_map_is_ok
    is_empty_list search_prepared guessed hash_function hash_loop hash_map_prepare_for_queries
    hash_map_sort
wrongly_contained = refl

two-AreDistinct : AreDistinct (live two)
unfolding value_of has_key strcmp
two-AreDistinct = (refl, (refl, tt))

hash_map_remove_key-HoldsOthers_example : HoldsOthers (codes "to") (live one) (live two)
hash_map_remove_key-HoldsOthers_example =
    hash_map_remove_key-HoldsOthers two one (codes "to") two-IsValid two-HaveKeys two-AreDistinct
      removed

find_index_serial-Answers_example :
    Answers two (codes "Az") (find_index_serial two (codes "Az")) (value_of (codes "Az") (live two))
find_index_serial-Answers_example =
    find_index_serial-Answers two (codes "Az") two-IsValid two-HaveKeys

-- The map with only `Az`, not to be sorted.
abbrev unsorted_one : HashMap ℕ
unsorted_one = record one { use_sorting = false }

hash_map_contains_key-ContainsKey_example :
    ContainsKey unsorted_one
      (codes "BY")
      (hash_map_contains_key unsorted_one (codes "BY")).1
      (value_of (codes "BY") (live unsorted_one))
hash_map_contains_key-ContainsKey_example =
    hash_map_contains_key-ContainsKey unsorted_one (codes "BY")
      (record {
        width = refl;
        filled = omega arith;
        small = omega arith;
        entries_ok = ((refl, refl), ((refl, refl, refl), tt));
      })
      ((codes "Az", refl, refl), tt) refl

nothing_for_us : value_of (codes "us") (live two) ≡ none
unfolding value_of has_key strcmp
nothing_for_us = refl

hash_map_add-value_of_example :
    HaveKeys (live three)
    × AreDistinct (live three)
    × ((j : Bytes)
        → value_of j (live three)
          ≡ (if strcmp j (codes "us") then some (some 9) else value_of j (live two)))
hash_map_add-value_of_example =
    hash_map_add-value_of two three (codes "us") (some 9) 4 all_ok two-IsValid two-HaveKeys
      two-AreDistinct nothing_for_us (omega arith) (omega arith) refl added
