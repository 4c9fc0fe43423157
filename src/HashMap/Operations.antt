-- ===== src/HashMap/Operations.antt =====
-- The operations of src/Hashmap/hashmap.c that add, remove and look up.
use ammar_server.Base.{
  ℕ, zero, suc, ◌+◌, ◌-◌, ◌/◌, ◌%◌, Bool, true, false, not, ◌&&◌, List, Option, none, some, Bytes,
  length, get_elem?, set, ltb, leb, ◌==◌, if◌then◌else◌,
}
use ammar_server.Base.Text.{strcmp}
use ammar_server.HashMap.{
  uint, hash_function, Entry, HashMap, Run, Lookup, hit, miss, crash, zero_entry, hash_map_grow,
  hash_map_is_ok, hash_map_prepare_for_queries, find_index_serial,
  find_index_serial_with_precomputed_hash, count_hit, live,
}

-- What the allocator answers in one call of `hashMap_Add`.
pub record Allocator : Type 0 where
  pub grow_ok : Bool
  pub key_ok : Bool
  pub payload_ok : Bool

unfoldable pub key_fails : Option Bytes → Bool → Bool
key_fails none ok = false
key_fails (some k) ok = not ok

-- `NUMBER_OF_ENTRIES_BELOW_IT_IS_NOT_WORTH_SORTING`
abbrev pub worth_sorting : ℕ
worth_sorting = 30

module _ {V : Type 0} where
  -- A key that is stored, with its length and its hash; with no key the entry keeps a null key.
  unfoldable pub store_key : Entry V → ℕ → Option Bytes → Entry V
  store_key e our_index none = record e { key = none; index = our_index }
  store_key e our_index (some k) = record e {
    index = our_index;
    key = some k;
    key_length = length k % uint;
    key_hash = hash_function (some k);
  }

  -- `none` is a copy from a null value, or into a buffer that was not allocated, behind the branch
  -- that reports it.
  unfoldable pub store_payload : Entry V → Option V → ℕ → Bool → Run (Entry V)
  store_payload e val val_length payload_ok =
      if val_length == 0 then some (record e { payload = val; payload_length = 0 }) else elim val [
        | none ↦ none
        | some v ↦
            if payload_ok
            then some (record e { payload = some v; payload_length = val_length })
            else none
      ]

  unfoldable pub add_entry :
      HashMap V → Option Bytes → Option V → ℕ → Allocator → Run (HashMap V × Bool)
  unfolding key_fails store_key store_payload
  add_entry hm key val val_length a =
      let our_index = hm.cur_number_of_entries in
      elim (get_elem? hm.entries our_index) [
        | none ↦ none
        | some e ↦
            if key_fails key a.key_ok
            then some (
              record hm {
                entries = set hm.entries our_index (record e { key = none; index = our_index });
              },
              false,
            )
            else elim (store_payload (store_key e our_index key) val val_length a.payload_ok) [
              | none ↦ none
              | some e' ↦ some (
                record hm {
                  entries = set hm.entries our_index e';
                  cur_number_of_entries = (our_index + 1) % uint;
                  is_sorted = false;
                },
                true,
              )
            ]
      ]

  -- `hashMap_Add`. Where the map could not grow nothing is stored, and the result is 1 all the same.
  unfoldable pub hash_map_add :
      HashMap V → Option Bytes → Option V → ℕ → Allocator → Run (HashMap V × Bool)
  unfolding add_entry
  hash_map_add hm key val val_length a =
      let (grown, done) = hash_map_grow hm hm.entry_allocation_step a.grow_ok in
      if not (hash_map_is_ok hm)
      then some (hm, false)
      else if ltb hm.cur_number_of_entries hm.max_number_of_entries
      then add_entry hm key val val_length a
      else if done
      then add_entry grown key val val_length a
      else some (record hm { is_sorted = false }, true)

  -- The last entry takes the place of the one at `i`, and its own place is cleared.
  unfoldable pub fill_gap : List (Entry V) → ℕ → ℕ → List (Entry V)
  fill_gap es i last = elim (get_elem? es last) [
    | none ↦ es
    | some e ↦ let moved = if i == last then es else set es i e in set moved last zero_entry
  ]

  unfoldable pub remove_at : HashMap V → ℕ → HashMap V
  unfolding fill_gap
  remove_at hm i =
      let last = hm.cur_number_of_entries - 1 in
      record hm {
        entries = fill_gap hm.entries i last;
        cur_number_of_entries = last;
        is_sorted = false;
      }

  -- `hashMap_RemoveKey`
  unfoldable pub hash_map_remove_key : HashMap V → Bytes → Run (HashMap V × Bool)
  unfolding remove_at
  hash_map_remove_key hm key =
      if not (hash_map_is_ok hm) then some (hm, false) else elim (find_index_serial hm key) [
        | hit i ↦ some (remove_at (count_hit hm i) i, true)
        | miss ↦ some (hm, false)
        | crash ↦ none
      ]

  -- `bsearch` of the C library with `cmpHashTableItems`, on the entries from `l` up to `u`.
  unfoldable pub bsearch : ℕ → ℕ → List (Entry V) → ℕ → ℕ → Option ℕ
  bsearch zero key_hash es l u = none
  bsearch (suc fuel) key_hash es l u =
      let idx = (l + u) / 2 in
      let below = bsearch fuel key_hash es l idx in
      let above = bsearch fuel key_hash es (idx + 1) u in
      if ltb l u
      then elim (get_elem? es idx) [
        | none ↦ none
        | some e ↦
            if ltb key_hash e.key_hash
            then below
            else if ltb e.key_hash key_hash
            then above
            else some idx
      ]
      else none

  -- Behind a result of `bsearch` at `i`: the `index` field there, which may be stale, is checked
  -- against the bound and against the key.
  unfoldable pub check_index : HashMap V → Bytes → ℕ → ℕ → Lookup
  check_index hm key key_hash index =
      if leb hm.cur_number_of_entries index then miss else elim (get_elem? hm.entries index) [
        | none ↦ crash
        | some e ↦ elim e.key [
          | none ↦ crash
          | some stored ↦
              if strcmp key stored
              then hit index
              else find_index_serial_with_precomputed_hash hm key key_hash
        ]
      ]

  -- `hashMap_BSearch`
  unfoldable pub hash_map_bsearch : HashMap V → Bytes → ℕ → Lookup
  unfolding check_index
  hash_map_bsearch hm key key_hash =
      let n = hm.cur_number_of_entries in
      if not hm.use_sorting then miss else elim (bsearch (n + 1) key_hash (live hm) 0 n) [
        | none ↦ miss
        | some i ↦ elim (get_elem? hm.entries i) [
          | none ↦ crash
          | some e ↦ check_index hm key key_hash e.index
        ]
      ]

  -- The test of `hashMap_FindIndex` on the caller's guess, which compares hashes only.
  unfoldable pub guessed : HashMap V → ℕ → ℕ → Bool
  guessed hm key_hash index =
      if ltb index hm.cur_number_of_entries
      then elim (get_elem? hm.entries index) [ none ↦ false | some e ↦ e.key_hash == key_hash ]
      else false

  -- The search of `hashMap_FindIndex` behind its preparation; `index` is the caller's guess.
  unfoldable pub search_prepared : HashMap V → Bytes → ℕ → ℕ → Lookup
  search_prepared hm key key_hash index =
      if guessed hm key_hash index
      then hit index
      else if hm.is_sorted && hm.use_sorting && ltb worth_sorting hm.cur_number_of_entries
      then hash_map_bsearch hm key key_hash
      else find_index_serial_with_precomputed_hash hm key key_hash

  unfoldable pub prepared : HashMap V → HashMap V
  prepared hm =
      if not hm.is_sorted && hm.use_sorting then (hash_map_prepare_for_queries hm).0 else hm

  -- The binary search went on to the serial one: the key at the index that it found is another.
  unfoldable pub falls_back : HashMap V → Bytes → ℕ → Bool
  falls_back hm key index =
      if leb hm.cur_number_of_entries index then false else elim (get_elem? hm.entries index) [
        | none ↦ false
        | some e ↦ elim e.key [ none ↦ false | some stored ↦ not (strcmp key stored) ]
      ]

  unfoldable pub bsearch_falls_back : HashMap V → Bytes → ℕ → Bool
  unfolding falls_back
  bsearch_falls_back hm key key_hash =
      let n = hm.cur_number_of_entries in
      elim (bsearch (n + 1) key_hash (live hm) 0 n) [
        | none ↦ false
        | some i ↦ elim (get_elem? hm.entries i) [
          | none ↦ false
          | some e ↦ falls_back hm key e.index
        ]
      ]

  -- A hit is counted where the guess was right and by the serial search, but not where the binary
  -- search itself found the key.
  unfoldable pub counts_hit : HashMap V → Bytes → ℕ → ℕ → Bool
  counts_hit hm key key_hash index =
      if guessed hm key_hash index
      then true
      else if hm.is_sorted && hm.use_sorting && ltb worth_sorting hm.cur_number_of_entries
      then bsearch_falls_back hm key key_hash
      else true

  unfoldable pub after_search : HashMap V → Bool → Lookup → HashMap V × Lookup
  after_search hm counts (hit i) = (if counts then count_hit hm i else hm, hit i)
  after_search hm counts miss = (hm, miss)
  after_search hm counts crash = (hm, crash)

  -- `hashMap_FindIndex`
  unfoldable pub find_index : HashMap V → Bytes → ℕ → HashMap V × Lookup
  unfolding prepared search_prepared counts_hit after_search
  find_index hm key index =
      let key_hash = hash_function (some key) in
      if not (hash_map_is_ok hm)
      then (hm, miss)
      else after_search (prepared hm) (counts_hit (prepared hm) key key_hash index)
          (search_prepared (prepared hm) key key_hash index)

  -- `hashMap_ContainsKey`: the guess is the first entry.
  unfoldable pub hash_map_contains_key : HashMap V → Bytes → HashMap V × Lookup
  hash_map_contains_key hm key = find_index hm key 0

  -- The entry at an index below the number of entries.
  unfoldable pub entry_at : HashMap V → ℕ → Option (Entry V)
  entry_at hm index =
      if not (hash_map_is_ok hm)
      then none
      else if leb hm.cur_number_of_entries index
      then none
      else get_elem? hm.entries index

  unfoldable pub hash_map_get_key_at_index : HashMap V → ℕ → Option Bytes
  unfolding entry_at
  hash_map_get_key_at_index hm index = elim (entry_at hm index) [ none ↦ none | some e ↦ e.key ]

  unfoldable pub hash_map_get_hash_at_index : HashMap V → ℕ → ℕ
  unfolding entry_at
  hash_map_get_hash_at_index hm index = elim (entry_at hm index) [ none ↦ 0 | some e ↦ e.key_hash ]

  unfoldable pub hash_map_get_payload_at_index : HashMap V → ℕ → Option V
  unfolding entry_at
  hash_map_get_payload_at_index hm index = elim (entry_at hm index) [
    | none ↦ none
    | some e ↦ e.payload
  ]

  -- `hashmap_SwapRecords`; the flag is the success of `malloc`.
  unfoldable pub hash_map_swap_records : HashMap V → ℕ → ℕ → Bool → HashMap V × Bool
  unfolding entry_at
  hash_map_swap_records hm index1 index2 ok = elim (entry_at hm index1) [
    | none ↦ (hm, false)
    | some e1 ↦ elim (entry_at hm index2) [
      | none ↦ (hm, false)
      | some e2 ↦
          if ok
          then (record hm { entries = set (set hm.entries index1 e2) index2 e1 }, true)
          else (hm, false)
    ]
  ]
