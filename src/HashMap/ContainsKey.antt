-- ===== src/HashMap/ContainsKey.antt =====
-- What `hashMap_ContainsKey` of src/Hashmap/hashmap.c answers on a map that is not sorted for queries.
use ammar_server.Base.{
  ℕ, ◌<◌, ◌≡◌, refl, ap, ◌∙◌, Bool, true, false, Option, none, some, Bytes, get_elem?, ltb, ◌==◌,
  arith, inl, inr, Bool-cases, if◌then◌else◌,
}
use ammar_server.HashMap.{
  hash_function, Entry, HashMap, Lookup, hit, miss, crash, live, find_index_serial, hash_map_is_ok,
}
use ammar_server.HashMap.Operations.{
  guessed, search_prepared, prepared, after_search, find_index, hash_map_contains_key,
}
use ammar_server.HashMap.Valid.{IsValid}
use ammar_server.HashMap.View.{HaveKeys}
use ammar_server.HashMap.Added.{used_is_ok}
use ammar_server.HashMap.Keeps.{slot_there}
use ammar_server.HashMap.Search.{guessed-entry}
use ammar_server.HashMap.Contents.{value_of}
use ammar_server.HashMap.Held.{Answers, missed, found, find_index_serial-Answers}

module _ {V : Type 0} where
  -- The first entry in use has a hash.
  pub record FirstHas (hm : HashMap V) (key_hash : ℕ) : Type 0 where
    pub entry : Entry V
    pub used : 0 < hm.cur_number_of_entries
    pub stands : get_elem? hm.entries 0 ≡ some entry
    pub hashed : entry.key_hash ≡ key_hash

  FirstHas-guessed :
      (hm : HashMap V) (key_hash : ℕ) → FirstHas hm key_hash → guessed hm key_hash 0 ≡ true
  unfolding guessed
  FirstHas-guessed hm key_hash w =
      let below : ltb 0 hm.cur_number_of_entries ≡ true = let l = w.used in ground arith in
      let equal : (w.entry.key_hash == key_hash) ≡ true = let e = w.hashed in ground arith in
      rw (below, w.stands) equal

  guessed-FirstHas :
      (hm : HashMap V) (key : Bytes)
      → guessed hm (hash_function (some key)) 0 ≡ true
      → FirstHas hm (hash_function (some key))
  guessed-FirstHas hm key g =
      let (e, l, x, same) = guessed-entry hm key 0 g in
      record { entry = e; used = l; stands = x; hashed = same }

  prepared_same : (hm : HashMap V) → hm.use_sorting ≡ false → prepared hm ≡ hm
  unfolding prepared
  prepared_same hm off = elim (Bool-cases hm.is_sorted) [
    | inl sorted ↦ rw (sorted, off)
    | inr unsorted ↦ rw (unsorted, off)
  ]

  search_unsorted :
      (hm : HashMap V) (key : Bytes)
      → hm.use_sorting ≡ false
      → search_prepared hm key (hash_function (some key)) 0
        ≡ (if guessed hm (hash_function (some key)) 0 then hit 0 else find_index_serial hm key)
  unfolding search_prepared find_index_serial
  search_unsorted hm key off = elim (Bool-cases hm.is_sorted) [
    | inl sorted ↦ rw (sorted, off)
    | inr unsorted ↦ rw (unsorted, off)
  ]

  after_search_lookup :
      (hm : HashMap V) (counts : Bool) (l : Lookup) → (after_search hm counts l).1 ≡ l
  unfolding after_search
  after_search_lookup hm counts (hit i) = refl
  after_search_lookup hm counts miss = refl
  after_search_lookup hm counts crash = refl

  contains_ok :
      (hm : HashMap V) (key : Bytes)
      → hm.use_sorting ≡ false
      → hash_map_is_ok hm ≡ true
      → (hash_map_contains_key hm key).1
        ≡ (if guessed hm (hash_function (some key)) 0 then hit 0 else find_index_serial hm key)
  unfolding hash_map_contains_key find_index
  contains_ok hm key off ok = rw ok (
      after_search_lookup (prepared hm) _ _
      ∙ ap (λ h. search_prepared h key (hash_function (some key)) 0) (prepared_same hm off)
      ∙ search_unsorted hm key off)

  contains_not_ok :
      (hm : HashMap V) (key : Bytes)
      → hash_map_is_ok hm ≡ false
      → (hash_map_contains_key hm key).1 ≡ miss
  unfolding hash_map_contains_key find_index
  contains_not_ok hm key bad = rw bad refl

  not_ok_empty :
      (hm : HashMap V) → IsValid hm → hash_map_is_ok hm ≡ false → hm.cur_number_of_entries ≡ 0
  not_ok_empty hm v bad = elim (Bool-cases (ltb 0 hm.cur_number_of_entries)) [
    | inr none_used ↦ ground arith
    | inl some_used ↦
        let used : 0 < hm.cur_number_of_entries = ground arith in
        let (e, there) = slot_there hm.entries 0 (omega (arith, v.filled, v.width)) in
        let ok = used_is_ok hm 0 e there (omega (arith, v.filled)) in absurd (cc (ok, bad))
  ]

  -- An answer of `hashMap_ContainsKey` on a key, against what the map holds for it: a hit on the first
  -- entry whenever that has the hash of the key, no matter what key it has and what the map holds;
  -- otherwise a hit on an entry in use with the key where the map holds a payload for it, and a miss
  -- where it holds nothing. There is no fault.
  pub data ContainsKey (hm : HashMap V) (key : Bytes) : Lookup → Option (Option V) → Type 0 where
    first_hash :
        {o : Option (Option V)}
        → FirstHas hm (hash_function (some key))
        → ContainsKey hm key (hit 0) o
    held :
        {i : ℕ} {e : Entry V}
        → ¬ FirstHas hm (hash_function (some key))
        → i < hm.cur_number_of_entries
        → get_elem? hm.entries i ≡ some e
        → e.key ≡ some key
        → ContainsKey hm key (hit i) (some e.payload)
    not_held : ¬ FirstHas hm (hash_function (some key)) → ContainsKey hm key miss none

  Answers-ContainsKey :
      (hm : HashMap V) (key : Bytes) (l : Lookup) (o : Option (Option V))
      → ¬ FirstHas hm (hash_function (some key))
      → Answers hm key l o
      → ContainsKey hm key l o
  Answers-ContainsKey hm key miss none other missed = not_held other
  Answers-ContainsKey hm key miss (some p) other a = elim a [ ]
  Answers-ContainsKey hm key crash o other a = elim a [ ]
  Answers-ContainsKey hm key (hit i) none other a = elim a [ ]
  Answers-ContainsKey hm key (hit i) (some p) other (found l at own read) = held other l at own

  empty_value :
      (hm : HashMap V) (key : Bytes) → hm.cur_number_of_entries ≡ 0 → value_of key (live hm) ≡ none
  unfolding value_of
  empty_value hm key z = rw z refl

  not_first :
      (hm : HashMap V) (key : Bytes)
      → guessed hm (hash_function (some key)) 0 ≡ false
      → ¬ FirstHas hm (hash_function (some key))
  not_first hm key g w = let h = FirstHas-guessed hm (hash_function (some key)) w in cc

  -- For a valid map that does not use sorting and whose entries in use all have keys: the test for a key
  -- answers yes whenever the first entry in use has the hash of the key, even if it has another key and
  -- the map does not hold the one that is asked for; otherwise it answers yes exactly where the map holds
  -- the key, at the index of an entry with it, and it never faults.
  pub hash_map_contains_key-ContainsKey :
      (hm : HashMap V) (key : Bytes)
      → IsValid hm
      → HaveKeys (live hm)
      → hm.use_sorting ≡ false
      → ContainsKey hm key (hash_map_contains_key hm key).1 (value_of key (live hm))
  hash_map_contains_key-ContainsKey hm key v ks off = elim (Bool-cases (hash_map_is_ok hm)) [
    | inr bad ↦
        let z = not_ok_empty hm v bad in
        rw (contains_not_ok hm key bad, empty_value hm key z)
          (not_held (λ w. let l = w.used in absurd (omega arith)))
    | inl ok ↦ elim (Bool-cases (guessed hm (hash_function (some key)) 0)) [
      | inl g ↦ rw (contains_ok hm key off ok, g) (first_hash (guessed-FirstHas hm key g))
      | inr g ↦
          rw (contains_ok hm key off ok, g)
            (Answers-ContainsKey hm key (find_index_serial hm key) (value_of key (live hm))
              (not_first hm key g) (find_index_serial-Answers hm key v ks))
    ]
  ]
