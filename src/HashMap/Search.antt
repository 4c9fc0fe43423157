-- ===== src/HashMap/Search.antt =====
-- `hashMap_FindIndex` and `hashMap_BSearch` of src/Hashmap/hashmap.c.
use ammar_server.Base.{
  ℕ, zero, suc, ◌+◌, ◌<◌, ◌≡◌, ◌≢◌, refl, sym, ap, ◌∙◌, true, false, ◌&&◌, List, [], ◌∷◌, some,
  Bytes, get_elem?, take, ltb, leb, ◌==◌, inl, inr, ◌⊎◌, arith, Bool-cases, Option-cases,
}
use ammar_server.Base.Text.{strcmp, strcmp_iff}
use ammar_server.HashMap.{
  hash_function, Entry, HashMap, hit, miss, crash, find_serial,
  find_index_serial_with_precomputed_hash, live,
}
use ammar_server.HashMap.Operations.{
  bsearch, check_index, hash_map_bsearch, guessed, search_prepared, worth_sorting,
}

hit-ne-miss : {i : ℕ} → miss ≢ hit i
hit-ne-miss h = cc

hit-ne-crash : {i : ℕ} → crash ≢ hit i
hit-ne-crash h = cc

hit-injective : {i j : ℕ} → hit i ≡ hit j → i ≡ j
hit-injective h = cc

true-ne-false : false ≢ true
true-ne-false h = cc

module _ {V : Type 0} where
  -- The entry that is found has the key, or it is the caller's guess and has the hash of the key.
  pub record Found (hm : HashMap V) (key : Bytes) (index i : ℕ) : Type 0 where
    pub entry : Entry V
    pub below : i < hm.cur_number_of_entries
    pub at : get_elem? hm.entries i ≡ some entry
    pub right : (entry.key ≡ some key) ⊎ ((i ≡ index) × (entry.key_hash ≡ hash_function (some key)))

  pub record Here (key : Bytes) (es : List (Entry V)) (i j : ℕ) : Type 0 where
    pub offset : ℕ
    pub entry : Entry V
    pub place : j ≡ i + offset
    pub at : get_elem? es offset ≡ some entry
    pub same_key : entry.key ≡ some key

  Here-later :
      (key : Bytes) (e : Entry V) (es : List (Entry V)) (i j : ℕ)
      → Here key es (i + 1) j
      → Here key (e ∷ es) i j
  Here-later key e es i j w = record {
    offset = suc w.offset;
    entry = w.entry;
    place = omega (arith, w.place);
    at = w.at;
    same_key = w.same_key;
  }

  pub find_serial-Here :
      (key : Bytes) (key_hash : ℕ) (es : List (Entry V)) (i j : ℕ)
      → find_serial key key_hash es i ≡ hit j
      → Here key es i j
  unfolding find_serial
  find_serial-Here key key_hash [] i j h = absurd (hit-ne-miss h)
  find_serial-Here key key_hash (e ∷ es) i j h =
      let later : find_serial key key_hash es (i + 1) ≡ hit j → Here key (e ∷ es) i j =
        λ x. Here-later key e es i j (find_serial-Here key key_hash es (i + 1) j x) in
      elim (Bool-cases (e.key_hash == key_hash)) [
        | inr other ↦ later (rw other at h)
        | inl same ↦ elim (Option-cases e.key) [
          | inl x ↦ absurd (hit-ne-crash (rw (same, x, find_serial) at h))
          | inr (k, x) ↦ elim (Bool-cases (strcmp key k)) [
            | inr ne ↦ later (rw (same, x, find_serial, ne) at h)
            | inl eq ↦
                let here : hit i ≡ hit j = rw (same, x, find_serial, eq) at h in
                record {
                  offset = 0;
                  entry = e;
                  place = let z : i ≡ j = hit-injective here in omega arith;
                  at = refl;
                  same_key = x ∙ ap some (sym ((strcmp_iff key k).0 eq));
                }
          ]
        ]
      ]

  pub get_elem?-take :
      (n k : ℕ) (es : List (Entry V)) (e : Entry V)
      → get_elem? (take n es) k ≡ some e
      → (get_elem? es k ≡ some e) × (k < n)
  get_elem?-take zero k [] e h = cc
  get_elem?-take zero k (f ∷ es) e h = cc
  get_elem?-take (suc n) k [] e h = cc
  get_elem?-take (suc n) zero (f ∷ es) e h = (h, omega arith)
  get_elem?-take (suc n) (suc k) (f ∷ es) e h =
      let (at, l) = get_elem?-take n k es e h in (at, omega arith)

  serial-Found :
      (hm : HashMap V) (key : Bytes) (key_hash index i : ℕ)
      → find_index_serial_with_precomputed_hash hm key key_hash ≡ hit i
      → Found hm key index i
  unfolding find_index_serial_with_precomputed_hash
  serial-Found hm key key_hash index i h =
      let w = find_serial-Here key key_hash (live hm) 0 i h in
      let z : w.offset ≡ i = omega (arith, w.place) in
      let (at, l) = get_elem?-take hm.cur_number_of_entries i hm.entries w.entry (rw z at w.at) in
      record { entry = w.entry; below = l; at = at; right = inl w.same_key }

  check_index-Found :
      (hm : HashMap V) (key : Bytes) (key_hash index guess i : ℕ)
      → check_index hm key key_hash index ≡ hit i
      → Found hm key guess i
  unfolding check_index
  check_index-Found hm key key_hash index guess i h =
      elim (Bool-cases (leb hm.cur_number_of_entries index)) [
        | inl out ↦ absurd (hit-ne-miss (rw out at h))
        | inr inside ↦ elim (Option-cases (get_elem? hm.entries index)) [
          | inl x ↦ absurd (hit-ne-crash (rw (inside, x, check_index) at h))
          | inr (e, x) ↦ elim (Option-cases e.key) [
            | inl y ↦ absurd (hit-ne-crash (rw (inside, x, check_index, y) at h))
            | inr (k, y) ↦ elim (Bool-cases (strcmp key k)) [
              | inr ne ↦
                  serial-Found hm key key_hash guess i (rw (inside, x, check_index, y, ne) at h)
              | inl eq ↦
                  let here : hit index ≡ hit i = rw (inside, x, check_index, y, eq) at h in
                  let z : index ≡ i = hit-injective here in
                  record {
                    entry = e;
                    below = rw (← z) (ground arith);
                    at = rw (← z) x;
                    right = inl (y ∙ ap some (sym ((strcmp_iff key k).0 eq)));
                  }
            ]
          ]
        ]
      ]

  hash_map_bsearch-Found :
      (hm : HashMap V) (key : Bytes) (key_hash guess i : ℕ)
      → hash_map_bsearch hm key key_hash ≡ hit i
      → Found hm key guess i
  unfolding hash_map_bsearch
  hash_map_bsearch-Found hm key key_hash guess i h = elim (Bool-cases hm.use_sorting) [
    | inr off ↦ absurd (hit-ne-miss (rw off at h))
    | inl on ↦
        elim (Option-cases
          (bsearch (hm.cur_number_of_entries + 1) key_hash (live hm) 0 hm.cur_number_of_entries)) [
            | inl x ↦ absurd (hit-ne-miss (rw (on, x, hash_map_bsearch) at h))
            | inr (m, x) ↦ elim (Option-cases (get_elem? hm.entries m)) [
              | inl y ↦ absurd (hit-ne-crash (rw (on, x, hash_map_bsearch, y) at h))
              | inr (e, y) ↦
                  check_index-Found hm key key_hash e.index guess i
                    (rw (on, x, hash_map_bsearch, y) at h)
            ]
          ]
  ]

  pub guessed-entry :
      (hm : HashMap V) (key : Bytes) (index : ℕ)
      → guessed hm (hash_function (some key)) index ≡ true
      → (e : Entry V) × (index < hm.cur_number_of_entries)
        × (get_elem? hm.entries index ≡ some e)
        × (e.key_hash ≡ hash_function (some key))
  unfolding guessed
  guessed-entry hm key index g = elim (Bool-cases (ltb index hm.cur_number_of_entries)) [
    | inr out ↦ absurd (true-ne-false (rw (out, guessed) at g))
    | inl l ↦ elim (Option-cases (get_elem? hm.entries index)) [
      | inl x ↦ absurd (true-ne-false (rw (l, guessed, x) at g))
      | inr (e, x) ↦
          let same : (e.key_hash == hash_function (some key)) ≡ true = rw (l, guessed, x) at g in
          (e, ground arith, x, ground arith)
    ]
  ]

  -- An index that the search of a prepared map reports is below the number of entries, and the entry
  -- there has the key, or it is the guess of the caller and has at least the hash of the key.
  pub search_prepared-Found :
      (hm : HashMap V) (key : Bytes) (index i : ℕ)
      → search_prepared hm key (hash_function (some key)) index ≡ hit i
      → Found hm key index i
  unfolding search_prepared
  search_prepared-Found hm key index i h =
      elim (Bool-cases (guessed hm (hash_function (some key)) index)) [
        | inl g ↦
            let (e, l, x, same) = guessed-entry hm key index g in
            let here : hit index ≡ hit i = rw g at h in
            let z : index ≡ i = hit-injective here in
            record { entry = e; below = rw (← z) l; at = rw (← z) x; right = inr (sym z, same) }
        | inr g ↦
            elim (Bool-cases
              (hm.is_sorted && hm.use_sorting && ltb worth_sorting hm.cur_number_of_entries)) [
                | inl big ↦ hash_map_bsearch-Found hm key _ index i (rw (g, big) at h)
                | inr small ↦ serial-Found hm key _ index i (rw (g, small) at h)
              ]
      ]
