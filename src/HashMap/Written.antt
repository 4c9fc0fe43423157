-- ===== src/HashMap/Written.antt =====
-- Writing an entry of a map of src/Hashmap/hashmap.c without changing its key.
use ammar_server.Base.{
  some_eq, ◌%◌, ℕ, zero, suc, ◌+◌, ◌<◌, ◌≡◌, refl, sym, ap, ◌∙◌, true, false, List, [], ◌∷◌, Option,
  none, some, Bytes, length, get_elem?, set, take, leb, ◌==◌, if◌then◌else◌, arith, inl, inr,
  Bool-cases, get_elem?-set_self,
}
use ammar_server.Base.Text.{strcmp}
use ammar_server.HashMap.{
  uint, hash_function, Entry, HashMap, Lookup, hit, crash, find_serial,
  find_index_serial_with_precomputed_hash, find_index_serial, count_hit, hash_map_is_ok,
  is_empty_list,
}
use ammar_server.HashMap.Operations.{entry_at}

-- One round of the serial search.
abbrev round : Bytes → ℕ → ℕ → Option Bytes → ℕ → Lookup → Lookup
round key key_hash stored_hash stored_key k rest =
    if stored_hash == key_hash
    then elim stored_key [ none ↦ crash | some stored ↦ if strcmp key stored then hit k else rest ]
    else rest

module _ {V : Type 0} where
  -- The map with another entry at a place.
  abbrev pub with_entry : HashMap V → ℕ → Entry V → HashMap V
  with_entry hm i e = record hm { entries = set hm.entries i e }

  pub set-set : (es : List (Entry V)) (i : ℕ) (e f : Entry V) → set (set es i e) i f ≡ set es i f
  set-set [] i e f = refl
  set-set (x ∷ es) zero e f = refl
  set-set (x ∷ es) (suc i) e f = ap (◌∷◌ x) (set-set es i e f)

  place_taken :
      (es : List (Entry V)) (i : ℕ) (e : Entry V) → get_elem? es i ≡ some e → i < length es
  place_taken [] i e h = cc
  place_taken (x ∷ es) zero e h = omega arith
  place_taken (x ∷ es) (suc i) e h = let k = place_taken es i e h in omega arith

  set-is_empty_list :
      (es : List (Entry V)) (i : ℕ) (e : Entry V) → is_empty_list (set es i e) ≡ is_empty_list es
  unfolding is_empty_list
  set-is_empty_list [] i e = refl
  set-is_empty_list (x ∷ es) zero e = refl
  set-is_empty_list (x ∷ es) (suc i) e = refl

  find_serial-set :
      (key : Bytes) (key_hash n : ℕ) (es : List (Entry V)) (i k : ℕ) (e e' : Entry V)
      → get_elem? es i ≡ some e
      → e'.key_hash ≡ e.key_hash
      → e'.key ≡ e.key
      → find_serial key key_hash (take n (set es i e')) k ≡ find_serial key key_hash (take n es) k
  unfolding find_serial
  find_serial-set key key_hash zero es i k e e' h same_hash same_key = refl
  find_serial-set key key_hash (suc n) [] i k e e' h same_hash same_key = refl
  find_serial-set key key_hash (suc n) (x ∷ es) zero k e e' h same_hash same_key =
      let here : x ≡ e = some_eq h in
      let rest = find_serial key key_hash (take n es) (k + 1) in
      ap (λ q. round key key_hash q e'.key k rest) (same_hash ∙ sym (ap (λ y. y.key_hash) here))
      ∙ ap (λ q. round key key_hash x.key_hash q k rest) (same_key ∙ sym (ap (λ y. y.key) here))
  find_serial-set key key_hash (suc n) (x ∷ es) (suc i) k e e' h same_hash same_key =
      ap (round key key_hash x.key_hash x.key k)
        (find_serial-set key key_hash n es i (k + 1) e e' h same_hash same_key)

  pub with_entry-find_index_serial :
      (hm : HashMap V) (i : ℕ) (e e' : Entry V)
      → get_elem? hm.entries i ≡ some e
      → e'.key_hash ≡ e.key_hash
      → e'.key ≡ e.key
      → (key : Bytes) → find_index_serial (with_entry hm i e') key ≡ find_index_serial hm key
  unfolding find_index_serial find_index_serial_with_precomputed_hash
  with_entry-find_index_serial hm i e e' h same_hash same_key key =
      find_serial-set key (hash_function (some key)) hm.cur_number_of_entries hm.entries i 0 e e' h
        same_hash same_key

  pub entry_at-some :
      (hm : HashMap V) (i : ℕ) (e : Entry V)
      → entry_at hm i ≡ some e
      → (hash_map_is_ok hm ≡ true)
        × ((leb hm.cur_number_of_entries i ≡ false) × (get_elem? hm.entries i ≡ some e))
  unfolding entry_at
  entry_at-some hm i e h = elim (Bool-cases (hash_map_is_ok hm)) [
    | inr bad ↦ absurd (cc (rw bad at h))
    | inl ok ↦ elim (Bool-cases (leb hm.cur_number_of_entries i)) [
      | inl out ↦ absurd (cc (rw (ok, out) at h))
      | inr inside ↦ (ok, (inside, rw (ok, inside) at h))
    ]
  ]

  with_entry-hash_map_is_ok :
      (hm : HashMap V) (i : ℕ) (e : Entry V)
      → hash_map_is_ok (with_entry hm i e) ≡ hash_map_is_ok hm
  unfolding hash_map_is_ok
  with_entry-hash_map_is_ok hm i e =
      ap (λ b. if b then false else if hm.max_number_of_entries == 0 then false else true)
        (set-is_empty_list hm.entries i e)

  pub entry_at-with_entry :
      (hm : HashMap V) (i : ℕ) (e e' : Entry V)
      → entry_at hm i ≡ some e
      → entry_at (with_entry hm i e') i ≡ some e'
  unfolding entry_at
  entry_at-with_entry hm i e e' h =
      let (ok, (inside, there)) = entry_at-some hm i e h in
      let stored = get_elem?-set_self hm.entries i e' (place_taken hm.entries i e there) in
      rw (with_entry-hash_map_is_ok hm i e', ok, inside) stored

  pub count_hit-with_entry :
      (hm : HashMap V) (i : ℕ) (e : Entry V)
      → get_elem? hm.entries i ≡ some e
      → count_hit hm i ≡ with_entry hm i (record e { hits = (e.hits + 1) % uint })
  unfolding count_hit
  count_hit-with_entry hm i e h = rw (h, count_hit)
