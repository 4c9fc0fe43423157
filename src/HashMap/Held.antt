-- ===== src/HashMap/Held.antt =====
-- The serial search, the payloads and `hashMap_Add` of src/Hashmap/hashmap.c against what the map holds.
use mathlib.Core.Path.{subst}
use ammar_server.Base.{
  ℕ, suc, ◌+◌, ◌<◌, ◌≡◌, refl, sym, ap, ◌∙◌, true, false, List, [], ◌∷◌, Option, none, some, Bytes,
  get_elem?, leb, Option-cases, arith, inl, inr, ◌⊎◌, Bool-cases, if◌then◌else◌,
}
use ammar_server.Base.Text.{strcmp, strcmp_iff}
use ammar_server.HashMap.{uint, Entry, HashMap, Lookup, hit, miss, live, find_index_serial}
use ammar_server.HashMap.Operations.{
  Allocator, hash_map_add, entry_at, hash_map_get_payload_at_index,
}
use ammar_server.HashMap.Valid.{IsValid}
use ammar_server.HashMap.View.{HasKey, HaveKeys, has_key, first_index, HaveKeys-append}
use ammar_server.HashMap.Search.{get_elem?-take}
use ammar_server.HashMap.Added.{hash_map_add-Added, used_is_ok, find_index_serial-first_index}
use ammar_server.HashMap.Contents.{
  value_of, name, AreDistinct, has_key-name, value_of-append_some, value_of-append_none,
  append-AreDistinct,
}

module _ {V : Type 0} where
  -- A search for a key, against what the map holds for it: a miss where it holds nothing, and a hit
  -- on an entry in use with the key, whose payload can be read at the index, where it holds that
  -- payload. There is no fault.
  pub data Answers (hm : HashMap V) (key : Bytes) : Lookup → Option (Option V) → Type 0 where
    missed : Answers hm key miss none
    found :
        {i : ℕ} {e : Entry V}
        → i < hm.cur_number_of_entries
        → get_elem? hm.entries i ≡ some e
        → e.key ≡ some key
        → hash_map_get_payload_at_index hm i ≡ e.payload
        → Answers hm key (hit i) (some e.payload)

  own_key : (key : Bytes) (e : Entry V) → has_key key e ≡ true → e.key ≡ some key
  unfolding has_key
  own_key key e h = elim (Option-cases e.key) [
    | inl x ↦ absurd (cc (rw (x, has_key) at h))
    | inr (k, x) ↦
        let same : strcmp key k ≡ true = rw (x, has_key) at h in
        x ∙ ap some (sym ((strcmp_iff key k).0 same))
  ]

  pub record At (key : Bytes) (es : List (Entry V)) (i : ℕ) : Type 0 where
    pub offset : ℕ
    pub entry : Entry V
    pub index : first_index key es i ≡ hit (i + offset)
    pub stands : get_elem? es offset ≡ some entry
    pub value : value_of key es ≡ some entry.payload
    pub has : has_key key entry ≡ true

  pub first_index-value_of :
      (key : Bytes) (es : List (Entry V)) (i : ℕ)
      → ((first_index key es i ≡ miss) × (value_of key es ≡ none)) ⊎ At key es i
  unfolding first_index value_of
  first_index-value_of key [] i = inl (refl, refl)
  first_index-value_of key (e ∷ es) i = elim (Bool-cases (has_key key e)) [
    | inl y ↦
        let z : i ≡ i + 0 = omega arith in
        inr (record {
          offset = 0;
          entry = e;
          index = rw y (ap hit z);
          stands = refl;
          value = rw y;
          has = y;
        })
    | inr n ↦ elim (first_index-value_of key es (i + 1)) [
      | inl (m, v) ↦ inl (rw n m, rw n v)
      | inr w ↦
          let z : i + 1 + w.offset ≡ i + suc w.offset = omega arith in
          inr (record {
            offset = suc w.offset;
            entry = w.entry;
            index = rw n (w.index ∙ ap hit z);
            stands = w.stands;
            value = rw n w.value;
            has = w.has;
          })
    ]
  ]

  payload_there :
      (hm : HashMap V) (i : ℕ) (e : Entry V)
      → IsValid hm
      → i < hm.cur_number_of_entries
      → get_elem? hm.entries i ≡ some e
      → hash_map_get_payload_at_index hm i ≡ e.payload
  unfolding hash_map_get_payload_at_index
  payload_there hm i e v l at =
      let below : leb hm.cur_number_of_entries i ≡ false = ground arith in
      let ok = used_is_ok hm i e at (omega (arith, v.filled)) in
      let here : entry_at hm i ≡ some e = unfold entry_at in rw (ok, below) at in
      rw (here, hash_map_get_payload_at_index)

  -- For a valid map whose entries in use all have keys, the serial search for a key never faults: it
  -- misses where the map holds nothing for the key, and otherwise it gives the index of an entry in use
  -- that has the key, at which the payload that the map holds for the key is read.
  pub find_index_serial-Answers :
      (hm : HashMap V) (key : Bytes)
      → IsValid hm
      → HaveKeys (live hm)
      → Answers hm key (find_index_serial hm key) (value_of key (live hm))
  find_index_serial-Answers hm key v ks =
      let start = find_index_serial-first_index hm key ks in
      elim (first_index-value_of key (live hm) 0) [
        | inl (m, n) ↦ rw (start, m, n) missed
        | inr w ↦
            let (at, l) =
              get_elem?-take hm.cur_number_of_entries w.offset hm.entries w.entry w.stands in
            let z : 0 + w.offset ≡ w.offset = omega arith in
            rw (start, w.index, z, w.value)
              (found l at (own_key key w.entry w.has) (payload_there hm w.offset w.entry v l at))
      ]

  -- For a valid map whose entries in use all have keys, no two the same, and that holds nothing for
  -- a key: after the key is added with success, where the map can grow and its step is not 0 and its
  -- size and step together fit in an `unsigned int`, the entries in use all have keys again, no two
  -- the same, and the map holds the payload for the key and for every other key what it held before.
  pub hash_map_add-value_of :
      (hm hm' : HashMap V) (k : Bytes) (val : Option V) (n : ℕ) (a : Allocator)
      → IsValid hm
      → HaveKeys (live hm)
      → AreDistinct (live hm)
      → value_of k (live hm) ≡ none
      → 0 < hm.entry_allocation_step
      → hm.max_number_of_entries + hm.entry_allocation_step < uint
      → a.grow_ok ≡ true
      → hash_map_add hm (some k) val n a ≡ some (hm', true)
      → HaveKeys (live hm')
        × AreDistinct (live hm')
        × ((j : Bytes)
            → value_of j (live hm') ≡ (if strcmp j k then some val else value_of j (live hm)))
  hash_map_add-value_of hm hm' k val n a v ks ds fresh step fits g h =
      let w = hash_map_add-Added hm hm' k val n a v step fits g h in
      let key : HasKey w.entry = (k, w.keyed, w.hashed) in
      let named : name w.entry ≡ k = rw (w.keyed, name) in
      let gone : value_of (name w.entry) (live hm) ≡ none =
        subst (λ q. value_of q (live hm) ≡ none) (sym named) fresh in
      let back = sym w.behind in
      (
        subst HaveKeys back (HaveKeys-append (live hm) w.entry ks key),
        subst AreDistinct back (append-AreDistinct (live hm) w.entry ks key ds gone),
        λ j. ap (value_of j) w.behind ∙ elim (Bool-cases (strcmp j k)) [
          | inl e ↦
              let z = (strcmp_iff j k).0 e in
              let y : has_key j w.entry ≡ true =
                has_key-name j w.entry key ∙ ap (strcmp j) named ∙ e in
              rw e (
                value_of-append_none j (live hm) w.entry
                  (subst (λ q. value_of q (live hm) ≡ none) (sym z) fresh) y
                ∙ ap some w.carries)
          | inr m ↦
              let y : has_key j w.entry ≡ false =
                has_key-name j w.entry key ∙ ap (strcmp j) named ∙ m in
              rw m (value_of-append_some j (live hm) w.entry y)
        ],
      )
