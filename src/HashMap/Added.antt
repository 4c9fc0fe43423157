-- ===== src/HashMap/Added.antt =====
-- What `hashMap_Add` of src/Hashmap/hashmap.c changes for the searches.
use mathlib.Core.Path.{subst}
use ammar_server.Base.{
  some_eq, ℕ, zero, suc, ◌+◌, ◌%◌, ◌≤◌, ◌<◌, ◌≡◌, refl, sym, ap, ◌∙◌, Bool, true, false, List, [],
  ◌∷◌, ◌++◌, Option, some, Bytes, length, get_elem?, set, ltb, leb, ◌==◌, inl, inr, arith,
  Bool-cases, Option-cases, length-take, take_append_le, none,
}
use ammar_server.Base.Text.{strcmp}
use ammar_server.HashMap.{
  uint, hash_function, Entry, HashMap, hash_map_grow, is_empty_list, hash_map_is_ok,
  find_index_serial, live,
}
use ammar_server.HashMap.Operations.{
  Allocator, store_key, store_payload, add_entry, hash_map_add, key_fails, entry_at,
  hash_map_get_payload_at_index,
}
use ammar_server.HashMap.Valid.{IsValid, grow-IsValid}
use ammar_server.HashMap.Keeps.{add_entry_no_key, add_entry_fault, add_entry_stores, slot_there}
use ammar_server.HashMap.View.{
  HaveKeys, has_key, first_index, find_serial-first_index, or_last, first_index-append,
  take-set_next, HaveKeys-append,
}

module _ {V : Type 0} where
  -- One entry more stands behind those of before.
  pub record Added (hm hm' : HashMap V) (k : Bytes) (val : Option V) (n : ℕ) : Type 0 where
    pub entry : Entry V
    pub keyed : entry.key ≡ some k
    pub hashed : entry.key_hash ≡ hash_function (some k)
    pub carries : entry.payload ≡ val
    pub sized : entry.payload_length ≡ n
    pub behind : live hm' ≡ live hm ++ (entry ∷ [])
    pub one_more : hm'.cur_number_of_entries ≡ suc hm.cur_number_of_entries
    pub room : hm'.cur_number_of_entries ≤ hm'.max_number_of_entries
    pub stands : get_elem? hm'.entries hm.cur_number_of_entries ≡ some entry

  stored_fields :
      (e e' : Entry V) (i : ℕ) (k : Bytes) (val : Option V) (n : ℕ) (ok : Bool)
      → store_payload (store_key e i (some k)) val n ok ≡ some e'
      → (e'.key ≡ some k)
        × (e'.key_hash ≡ hash_function (some k))
        × (e'.payload ≡ val)
        × (e'.payload_length ≡ n)
  unfolding store_payload store_key
  stored_fields e e' i k none n ok h = (ground arith, ground arith, ground arith, ground arith)
  stored_fields e e' i k (some v) n ok h = (ground arith, ground arith, ground arith, ground arith)

  pub get_elem?-set :
      (es : List (Entry V)) (n : ℕ) (e : Entry V)
      → n < length es
      → get_elem? (set es n e) n ≡ some e
  get_elem?-set [] n e h = absurd (omega arith)
  get_elem?-set (f ∷ es) zero e h = refl
  get_elem?-set (f ∷ es) (suc n) e h = get_elem?-set es n e (omega arith)

  stores-Added :
      (hm : HashMap V) (e : Entry V) (k : Bytes) (val : Option V) (n : ℕ)
      → IsValid hm
      → hm.cur_number_of_entries < hm.max_number_of_entries
      → (e.key ≡ some k)
        × (e.key_hash ≡ hash_function (some k))
        × (e.payload ≡ val)
        × (e.payload_length ≡ n)
      → Added hm
          (record hm {
            entries = set hm.entries hm.cur_number_of_entries e;
            cur_number_of_entries = (hm.cur_number_of_entries + 1) % uint;
            is_sorted = false;
          })
          k
          val
          n
  stores-Added hm e k val n v room fields =
      let next : (hm.cur_number_of_entries + 1) % uint ≡ suc hm.cur_number_of_entries =
        omega (arith, v.small) in
      let there : hm.cur_number_of_entries < length hm.entries = omega (arith, v.width) in
      record {
        entry = e;
        keyed = fields.0;
        hashed = fields.1;
        carries = fields.2;
        sized = fields.3;
        behind = rw next (take-set_next hm.entries hm.cur_number_of_entries e there);
        one_more = next;
        room = omega arith;
        stands = get_elem?-set hm.entries hm.cur_number_of_entries e there;
      }

  add_entry-Added :
      (hm hm' : HashMap V) (k : Bytes) (val : Option V) (n : ℕ) (a : Allocator)
      → IsValid hm
      → hm.cur_number_of_entries < hm.max_number_of_entries
      → add_entry hm (some k) val n a ≡ some (hm', true)
      → Added hm hm' k val n
  add_entry-Added hm hm' k val n a v room h =
      let (f, e) = slot_there hm.entries hm.cur_number_of_entries (omega (arith, v.width)) in
      elim (Bool-cases (key_fails (some k) a.key_ok)) [
        | inl bad ↦ absurd (cc (some_eq (sym (add_entry_no_key hm (some k) val n a f e bad) ∙ h)))
        | inr good ↦
            elim (Option-cases
              (store_payload (store_key f hm.cur_number_of_entries (some k)) val n a.payload_ok)) [
                | inl x ↦ absurd (cc (add_entry_fault hm (some k) val n a f e good x))
                | inr (f', x) ↦
                    let s =
                      some_eq (sym (add_entry_stores hm (some k) val n a f e f' good x) ∙ h) in
                    subst (λ q. Added hm q.0 k val n) s
                      (stores-Added hm f' k val n v room
                        (stored_fields f f' hm.cur_number_of_entries k val n a.payload_ok x))
              ]
      ]

  grown-Added :
      (hm hm' : HashMap V) (k : Bytes) (val : Option V) (n : ℕ)
      → IsValid hm
      → Added (hash_map_grow hm hm.entry_allocation_step true).0 hm' k val n
      → Added hm hm' k val n
  unfolding hash_map_grow
  grown-Added hm hm' k val n v w = record {
    entry = w.entry;
    keyed = w.keyed;
    hashed = w.hashed;
    carries = w.carries;
    sized = w.sized;
    behind =
        w.behind
        ∙ ap (λ es. es ++ (w.entry ∷ []))
            (take_append_le hm.cur_number_of_entries hm.entries _
              (omega (arith, v.width, v.filled)));
    one_more = w.one_more;
    room = w.room;
    stands = w.stands;
  }

  pub hash_map_add-Added :
      (hm hm' : HashMap V) (k : Bytes) (val : Option V) (n : ℕ) (a : Allocator)
      → IsValid hm
      → 0 < hm.entry_allocation_step
      → hm.max_number_of_entries + hm.entry_allocation_step < uint
      → a.grow_ok ≡ true
      → hash_map_add hm (some k) val n a ≡ some (hm', true)
      → Added hm hm' k val n
  unfolding hash_map_add
  hash_map_add-Added hm hm' k val n a v step fits g h = elim (Bool-cases (hash_map_is_ok hm)) [
    | inr bad ↦
        let none_added : hash_map_add hm (some k) val n a ≡ some (hm, false) = rw bad in
        absurd (cc (some_eq (sym none_added ∙ h)))
    | inl ok ↦ elim (Bool-cases (ltb hm.cur_number_of_entries hm.max_number_of_entries)) [
      | inl room ↦
          let here : hash_map_add hm (some k) val n a ≡ add_entry hm (some k) val n a =
            rw (ok, room) in
          add_entry-Added hm hm' k val n a v (ground arith) (sym here ∙ h)
      | inr full ↦
          let bigger = (hash_map_grow hm hm.entry_allocation_step true).0 in
          let here : hash_map_add hm (some k) val n a ≡ add_entry bigger (some k) val n a =
            rw (ok, full, g) (unfold hash_map_grow in refl) in
          grown-Added hm hm' k val n v (
            add_entry-Added bigger hm' k val n a
              (grow-IsValid hm hm.entry_allocation_step true fits v)
              (unfold hash_map_grow in omega (arith, v.filled, fits)) (sym here ∙ h))
    ]
  ]

  pub find_index_serial-first_index :
      (hm : HashMap V) (key : Bytes)
      → HaveKeys (live hm)
      → find_index_serial hm key ≡ first_index key (live hm) 0
  unfolding find_index_serial
  find_index_serial-first_index hm key h = find_serial-first_index key (live hm) 0 h

  has_key-stored : (e : Entry V) (k key : Bytes) → e.key ≡ some k → has_key key e ≡ strcmp key k
  unfolding has_key
  has_key-stored e k key h = rw h

  -- For a valid map whose entries in use all have keys, whose step is not 0 and whose size and step
  -- together fit in an `unsigned int`: when the map can grow and adding a key reports success, the
  -- entries in use all have keys again, and the serial search finds every key where it did, and the
  -- new key, if it was not there, at the old number of entries.
  pub hash_map_add-find_index_serial :
      (hm hm' : HashMap V) (k : Bytes) (val : Option V) (n : ℕ) (a : Allocator)
      → IsValid hm
      → HaveKeys (live hm)
      → 0 < hm.entry_allocation_step
      → hm.max_number_of_entries + hm.entry_allocation_step < uint
      → a.grow_ok ≡ true
      → hash_map_add hm (some k) val n a ≡ some (hm', true)
      → HaveKeys (live hm')
        × ((j : Bytes)
            → find_index_serial hm' j
              ≡ or_last (find_index_serial hm j) (strcmp j k) hm.cur_number_of_entries)
  hash_map_add-find_index_serial hm hm' k val n a v ks step fits g h =
      let w = hash_map_add-Added hm hm' k val n a v step fits g h in
      let have : HaveKeys (live hm') =
        rw w.behind (HaveKeys-append (live hm) w.entry ks (k, w.keyed, w.hashed)) in
      let width : 0 + length (live hm) ≡ hm.cur_number_of_entries =
        omega (arith, length-take hm.cur_number_of_entries hm.entries, v.width, v.filled) in
      (
        have,
        λ j.
            find_index_serial-first_index hm' j have
            ∙ rw (
              w.behind,
              first_index-append j (live hm) w.entry 0,
              has_key-stored w.entry k j w.keyed,
              width,
              find_index_serial-first_index hm j ks,
            ),
      )

  got_not_empty :
      (es : List (Entry V)) (i : ℕ) (e : Entry V)
      → get_elem? es i ≡ some e
      → is_empty_list es ≡ false
  unfolding is_empty_list
  got_not_empty [] i e h = cc
  got_not_empty (f ∷ es) i e h = refl

  pub used_is_ok :
      (hm : HashMap V) (i : ℕ) (e : Entry V)
      → get_elem? hm.entries i ≡ some e
      → 0 < hm.max_number_of_entries
      → hash_map_is_ok hm ≡ true
  unfolding hash_map_is_ok
  used_is_ok hm i e h m =
      let s = got_not_empty hm.entries i e h in
      let z : (hm.max_number_of_entries == 0) ≡ false = ground arith in rw (s, z)

  pub Added-entry_at :
      (hm hm' : HashMap V) (k : Bytes) (val : Option V) (n : ℕ) (w : Added hm hm' k val n)
      → entry_at hm' hm.cur_number_of_entries ≡ some w.entry
  unfolding entry_at
  Added-entry_at hm hm' k val n w =
      let l : leb hm'.cur_number_of_entries hm.cur_number_of_entries ≡ false =
        let more = w.one_more in ground arith in
      let ok =
        used_is_ok hm' hm.cur_number_of_entries w.entry w.stands
          (omega (arith, w.one_more, w.room)) in
      rw (ok, l) w.stands

  -- Under the same conditions but for the keys: the payload at the old number of entries is the one
  -- that was added.
  pub hash_map_add-hash_map_get_payload_at_index :
      (hm hm' : HashMap V) (k : Bytes) (val : Option V) (n : ℕ) (a : Allocator)
      → IsValid hm
      → 0 < hm.entry_allocation_step
      → hm.max_number_of_entries + hm.entry_allocation_step < uint
      → a.grow_ok ≡ true
      → hash_map_add hm (some k) val n a ≡ some (hm', true)
      → hash_map_get_payload_at_index hm' hm.cur_number_of_entries ≡ val
  unfolding hash_map_get_payload_at_index
  hash_map_add-hash_map_get_payload_at_index hm hm' k val n a v step fits g h =
      let w = hash_map_add-Added hm hm' k val n a v step fits g h in
      let here = Added-entry_at hm hm' k val n w in
      rw (here, hash_map_get_payload_at_index) w.carries
