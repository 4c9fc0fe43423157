-- ===== src/HashMap/Keeps.antt =====
-- `hashMap_Add` of src/Hashmap/hashmap.c and the invariant of the map.
use ammar_server.Base.{
  some_eq, ℕ, zero, suc, ◌+◌, ◌%◌, ◌<◌, ◌≡◌, refl, sym, ◌∙◌, Bool, true, false, List, [], ◌∷◌,
  Option, none, some, Bytes, length, get_elem?, set, ltb, inl, inr, arith, Bool-cases, Option-cases,
  length-set,
}
use mathlib.Core.Path.{subst}
use ammar_server.HashMap.{uint, Entry, HashMap, hash_map_grow, hash_map_is_ok}
use ammar_server.HashMap.Operations.{
  Allocator, store_key, store_payload, add_entry, hash_map_add, key_fails,
}
use ammar_server.HashMap.Valid.{
  IsEntry, IsClean, IsValid, AreEntries-set_next, AreEntries-set_clean, AreEntries-get_next,
  grow-IsValid,
}

module _ {V : Type 0} where
  store-IsEntry :
      (e e' : Entry V) (i : ℕ) (key : Option Bytes) (val : Option V) (n : ℕ) (ok : Bool)
      → IsClean e
      → store_payload (store_key e i key) val n ok ≡ some e'
      → IsEntry e'
  unfolding store_payload store_key
  store-IsEntry e e' i none none n ok c h = ground arith
  store-IsEntry e e' i none (some v) n ok c h = ground arith
  store-IsEntry e e' i (some k) none n ok c h = ground arith
  store-IsEntry e e' i (some k) (some v) n ok c h = ground arith

  module _ (hm : HashMap V) (key : Option Bytes) (val : Option V) (n : ℕ) (a : Allocator)
      (f : Entry V) (there : get_elem? hm.entries hm.cur_number_of_entries ≡ some f) where
    cur : ℕ
    cur = hm.cur_number_of_entries

    -- The three ends of `add_entry` at a slot that is there.
    pub add_entry_no_key :
        key_fails key a.key_ok ≡ true
        → add_entry hm key val n a
          ≡ some (
            record hm {
              entries =
                  set hm.entries hm.cur_number_of_entries
                    (record f { key = none; index = hm.cur_number_of_entries });
            },
            false,
          )
    unfolding add_entry
    add_entry_no_key bad = rw (there, add_entry, bad)

    pub add_entry_fault :
        key_fails key a.key_ok ≡ false
        → store_payload (store_key f hm.cur_number_of_entries key) val n a.payload_ok ≡ none
        → add_entry hm key val n a ≡ none
    unfolding add_entry
    add_entry_fault good x = rw (there, add_entry, good, x)

    pub add_entry_stores :
        (e' : Entry V)
        → key_fails key a.key_ok ≡ false
        → store_payload (store_key f hm.cur_number_of_entries key) val n a.payload_ok ≡ some e'
        → add_entry hm key val n a
          ≡ some (
            record hm {
              entries = set hm.entries hm.cur_number_of_entries e';
              cur_number_of_entries = (hm.cur_number_of_entries + 1) % uint;
              is_sorted = false;
            },
            true,
          )
    unfolding add_entry
    add_entry_stores e' good x = rw (there, add_entry, good, x)

  pub slot_there :
      (es : List (Entry V)) (j : ℕ) → j < length es → (f : Entry V) × (get_elem? es j ≡ some f)
  slot_there [] j h = absurd (omega arith)
  slot_there (x ∷ es) zero h = (x, refl)
  slot_there (x ∷ es) (suc j) h = slot_there es j (omega arith)

  stored-IsValid :
      (hm : HashMap V) (e : Entry V)
      → IsValid hm
      → hm.cur_number_of_entries < hm.max_number_of_entries
      → IsEntry e
      → IsValid (record hm {
        entries = set hm.entries hm.cur_number_of_entries e;
        cur_number_of_entries = (hm.cur_number_of_entries + 1) % uint;
        is_sorted = false;
      })
  stored-IsValid hm e v room h =
      let one_more : (hm.cur_number_of_entries + 1) % uint ≡ suc hm.cur_number_of_entries =
        omega (arith, v.small) in
      record {
        width = length-set hm.entries hm.cur_number_of_entries e ∙ v.width;
        filled = rw one_more room;
        small = v.small;
        entries_ok =
            rw one_more (AreEntries-set_next hm.cur_number_of_entries hm.entries e h v.entries_ok);
      }

  keyless-IsValid :
      (hm : HashMap V) (f : Entry V)
      → IsValid hm
      → IsClean f
      → IsValid (record hm {
        entries =
            set hm.entries hm.cur_number_of_entries
              (record f { key = none; index = hm.cur_number_of_entries });
      })
  keyless-IsValid hm f v clean = record {
    width = length-set hm.entries hm.cur_number_of_entries _ ∙ v.width;
    filled = v.filled;
    small = v.small;
    entries_ok =
        AreEntries-set_clean hm.cur_number_of_entries hm.entries _ (refl, clean.1, clean.2)
          v.entries_ok;
  }

  add_entry-IsValid :
      (hm : HashMap V) (key : Option Bytes) (val : Option V) (n : ℕ) (a : Allocator)
      (r : HashMap V × Bool)
      → IsValid hm
      → hm.cur_number_of_entries < hm.max_number_of_entries
      → add_entry hm key val n a ≡ some r
      → IsValid r.0
  add_entry-IsValid hm key val n a r v room h =
      let (f, e) = slot_there hm.entries hm.cur_number_of_entries (omega (arith, v.width)) in
      let clean = AreEntries-get_next hm.cur_number_of_entries hm.entries f e v.entries_ok in
      elim (Bool-cases (key_fails key a.key_ok)) [
        | inl bad ↦
            let s = some_eq (sym (add_entry_no_key hm key val n a f e bad) ∙ h) in
            subst (λ q. IsValid q.0) s (keyless-IsValid hm f v clean)
        | inr good ↦
            elim (Option-cases
              (store_payload (store_key f hm.cur_number_of_entries key) val n a.payload_ok)) [
                | inl x ↦ absurd (cc (add_entry_fault hm key val n a f e good x))
                | inr (f', x) ↦
                    let s = some_eq (sym (add_entry_stores hm key val n a f e f' good x) ∙ h) in
                    subst (λ q. IsValid q.0) s
                      (stored-IsValid hm f' v room (
                        store-IsEntry f f' hm.cur_number_of_entries key val n a.payload_ok clean x))
              ]
      ]

  -- For a valid map whose step is not 0 and whose size and step together fit in an `unsigned int`:
  -- whatever the allocator answers, if adding does not fault, the new map is valid.
  pub hash_map_add-IsValid :
      (hm : HashMap V) (key : Option Bytes) (val : Option V) (n : ℕ) (a : Allocator)
      (r : HashMap V × Bool)
      → IsValid hm
      → 0 < hm.entry_allocation_step
      → hm.max_number_of_entries + hm.entry_allocation_step < uint
      → hash_map_add hm key val n a ≡ some r
      → IsValid r.0
  unfolding hash_map_add
  hash_map_add-IsValid hm key val n a r v step fits h = elim (Bool-cases (hash_map_is_ok hm)) [
    | inr bad ↦
        let none_added : hash_map_add hm key val n a ≡ some (hm, false) = rw bad in
        subst (λ q. IsValid q.0) (some_eq (sym none_added ∙ h)) v
    | inl ok ↦ elim (Bool-cases (ltb hm.cur_number_of_entries hm.max_number_of_entries)) [
      | inl room ↦
          let here : hash_map_add hm key val n a ≡ add_entry hm key val n a = rw (ok, room) in
          add_entry-IsValid hm key val n a r v (ground arith) (sym here ∙ h)
      | inr full ↦ grown hm key val n a r v step fits ok full a.grow_ok refl h
    ]
  ]
    where
      grown :
          (m : HashMap V) (k : Option Bytes) (x : Option V) (l : ℕ) (b : Allocator)
          (q : HashMap V × Bool)
          → IsValid m
          → 0 < m.entry_allocation_step
          → m.max_number_of_entries + m.entry_allocation_step < uint
          → hash_map_is_ok m ≡ true
          → ltb m.cur_number_of_entries m.max_number_of_entries ≡ false
          → (g : Bool) → b.grow_ok ≡ g
          → hash_map_add m k x l b ≡ some q
          → IsValid q.0
      grown m k x l b q w st ft o fl true g e =
          let bigger = (hash_map_grow m m.entry_allocation_step true).0 in
          let here : hash_map_add m k x l b ≡ add_entry bigger k x l b =
            rw (o, fl, g) (unfold hash_map_grow in refl) in
          add_entry-IsValid bigger k x l b q (grow-IsValid m m.entry_allocation_step true ft w)
            (unfold hash_map_grow in omega (arith, w.filled, ft)) (sym here ∙ e)
      grown m k x l b q w st ft o fl false g e =
          let here : hash_map_add m k x l b ≡ some (record m { is_sorted = false }, true) =
            rw (o, fl, g) (unfold hash_map_grow in refl) in
          subst (λ q. IsValid q.0) (some_eq (sym here ∙ e))
            (record {
              width = w.width;
              filled = w.filled;
              small = w.small;
              entries_ok = w.entries_ok;
            })
