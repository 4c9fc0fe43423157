-- ===== src/HashMap/Removed.antt =====
-- What `hashMap_RemoveKey` and `hashMap_Add` of src/Hashmap/hashmap.c change of what the map holds.
use mathlib.Core.Path.{subst}
use ammar_server.Base.{
  some_eq, ℕ, zero, suc, ◌+◌, ◌-◌, ◌%◌, ◌<◌, ◌≡◌, refl, sym, ap, ◌∙◌, Bool, true, false, List, [],
  ◌∷◌, ◌++◌, none, some, Bytes, length, get_elem?, set, take, ◌==◌, arith, inl, inr, Bool-cases,
  if◌then◌else◌, length-set, length-take,
}
use ammar_server.Base.Text.{strcmp, strcmp_iff, strcmp_refl}
use ammar_server.HashMap.{
  uint, Entry, HashMap, Lookup, hit, miss, crash, zero_entry, hash_map_is_ok, live,
  find_index_serial_with_precomputed_hash, find_index_serial, count_hit, hash_function,
}
use ammar_server.HashMap.Operations.{fill_gap, remove_at, hash_map_remove_key}
use ammar_server.HashMap.Valid.{IsValid}
use ammar_server.HashMap.Keeps.{slot_there}
use ammar_server.HashMap.View.{HasKey, HaveKeys, has_key}
use ammar_server.HashMap.Search.{find_serial-Here, get_elem?-take}
use ammar_server.HashMap.Contents.{
  value_of, name, AreDistinct, has_key-name, name_is, value_of-append_some, value_of-append_none,
  value_of-there, value_of-set_other, value_of-set_new, value_of-set_gone, HaveKeys-set,
  AreDistinct-append, AreDistinct-set,
}

module _ {V : Type 0} where
  take-set_behind : (n : ℕ) (es : List (Entry V)) (x : Entry V) → take n (set es n x) ≡ take n es
  take-set_behind n [] x = refl
  take-set_behind zero (e ∷ es) x = refl
  take-set_behind (suc n) (e ∷ es) x = ap (◌∷◌ e) (take-set_behind n es x)

  pub take-set_inside :
      (n i : ℕ) (es : List (Entry V)) (x : Entry V)
      → i < n
      → take n (set es i x) ≡ set (take n es) i x
  take-set_inside zero i es x l = absurd (omega arith)
  take-set_inside (suc n) i [] x l = refl
  take-set_inside (suc n) zero (e ∷ es) x l = refl
  take-set_inside (suc n) (suc i) (e ∷ es) x l = ap (◌∷◌ e) (take-set_inside n i es x (omega arith))

  set-set : (es : List (Entry V)) (i : ℕ) (x y : Entry V) → set (set es i x) i y ≡ set es i y
  set-set [] i x y = refl
  set-set (e ∷ es) zero x y = refl
  set-set (e ∷ es) (suc i) x y = ap (◌∷◌ e) (set-set es i x y)

  get_elem?-set_other :
      (es : List (Entry V)) (i j : ℕ) (x : Entry V)
      → (i == j) ≡ false
      → get_elem? (set es i x) j ≡ get_elem? es j
  get_elem?-set_other [] i j x n = refl
  get_elem?-set_other (e ∷ es) zero zero x n = absurd (ground arith)
  get_elem?-set_other (e ∷ es) zero (suc j) x n = refl
  get_elem?-set_other (e ∷ es) (suc i) zero x n = refl
  get_elem?-set_other (e ∷ es) (suc i) (suc j) x n =
      get_elem?-set_other es i j x (let m = n in ground arith)

  take-suc :
      (n : ℕ) (es : List (Entry V)) (f : Entry V)
      → get_elem? es n ≡ some f
      → take (suc n) es ≡ take n es ++ (f ∷ [])
  take-suc n [] f h = cc
  take-suc zero (e ∷ es) f h = let s : e ≡ f = cc in rw s
  take-suc (suc n) (e ∷ es) f h = ap (◌∷◌ e) (take-suc n es f h)

  pub take-get :
      (n i : ℕ) (es : List (Entry V)) (e : Entry V)
      → i < n
      → get_elem? es i ≡ some e
      → get_elem? (take n es) i ≡ some e
  take-get zero i es e l h = absurd (omega arith)
  take-get (suc n) i [] e l h = cc
  take-get (suc n) zero (x ∷ es) e l h = h
  take-get (suc n) (suc i) (x ∷ es) e l h = take-get n i es e (omega arith) h

  -- What stands before the last place when the gap at `i` is filled, where `x` has replaced the entry
  -- there.
  fill_last :
      (es : List (Entry V)) (i last : ℕ) (x : Entry V)
      → last < length es
      → (i == last) ≡ true
      → take last (fill_gap (set es i x) i last) ≡ take last es
  unfolding fill_gap
  fill_last es i last x l same =
      let (f, at) = slot_there (set es i x) last (omega (arith, length-set es i x)) in
      let z : i ≡ last = ground arith in
      rw (at, fill_gap, same)
        (take-set_behind last (set es i x) zero_entry ∙ rw z (take-set_behind last es x))

  fill_before :
      (es : List (Entry V)) (i last : ℕ) (x f : Entry V)
      → i < last
      → get_elem? es last ≡ some f
      → take last (fill_gap (set es i x) i last) ≡ set (take last es) i f
  unfolding fill_gap
  fill_before es i last x f l at =
      let other : (i == last) ≡ false = ground arith in
      let still : get_elem? (set es i x) last ≡ some f =
        get_elem?-set_other es i last x other ∙ at in
      rw (still, fill_gap, other)
        (take-set_behind last (set (set es i x) i f) zero_entry
          ∙ rw (set-set es i x f) (take-set_inside last i es f l))

  HaveKeys-split :
      (es : List (Entry V)) (f : Entry V) → HaveKeys (es ++ (f ∷ [])) → HaveKeys es × HasKey f
  HaveKeys-split [] f h = (tt, h.0)
  HaveKeys-split (e ∷ es) f h = let (rest, k) = HaveKeys-split es f h.1 in ((h.0, rest), k)

  -- `es` holds what `es'` holds but for one key.
  abbrev pub HoldsOthers : Bytes → List (Entry V) → List (Entry V) → Type 0
  HoldsOthers key es' es =
      HaveKeys es'
      × AreDistinct es'
      × ((j : Bytes) → value_of j es' ≡ (if strcmp j key then none else value_of j es))

  last-HoldsOthers :
      (key : Bytes) (init : List (Entry V)) (f : Entry V)
      → HaveKeys (init ++ (f ∷ []))
      → AreDistinct (init ++ (f ∷ []))
      → has_key key f ≡ true
      → HoldsOthers key init (init ++ (f ∷ []))
  last-HoldsOthers key init f h d y =
      let (ks, k) = HaveKeys-split init f h in
      let (ds, gone) = AreDistinct-append init f ks k d in
      let same = name_is key f k y in
      (
        ks,
        ds,
        λ j. elim (Bool-cases (strcmp j key)) [
          | inl e ↦
              let z : j ≡ name f = (strcmp_iff j key).0 e ∙ same in
              rw e (subst (λ q. value_of q init ≡ none) (sym z) gone)
          | inr n ↦
              let m : has_key j f ≡ false =
                has_key-name j f k ∙ subst (λ q. strcmp j q ≡ false) same n in
              rw n (sym (value_of-append_some j init f m))
        ],
      )

  moved-HoldsOthers :
      (key : Bytes) (init : List (Entry V)) (i : ℕ) (e f : Entry V)
      → HaveKeys (init ++ (f ∷ []))
      → AreDistinct (init ++ (f ∷ []))
      → i < length init
      → get_elem? init i ≡ some e
      → HasKey e
      → has_key key e ≡ true
      → HoldsOthers key (set init i f) (init ++ (f ∷ []))
  moved-HoldsOthers key init i e f h d l at he y =
      let (ks, k) = HaveKeys-split init f h in
      let (ds, gone) = AreDistinct-append init f ks k d in
      let same = name_is key e he y in
      let not_last : has_key key f ≡ false = elim (Bool-cases (has_key key f)) [
        | inr m ↦ m
        | inl x ↦ absurd (
            value_of-there key init i e at y
              (subst (λ q. value_of q init ≡ none) (sym (name_is key f k x)) gone))
      ] in
      (
        HaveKeys-set init i f ks k,
        AreDistinct-set init i e f ks k ds at gone,
        λ j. elim (Bool-cases (strcmp j key)) [
          | inl eq ↦
              let z : j ≡ key = (strcmp_iff j key).0 eq in
              rw eq (
                subst (λ q. value_of q (set init i f) ≡ none) (sym z)
                  (value_of-set_gone key init i e f ks ds at y not_last))
          | inr n ↦
              let m : has_key j e ≡ false =
                has_key-name j e he ∙ subst (λ q. strcmp j q ≡ false) same n in
              elim (Bool-cases (has_key j f)) [
                | inl x ↦
                    let new = subst (λ q. value_of q init ≡ none) (sym (name_is j f k x)) gone in
                    rw n (
                      value_of-set_new j init i f l new x
                      ∙ sym (value_of-append_none j init f new x))
                | inr x ↦
                    rw n (
                      value_of-set_other j init i e f at m x
                      ∙ sym (value_of-append_some j init f x))
              ]
        ],
      )

  pub key_at :
      (es : List (Entry V)) (i : ℕ) (e : Entry V) → get_elem? es i ≡ some e → HaveKeys es → HasKey e
  key_at [] i e h k = cc
  key_at (x ∷ es) zero e h k = let s : x ≡ e = cc in subst HasKey s k.0
  key_at (x ∷ es) (suc i) e h k = key_at es i e h k.1

  pub record Gone (hm hm' : HashMap V) (key : Bytes) : Type 0 where
    pub index : ℕ
    pub found : find_index_serial hm key ≡ hit index
    pub is : hm' ≡ remove_at (count_hit hm index) index

  pub hash_map_remove_key-Gone :
      (hm hm' : HashMap V) (key : Bytes)
      → hash_map_remove_key hm key ≡ some (hm', true)
      → Gone hm hm' key
  hash_map_remove_key-Gone hm hm' key h =
      go (find_index_serial hm key) refl (hash_map_is_ok hm) refl
    where
      go :
          (l : Lookup)
          → find_index_serial hm key ≡ l
          → (b : Bool) → hash_map_is_ok hm ≡ b
          → Gone hm hm' key
      go l e false o =
          let same : hash_map_remove_key hm key ≡ some (hm, false) =
            unfold hash_map_remove_key in rw o in
          absurd (cc (ap (λ q. q.1) (some_eq (sym same ∙ h))))
      go miss e true o =
          let same : hash_map_remove_key hm key ≡ some (hm, false) =
            unfold hash_map_remove_key in rw (o, e) in
          absurd (cc (ap (λ q. q.1) (some_eq (sym same ∙ h))))
      go crash e true o =
          let same : hash_map_remove_key hm key ≡ none = unfold hash_map_remove_key in rw (o, e) in
          absurd (cc same)
      go (hit i) e true o =
          let same : hash_map_remove_key hm key ≡ some (remove_at (count_hit hm i) i, true) =
            unfold hash_map_remove_key in rw (o, e) in
          record { index = i; found = e; is = sym (ap (λ q. q.0) (some_eq (sym same ∙ h))) }

  gap_filled :
      (hm : HashMap V) (i last : ℕ) (e : Entry V)
      → get_elem? hm.entries i ≡ some e
      → hm.cur_number_of_entries ≡ suc last
      → (x : Entry V) × (live (remove_at (count_hit hm i) i)
          ≡ take last (fill_gap (set hm.entries i x) i last))
  unfolding remove_at count_hit
  gap_filled hm i last e at n =
      let before : suc last - 1 ≡ last = omega arith in
      (record e { hits = (e.hits + 1) % uint }, rw (at, count_hit, n, before))

  record FoundEntry (hm : HashMap V) (key : Bytes) (i : ℕ) : Type 0 where
    pub entry : Entry V
    pub below : i < hm.cur_number_of_entries
    pub stands : get_elem? hm.entries i ≡ some entry
    pub has : has_key key entry ≡ true

  found_entry :
      (hm : HashMap V) (key : Bytes) (i : ℕ)
      → find_index_serial hm key ≡ hit i
      → FoundEntry hm key i
  unfolding find_index_serial find_index_serial_with_precomputed_hash has_key
  found_entry hm key i h =
      let w = find_serial-Here key (hash_function (some key)) (live hm) 0 i h in
      let z : w.offset ≡ i = omega (arith, w.place) in
      let (at, l) =
        get_elem?-take hm.cur_number_of_entries i hm.entries w.entry
          (ap (get_elem? (live hm)) (sym z) ∙ w.at) in
      record {
        entry = w.entry;
        below = l;
        stands = at;
        has = rw (w.same_key, has_key) (strcmp_refl key);
      }

  equal_lists-HoldsOthers :
      (key : Bytes) {a a' b b' : List (Entry V)}
      → a ≡ a'
      → b ≡ b'
      → HoldsOthers key a' b'
      → HoldsOthers key a b
  equal_lists-HoldsOthers key {a} {a'} {b} {b'} e f h =
      subst (λ q. HoldsOthers key q b) (sym e) (subst (HoldsOthers key a') (sym f) h)

  -- For a valid map whose entries in use all have keys, no two the same: after a removal that
  -- reports success this is so again, and the map holds for the key nothing and for every other key
  -- what it held before.
  pub hash_map_remove_key-HoldsOthers :
      (hm hm' : HashMap V) (key : Bytes)
      → IsValid hm
      → HaveKeys (live hm)
      → AreDistinct (live hm)
      → hash_map_remove_key hm key ≡ some (hm', true)
      → HoldsOthers key (live hm') (live hm)
  hash_map_remove_key-HoldsOthers hm hm' key v ks ds h =
      let g = hash_map_remove_key-Gone hm hm' key h in
      let i = g.index in
      let w = found_entry hm key i g.found in
      let last = hm.cur_number_of_entries - 1 in
      let n : hm.cur_number_of_entries ≡ suc last = let l = w.below in omega arith in
      let (f, at) = slot_there hm.entries last (omega (arith, n, v.width, v.filled)) in
      let split : live hm ≡ take last hm.entries ++ (f ∷ []) =
        ap (λ q. take q hm.entries) n ∙ take-suc last hm.entries f at in
      let (x, filled) = gap_filled hm i last w.entry w.stands n in
      let now = ap live g.is ∙ filled in
      let ks' = subst HaveKeys split ks in
      let ds' = subst AreDistinct split ds in
      elim (Bool-cases (i == last)) [
        | inl same ↦
            let z : i ≡ last = ground arith in
            let one : w.entry ≡ f = some_eq (sym w.stands ∙ ap (get_elem? hm.entries) z ∙ at) in
            equal_lists-HoldsOthers key
              (now ∙ fill_last hm.entries i last x (omega (arith, n, v.width, v.filled)) same) split
              (last-HoldsOthers key (take last hm.entries) f ks' ds'
                (subst (λ q. has_key key q ≡ true) one w.has))
        | inr other ↦
            let l : i < last = let b = w.below in ground (arith, n) in
            let room : i < length (take last hm.entries) =
              omega (arith, n, length-take last hm.entries, v.width, v.filled, l) in
            equal_lists-HoldsOthers key (now ∙ fill_before hm.entries i last x f l at) split (
              moved-HoldsOthers key (take last hm.entries) i w.entry f ks' ds' room
                (take-get last i hm.entries w.entry l w.stands)
                (key_at (live hm) i w.entry (take-get _ i hm.entries w.entry w.below w.stands) ks)
                w.has)
      ]
