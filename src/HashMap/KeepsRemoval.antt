-- ===== src/HashMap/KeepsRemoval.antt =====
-- `hashMap_RemoveKey` of src/Hashmap/hashmap.c and the invariant of the map.
use ammar_server.Base.{
  some_eq, ℕ, suc, ◌+◌, ◌-◌, ◌<◌, ◌≡◌, refl, sym, ◌∙◌, Bool, true, false, List, [], ◌∷◌, none, some,
  Bytes, length, get_elem?, set, ◌==◌, inl, inr, arith, Bool-cases, Option-cases, length-set,
  length-take,
}
use mathlib.Core.Path.{subst}
use ammar_server.HashMap.{
  hash_function, Entry, HashMap, Lookup, hit, miss, crash, zero_entry, find_serial, hash_map_is_ok,
  find_index_serial, count_hit, live,
}
use ammar_server.HashMap.Operations.{fill_gap, remove_at, hash_map_remove_key}
use ammar_server.HashMap.Valid.{
  AreEntries, IsValid, AreEntries-set_used, AreEntries-drop_last, AreEntries-get,
}
use ammar_server.HashMap.Keeps.{slot_there}

module _ {V : Type 0} where
  pub count_hit-IsValid :
      (hm : HashMap V) (i : ℕ)
      → i < hm.cur_number_of_entries
      → IsValid hm
      → IsValid (count_hit hm i)
  unfolding count_hit
  count_hit-IsValid hm i l v = elim (Option-cases (get_elem? hm.entries i)) [
    | inl e ↦ rw (e, count_hit) v
    | inr (f, e) ↦
        rw (e, count_hit)
          (record {
            width = length-set hm.entries i _ ∙ v.width;
            filled = v.filled;
            small = v.small;
            entries_ok =
                AreEntries-set_used _ i hm.entries _ l
                  (AreEntries-get _ i hm.entries f l e v.entries_ok) v.entries_ok;
          })
  ]

  count_hit-cur :
      (hm : HashMap V) (i : ℕ) → (count_hit hm i).cur_number_of_entries ≡ hm.cur_number_of_entries
  unfolding count_hit
  count_hit-cur hm i = elim (Option-cases (get_elem? hm.entries i)) [
    | inl e ↦ rw (e, count_hit)
    | inr (f, e) ↦ rw (e, count_hit)
  ]

  fill_gap-AreEntries :
      (es : List (Entry V)) (i last : ℕ)
      → i < suc last
      → last < length es
      → AreEntries (suc last) es
      → AreEntries last (fill_gap es i last) × (length (fill_gap es i last) ≡ length es)
  unfolding fill_gap
  fill_gap-AreEntries es i last l there v =
      let (f, e) = slot_there es last there in
      let f_ok = AreEntries-get (suc last) last es f (omega arith) e v in
      elim (Bool-cases (i == last)) [
        | inl same ↦
            rw (e, fill_gap, same)
              (
                AreEntries-drop_last last es zero_entry (refl, refl, refl) v,
                length-set es last zero_entry,
              )
        | inr other ↦
            rw (e, fill_gap, other)
              (
                AreEntries-drop_last last (set es i f) zero_entry (refl, refl, refl)
                    (AreEntries-set_used (suc last) i es f l f_ok v),
                length-set (set es i f) last zero_entry ∙ length-set es i f,
              )
      ]

  remove_at-IsValid :
      (hm : HashMap V) (i last : ℕ)
      → i < hm.cur_number_of_entries
      → hm.cur_number_of_entries ≡ suc last
      → IsValid hm
      → IsValid (remove_at hm i)
  unfolding remove_at
  remove_at-IsValid hm i last l at_last v =
      let before : hm.cur_number_of_entries - 1 ≡ last = omega arith in
      let (ok, width) =
        fill_gap-AreEntries hm.entries i last (omega arith) (omega (arith, v.width, v.filled))
          (rw at_last at v.entries_ok) in
      rw before (record {
        width = width ∙ v.width;
        filled = omega (arith, v.filled);
        small = v.small;
        entries_ok = ok;
      })

  find_serial-lt :
      (key : Bytes) (key_hash : ℕ) (es : List (Entry V)) (i j : ℕ)
      → find_serial key key_hash es i ≡ hit j
      → j < i + length es
  unfolding find_serial
  find_serial-lt key key_hash [] i j h = cc
  find_serial-lt key key_hash (e ∷ es) i j h =
      ground (arith, find_serial-lt key key_hash es (i + 1) j)

  found-lt :
      (hm : HashMap V) (key : Bytes) (i : ℕ)
      → find_index_serial hm key ≡ hit i
      → i < hm.cur_number_of_entries
  unfolding find_index_serial
  found-lt hm key i h = omega (
    arith,
    find_serial-lt key (hash_function (some key)) (live hm) 0 i h,
    length-take hm.cur_number_of_entries hm.entries,
  )

  -- For a valid map: if removing a key does not fault, the new map is valid.
  pub hash_map_remove_key-IsValid :
      (hm : HashMap V) (key : Bytes) (r : HashMap V × Bool)
      → IsValid hm
      → hash_map_remove_key hm key ≡ some r
      → IsValid r.0
  hash_map_remove_key-IsValid hm key r v h =
      go (find_index_serial hm key) refl (hash_map_is_ok hm) refl
    where
      go :
          (l : Lookup)
          → find_index_serial hm key ≡ l
          → (b : Bool) → hash_map_is_ok hm ≡ b
          → IsValid r.0
      go l e false o =
          let same : hash_map_remove_key hm key ≡ some (hm, false) =
            unfold hash_map_remove_key in rw o in
          subst (λ q. IsValid q.0) (some_eq (sym same ∙ h)) v
      go miss e true o =
          let same : hash_map_remove_key hm key ≡ some (hm, false) =
            unfold hash_map_remove_key in rw (o, e) in
          subst (λ q. IsValid q.0) (some_eq (sym same ∙ h)) v
      go crash e true o =
          let same : hash_map_remove_key hm key ≡ none = unfold hash_map_remove_key in rw (o, e) in
          absurd (cc same)
      go (hit i) e true o =
          let same : hash_map_remove_key hm key ≡ some (remove_at (count_hit hm i) i, true) =
            unfold hash_map_remove_key in rw (o, e) in
          let l = found-lt hm key i e in
          let kept = count_hit-cur hm i in
          subst (λ q. IsValid q.0) (some_eq (sym same ∙ h))
            (remove_at-IsValid (count_hit hm i) i (hm.cur_number_of_entries - 1) (omega arith)
              (omega arith) (count_hit-IsValid hm i l v))
