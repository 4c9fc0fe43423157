-- ===== src/HashMap/Sorted.antt =====
-- `hashMap_Sort` and `hashMap_IsSorted` of src/Hashmap/hashmap.c.
use mathlib.Core.List.{Perm}
use mathlib.Core.List.Perm
use ammar_server.Base.{
  suc, ◌<◌, ◌≡◌, refl, ap, ◌∙◌, true, false, List, [], ◌∷◌, ◌++◌, length, drop, leb, ◌==◌, inl, inr,
  arith, Bool-cases, length-append, length-take, length-drop, take-append_eq,
}
use ammar_server.HashMap.{
  Entry, HashMap, hash_map_is_ok, live, is_empty_list, sorted_from, hash_map_is_sorted,
  insert_entry, sort_entries, hash_map_sort,
}
use ammar_server.HashMap.Valid.{IsValid}

module _ {V : Type 0} where
  insert_entry-sorted_from :
      (e : Entry V) (es : List (Entry V))
      → sorted_from es ≡ true
      → sorted_from (insert_entry e es) ≡ true
  unfolding insert_entry sorted_from
  insert_entry-sorted_from e [] h = refl
  insert_entry-sorted_from e (f ∷ []) h = ground arith
  insert_entry-sorted_from e (f ∷ g ∷ es) h = ground (arith, insert_entry-sorted_from e (g ∷ es))

  sort_entries-sorted_from : (es : List (Entry V)) → sorted_from (sort_entries es) ≡ true
  unfolding sort_entries
  sort_entries-sorted_from [] = unfold sorted_from in refl
  sort_entries-sorted_from (e ∷ es) =
      insert_entry-sorted_from e (sort_entries es) (sort_entries-sorted_from es)

  insert_entry-Perm : (e : Entry V) (es : List (Entry V)) → Perm (insert_entry e es) (e ∷ es)
  unfolding insert_entry
  insert_entry-Perm e [] = Perm.refl (e ∷ [])
  insert_entry-Perm e (f ∷ es) = elim (Bool-cases (leb e.key_hash f.key_hash)) [
    | inl b ↦ rw b (Perm.refl (e ∷ f ∷ es))
    | inr b ↦ rw b (Perm.trans (Perm.cons f (insert_entry-Perm e es)) (Perm.swap e f es))
  ]

  sort_entries-Perm : (es : List (Entry V)) → Perm (sort_entries es) es
  unfolding sort_entries
  sort_entries-Perm [] = Perm.refl []
  sort_entries-Perm (e ∷ es) =
      Perm.trans (insert_entry-Perm e (sort_entries es)) (Perm.cons e (sort_entries-Perm es))

  length-insert_entry :
      (e : Entry V) (es : List (Entry V)) → length (insert_entry e es) ≡ suc (length es)
  unfolding insert_entry
  length-insert_entry e [] = refl
  length-insert_entry e (f ∷ es) = elim (Bool-cases (leb e.key_hash f.key_hash)) [
    | inl b ↦ rw b
    | inr b ↦ rw b (ap suc (length-insert_entry e es))
  ]

  length-sort_entries : (es : List (Entry V)) → length (sort_entries es) ≡ length es
  unfolding sort_entries
  length-sort_entries [] = refl
  length-sort_entries (e ∷ es) =
      length-insert_entry e (sort_entries es) ∙ ap suc (length-sort_entries es)

  sorted_map : HashMap V → HashMap V
  sorted_map hm = record hm {
    entries = sort_entries (live hm) ++ drop hm.cur_number_of_entries hm.entries;
    is_sorted = true;
  }

  sort_shape :
      (hm : HashMap V)
      → hm.use_sorting ≡ true
      → hash_map_is_ok hm ≡ true
      → hash_map_sort hm ≡ (sorted_map hm, true)
  unfolding hash_map_sort sorted_map
  sort_shape hm u o = rw (o, u)

  not_empty : (es : List (Entry V)) → 0 < length es → is_empty_list es ≡ false
  unfolding is_empty_list
  not_empty [] h = absurd (omega arith)
  not_empty (e ∷ es) h = refl

  pub is_ok_when :
      (hm : HashMap V)
      → 0 < length hm.entries
      → 0 < hm.max_number_of_entries
      → hash_map_is_ok hm ≡ true
  unfolding hash_map_is_ok
  is_ok_when hm h m =
      let s = not_empty hm.entries h in
      let z : (hm.max_number_of_entries == 0) ≡ false = ground arith in rw (s, z)

  is_ok_room : (hm : HashMap V) → hash_map_is_ok hm ≡ true → 0 < hm.max_number_of_entries
  unfolding hash_map_is_ok
  is_ok_room hm o = ground arith

  -- For a valid map that uses sorting and has memory for entries: `hashMap_Sort` reports success,
  -- the test for sortedness holds behind it, and the entries in use are those of before in another
  -- order.
  pub hash_map_sort-hash_map_is_sorted :
      (hm : HashMap V)
      → IsValid hm
      → hm.use_sorting ≡ true
      → hash_map_is_ok hm ≡ true
      → ((hash_map_sort hm).1 ≡ true)
        × (hash_map_is_sorted (hash_map_sort hm).0 ≡ true)
        × Perm (live (hash_map_sort hm).0) (live hm)
  unfolding sorted_map
  hash_map_sort-hash_map_is_sorted hm v u o =
      let s = sort_shape hm u o in
      let room = is_ok_room hm o in
      let n = hm.cur_number_of_entries in
      let width : n ≡ length (sort_entries (live hm)) =
        omega (arith, length-sort_entries (live hm), length-take n hm.entries, v.width, v.filled) in
      let now : live (sorted_map hm) ≡ sort_entries (live hm) =
        take-append_eq n (sort_entries (live hm)) (drop n hm.entries) width in
      let total : 0 < length (sorted_map hm).entries = omega (
        arith,
        length-append (sort_entries (live hm)) (drop n hm.entries),
        length-drop n hm.entries,
        v.width,
        v.filled,
        room,
      ) in
      let ok : hash_map_is_ok (sorted_map hm) ≡ true = is_ok_when (sorted_map hm) total room in
      rw s (
        refl,
        (unfold hash_map_is_sorted in rw (ok, now) (sort_entries-sorted_from (live hm))),
        rw now (sort_entries-Perm (live hm)),
      )
