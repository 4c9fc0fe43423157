-- ===== src/Sessions/Values.antt =====
-- The values of a session, src/AmmServerlib/cache/session_list.c.
use mathlib.Core.Path.{subst}
use ammar_server.Base.{
  some_eq, ℕ, ◌+◌, ◌-◌, ◌%◌, ◌≤◌, ◌<◌, ◌≡◌, refl, sym, ap, ◌∙◌, Bool, true, false, not, ◌&&◌, [],
  ◌∷◌, ◌++◌, none, some, Bytes, length, get_elem?, take, ltb, leb, if◌then◌else◌, inl, inr, arith,
  Bool-cases, Option-cases, take_append_le, min, set,
}
use ammar_server.Base.Text.{strcmp, strcmp_refl}
use ammar_server.HashMap.{
  uint, Entry, HashMap, Lookup, hit, miss, crash, hash_map_is_ok, find_index_serial, count_hit,
  live, hash_function,
}
use ammar_server.HashMap.Operations.{
  Allocator, hash_map_add, hash_map_remove_key, hash_map_contains_key, find_index, prepared,
  search_prepared, guessed, entry_at, remove_at, counts_hit, after_search, worth_sorting,
}
use ammar_server.HashMap.Valid.{IsValid}
use ammar_server.HashMap.KeepsRemoval.{hash_map_remove_key-IsValid, count_hit-IsValid}
use ammar_server.HashMap.View.{HaveKeys, or_last}
use ammar_server.HashMap.Added.{
  hash_map_add-Added, hash_map_add-find_index_serial, Added-entry_at, find_index_serial-first_index,
}
use ammar_server.HashMap.Sorted.{is_ok_when}
use ammar_server.HashMap.Contents.{
  value_of, AreDistinct, value_of-set_same, AreDistinct-set_same, HaveKeys-set,
}
use ammar_server.HashMap.Removed.{
  hash_map_remove_key-Gone, hash_map_remove_key-HoldsOthers, take-set_inside, take-get, key_at,
}
use ammar_server.HashMap.Held.{first_index-value_of, hash_map_add-value_of}
use ammar_server.HashMap.Keeps.{slot_there}
use ammar_server.HashMap.Search.{search_prepared-Found}
use ammar_server.Sessions.{
  scratch_size, add_value, replace_value, store_value, get_value, copy_value, copy_length,
}

-- What the values of a session satisfy between two calls: there is room to grow by a step, the map is
-- not sorted and has memory, and no name stands twice.
pub record AreValues (m : HashMap Bytes) : Type 0 where
  pub valid : IsValid m
  pub keys : HaveKeys (live m)
  pub distinct : AreDistinct (live m)
  pub unsorted : m.use_sorting ≡ false
  pub step : 0 < m.entry_allocation_step
  pub ready : 0 < m.max_number_of_entries
  pub fits : m.max_number_of_entries + m.entry_allocation_step < uint

nothing_misses :
    (m : HashMap Bytes) (name : Bytes)
    → HaveKeys (live m)
    → value_of name (live m) ≡ none
    → find_index_serial m name ≡ miss
nothing_misses m name ks v =
    find_index_serial-first_index m name ks ∙ elim (first_index-value_of name (live m) 0) [
      | inl (e, _) ↦ e
      | inr w ↦ absurd (cc (w.value, v))
    ]

missing_nothing :
    (m : HashMap Bytes) (name : Bytes)
    → HaveKeys (live m)
    → find_index_serial m name ≡ miss
    → value_of name (live m) ≡ none
missing_nothing m name ks e = elim (first_index-value_of name (live m) 0) [
  | inl (_, v) ↦ v
  | inr w ↦ let z = find_index_serial-first_index m name ks ∙ w.index in absurd (cc (z, e))
]

-- The name is gone, the other names are as they were.
record Cleared (name : Bytes) (m m' : HashMap Bytes) : Type 0 where
  pub values : AreValues m'
  pub none_there : value_of name (live m') ≡ none
  pub others : (j : Bytes) → strcmp j name ≡ false → value_of j (live m') ≡ value_of j (live m)

same_shape :
    (m : HashMap Bytes) (i : ℕ)
    → ((remove_at (count_hit m i) i).use_sorting ≡ m.use_sorting)
      × ((remove_at (count_hit m i) i).entry_allocation_step ≡ m.entry_allocation_step)
      × ((remove_at (count_hit m i) i).max_number_of_entries ≡ m.max_number_of_entries)
unfolding remove_at count_hit
same_shape m i = elim (Option-cases (get_elem? m.entries i)) [
  | inl e ↦ (rw (e, count_hit), rw (e, count_hit), rw (e, count_hit))
  | inr (f, e) ↦ (rw (e, count_hit), rw (e, count_hit), rw (e, count_hit))
]

removed-Cleared :
    (m m' : HashMap Bytes) (name : Bytes)
    → AreValues m
    → hash_map_remove_key m name ≡ some (m', true)
    → Cleared name m m'
removed-Cleared m m' name v h =
    let (ks, ds, holds) = hash_map_remove_key-HoldsOthers m m' name v.valid v.keys v.distinct h in
    let g = hash_map_remove_key-Gone m m' name h in
    let (sorting, step, max) = same_shape m g.index in
    let sorting' = ap (λ q. q.use_sorting) g.is ∙ sorting in
    let step' = ap (λ q. q.entry_allocation_step) g.is ∙ step in
    let max' = ap (λ q. q.max_number_of_entries) g.is ∙ max in
    let own : strcmp name name ≡ true = strcmp_refl name in
    record {
      values = record {
        valid = hash_map_remove_key-IsValid m name (m', true) v.valid h;
        keys = ks;
        distinct = ds;
        unsorted = sorting' ∙ v.unsorted;
        step = omega (arith, step', v.step);
        ready = omega (arith, max', v.ready);
        fits = omega (arith, step', max', v.fits);
      };
      none_there = holds name ∙ rw own;
      others = λ j n. holds j ∙ rw n;
    }

-- Nothing to remove.
missed-Cleared :
    (m : HashMap Bytes) (name : Bytes)
    → AreValues m
    → find_index_serial m name ≡ miss
    → Cleared name m m
missed-Cleared m name v e = record {
  values = v;
  none_there = missing_nothing m name v.keys e;
  others = λ j n. refl;
}

remove-Cleared :
    (m : HashMap Bytes) (name : Bytes) (r : HashMap Bytes × Bool)
    → AreValues m
    → hash_map_is_ok m ≡ true
    → hash_map_remove_key m name ≡ some r
    → Cleared name m r.0
remove-Cleared m name r v ok h = go (find_index_serial m name) refl
  where
    go : (l : Lookup) → find_index_serial m name ≡ l → Cleared name m r.0
    go miss e =
        let same : hash_map_remove_key m name ≡ some (m, false) =
          unfold hash_map_remove_key in rw (ok, e) in
        subst (λ q. Cleared name m q.0) (some_eq (sym same ∙ h)) (missed-Cleared m name v e)
    go crash e =
        let same : hash_map_remove_key m name ≡ none = unfold hash_map_remove_key in rw (ok, e) in
        absurd (cc (sym same ∙ h))
    go (hit i) e =
        let same : hash_map_remove_key m name ≡ some (remove_at (count_hit m i) i, true) =
          unfold hash_map_remove_key in rw (ok, e) in
        subst (λ q. Cleared name m q.0) (some_eq (sym same ∙ h))
          (removed-Cleared m (remove_at (count_hit m i) i) name v same)

unsorted_prepared : (m : HashMap Bytes) → m.use_sorting ≡ false → prepared m ≡ m
unfolding prepared
unsorted_prepared m u = let z : (not m.is_sorted && m.use_sorting) ≡ false = ground arith in rw z

unsorted_counts :
    (m : HashMap Bytes) (name : Bytes) (key_hash : ℕ)
    → m.use_sorting ≡ false
    → counts_hit m name key_hash 0 ≡ true
unfolding counts_hit
unsorted_counts m name key_hash u =
    let z : (m.is_sorted && m.use_sorting && ltb worth_sorting m.cur_number_of_entries) ≡ false =
      ground arith in
    elim (Bool-cases (guessed m key_hash 0)) [ inl g ↦ rw g | inr g ↦ rw (g, z) ]

contains_when_ok :
    (m : HashMap Bytes) (name : Bytes)
    → m.use_sorting ≡ false
    → hash_map_is_ok m ≡ true
    → hash_map_contains_key m name
      ≡ after_search m true (search_prepared m name (hash_function (some name)) 0)
unfolding hash_map_contains_key find_index
contains_when_ok m name u ok =
    let h : ℕ = hash_function (some name) in
    rw ok (
      ap (λ q. after_search q (counts_hit q name h 0) (search_prepared q name h 0))
        (unsorted_prepared m u)
      ∙ ap (λ q. after_search m q (search_prepared m name h 0)) (unsorted_counts m name h u))

-- The map behind a counted hit.
record Touched (m m' : HashMap Bytes) : Type 0 where
  pub values : AreValues m'
  pub same : (j : Bytes) → value_of j (live m') ≡ value_of j (live m)

count_hit-Touched :
    (m : HashMap Bytes) (i : ℕ)
    → AreValues m
    → i < m.cur_number_of_entries
    → Touched m (count_hit m i)
count_hit-Touched m i v l =
    let (e, at) = slot_there m.entries i (omega (arith, v.valid.width, v.valid.filled)) in
    let touched : Entry Bytes = record e { hits = (e.hits + 1) % uint } in
    let whole : count_hit m i ≡ record m { entries = set m.entries i touched } =
      unfold count_hit in rw (at, count_hit) in
    let now : live (count_hit m i) ≡ set (live m) i touched =
      ap live whole ∙ take-set_inside m.cur_number_of_entries i m.entries touched l in
    let there = take-get m.cur_number_of_entries i m.entries e l at in
    let key = key_at (live m) i e there v.keys in
    record {
      values = record {
        valid = count_hit-IsValid m i l v.valid;
        keys =
            subst HaveKeys (sym now) (HaveKeys-set (live m) i touched v.keys (key.0, key.1, key.2));
        distinct =
            subst AreDistinct (sym now)
              (AreDistinct-set_same (live m) i e touched there refl refl v.distinct);
        unsorted = ap (λ q. q.use_sorting) whole ∙ v.unsorted;
        step = let z = ap (λ q. q.entry_allocation_step) whole in omega (arith, z, v.step);
        ready = let z = ap (λ q. q.max_number_of_entries) whole in omega (arith, z, v.ready);
        fits =
            let z = ap (λ q. q.entry_allocation_step) whole in
            let y = ap (λ q. q.max_number_of_entries) whole in omega (arith, z, y, v.fits);
      };
      same = λ j. ap (value_of j) now ∙ value_of-set_same j (live m) i e touched there refl refl;
    }

search_misses :
    (m : HashMap Bytes) (name : Bytes)
    → m.use_sorting ≡ false
    → search_prepared m name (hash_function (some name)) 0 ≡ miss
    → find_index_serial m name ≡ miss
unfolding search_prepared find_index_serial
search_misses m name u h = elim (Bool-cases (guessed m (hash_function (some name)) 0)) [
  | inl g ↦ absurd (cc (rw g at h))
  | inr g ↦
      let z : (m.is_sorted && m.use_sorting && ltb worth_sorting m.cur_number_of_entries) ≡ false =
        ground arith in
      rw (g, z) at h
]

-- What `store_value` does when it reports success: it adds to a map from which the name is gone.
record Stored (name value : Bytes) (a : Allocator) (m m' : HashMap Bytes) : Type 0 where
  pub cleared : HashMap Bytes
  pub is_cleared : Cleared name m cleared
  pub added : add_value cleared name value a ≡ some (m', true)

replaced-Stored :
    (m t m' : HashMap Bytes) (name value : Bytes) (a : Allocator) (i : ℕ)
    → Touched m t
    → replace_value t (hit i) name value a ≡ some (m', true)
    → Stored name value a m m'
unfolding replace_value
replaced-Stored m t m' name value a i w h =
    let ok = is_ok_when t (omega (arith, w.values.valid.width, w.values.ready)) w.values.ready in
    elim (Option-cases (hash_map_remove_key t name)) [
      | inl x ↦ absurd (cc (rw (x, replace_value) at h))
      | inr (r, x) ↦
          let c = remove-Cleared t name r w.values ok x in
          record {
            cleared = r.0;
            is_cleared = record {
              values = c.values;
              none_there = c.none_there;
              others = λ j n. c.others j n ∙ w.same j;
            };
            added = rw (x, replace_value) at h;
          }
    ]

store_value-Stored :
    (m m' : HashMap Bytes) (name value : Bytes) (a : Allocator)
    → AreValues m
    → hash_map_is_ok m ≡ true
    → store_value m name value a ≡ some (m', true)
    → Stored name value a m m'
unfolding store_value
store_value-Stored m m' name value a v ok h =
    go (search_prepared m name (hash_function (some name)) 0) refl
  where
    found :
        store_value m name value a
        ≡ replace_value
            (after_search m true (search_prepared m name (hash_function (some name)) 0)).0
            (after_search m true (search_prepared m name (hash_function (some name)) 0)).1
            name
            value
            a
    found = ap (λ q. replace_value q.0 q.1 name value a) (contains_when_ok m name v.unsorted ok)

    go :
        (l : Lookup)
        → search_prepared m name (hash_function (some name)) 0 ≡ l
        → Stored name value a m m'
    go miss e =
        let same : store_value m name value a ≡ add_value m name value a =
          found ∙ rw e (unfold after_search replace_value in refl) in
        record {
          cleared = m;
          is_cleared = missed-Cleared m name v (search_misses m name v.unsorted e);
          added = sym same ∙ h;
        }
    go crash e =
        let same : store_value m name value a ≡ none =
          found ∙ rw e (unfold after_search replace_value in refl) in
        absurd (cc (sym same ∙ h))
    go (hit i) e =
        let same : store_value m name value a ≡ replace_value (count_hit m i) (hit i) name value a =
          found ∙ rw e (unfold after_search in refl) in
        let t = count_hit-Touched m i v (search_prepared-Found m name 0 i e).below in
        replaced-Stored m (count_hit m i) m' name value a i t (sym same ∙ h)

copy_fits :
    (value : Bytes)
    → length value + 1 < uint
    → copy_length ((length value + 1) % uint) ≡ min (length value) 4095
unfolding copy_length
copy_fits value h =
    let w : (length value + 1) % uint ≡ length value + 1 = omega arith in
    let p : ltb 0 (length value + 1) ≡ true = ground arith in
    let z : length value + 1 - 1 ≡ length value = omega arith in
    elim (Bool-cases (leb scratch_size (length value))) [
      | inl long ↦ let l : 4096 ≤ length value = ground arith in rw (w, p, z, long) (omega arith)
      | inr short ↦ let l : length value < 4096 = ground arith in rw (w, p, z, short) (omega arith)
    ]

copied :
    (e : Entry Bytes) (stored : Bytes)
    → e.payload ≡ some stored
    → copy_value (some e) ≡ some (take (copy_length e.payload_length) stored)
unfolding copy_value
copied e stored h = rw (h, copy_value)

found_at :
    (m : HashMap Bytes) (name : Bytes) (i : ℕ)
    → find_index_serial m name ≡ hit i
    → get_value m name ≡ some (count_hit m i, copy_value (entry_at m i))
unfolding get_value
found_at m name i h = rw (h, get_value)

-- For values of a session that satisfy their invariant, a map that can grow, and a value whose length
-- with its terminator fits in an `unsigned int`: when storing the value under a name reports success,
-- reading the name gives the value, or its first 4095 bytes where it is longer.
pub store_value-get_value :
    (m m' : HashMap Bytes) (name value : Bytes) (a : Allocator)
    → AreValues m
    → a.grow_ok ≡ true
    → length value + 1 < uint
    → store_value m name value a ≡ some (m', true)
    → (read : HashMap Bytes) × (get_value m' name
        ≡ some (read, some (take (min (length value) 4095) value)))
store_value-get_value m m' name value a v g small h =
    let ok = is_ok_when m (omega (arith, v.valid.width, v.ready)) v.ready in
    let s = store_value-Stored m m' name value a v ok h in
    let c = s.is_cleared.values in
    let stored : Bytes = value ++ (0 ∷ []) in
    let n : ℕ = (length value + 1) % uint in
    let add : hash_map_add s.cleared (some name) (some stored) n a ≡ some (m', true) =
      unfold add_value in s.added in
    let w = hash_map_add-Added s.cleared m' name (some stored) n a c.valid c.step c.fits g add in
    let (_, finds) =
      hash_map_add-find_index_serial s.cleared m' name (some stored) n a c.valid c.keys c.step
        c.fits g add in
    let missed = nothing_misses s.cleared name c.keys s.is_cleared.none_there in
    let own : strcmp name name ≡ true = strcmp_refl name in
    let found : find_index_serial m' name ≡ hit s.cleared.cur_number_of_entries =
      finds name ∙ rw (missed, own) (unfold or_last in refl) in
    let shown : copy_value (some w.entry) ≡ some (take (min (length value) 4095) value) =
      copied w.entry stored w.carries
      ∙ ap (λ q. some (take (copy_length q) stored)) w.sized
      ∙ ap (λ q. some (take q stored)) (copy_fits value small)
      ∙ ap some (take_append_le (min (length value) 4095) value (0 ∷ []) (omega arith)) in
    let read = count_hit m' s.cleared.cur_number_of_entries in
    (
      read,
      found_at m' name s.cleared.cur_number_of_entries found
          ∙ ap (λ q. some (read, copy_value q)) (Added-entry_at s.cleared m' name (some stored) n w)
          ∙ ap (λ q. some (read, q)) shown,
    )

-- For values of a session that satisfy their invariant, and a map that can grow: when storing a value
-- under a name reports success, no name stands twice afterwards, the name holds the value with its
-- terminator, and the other names hold what they held before.
pub store_value-value_of :
    (m m' : HashMap Bytes) (name value : Bytes) (a : Allocator)
    → AreValues m
    → a.grow_ok ≡ true
    → store_value m name value a ≡ some (m', true)
    → AreDistinct (live m')
      × ((j : Bytes)
          → value_of j (live m')
            ≡ (if strcmp j name then some (some (value ++ (0 ∷ []))) else value_of j (live m)))
store_value-value_of m m' name value a v g h =
    let ok = is_ok_when m (omega (arith, v.valid.width, v.ready)) v.ready in
    let s = store_value-Stored m m' name value a v ok h in
    let c = s.is_cleared.values in
    let n : ℕ = (length value + 1) % uint in
    let add : hash_map_add s.cleared (some name) (some (value ++ (0 ∷ []))) n a ≡ some (m', true) =
      unfold add_value in s.added in
    let (_, ds, holds) =
      hash_map_add-value_of s.cleared m' name (some (value ++ (0 ∷ []))) n a c.valid c.keys
        c.distinct s.is_cleared.none_there c.step c.fits g add in
    (
      ds,
      λ j. holds j ∙ elim (Bool-cases (strcmp j name)) [
        | inl e ↦ rw e
        | inr o ↦ rw o (s.is_cleared.others j o)
      ],
    )
