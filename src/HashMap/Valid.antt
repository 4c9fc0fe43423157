-- ===== src/HashMap/Valid.antt =====
-- The invariant of the map of src/Hashmap/hashmap.c.
use ammar_server.Base.{
  ℕ, zero, suc, ◌+◌, ◌%◌, ◌≤◌, ◌<◌, ◌≡◌, refl, ◌∙◌, Bool, true, false, List, [], ◌∷◌, ◌++◌, Option,
  none, some, Bytes, length, get_elem?, set, replicate, arith, length-append, length-replicate,
}
use ammar_server.HashMap.{uint, hash_function, Entry, HashMap, zero_entry, hash_map_grow}

-- The hash and the length that are stored belong to the key that is stored.
abbrev pub Keyed : Option Bytes → ℕ → ℕ → Type 0
Keyed none key_hash key_length = (key_hash ≡ 0) × (key_length ≡ 0)
Keyed (some k) key_hash key_length =
    (key_hash ≡ hash_function (some k)) × (key_length ≡ length k % uint)

module _ {V : Type 0} where
  abbrev pub IsEntry : Entry V → Type 0
  IsEntry e = Keyed e.key e.key_hash e.key_length

  -- An entry that is not in use has no key.
  abbrev pub IsClean : Entry V → Type 0
  IsClean e = (e.key ≡ none) × (e.key_hash ≡ 0) × (e.key_length ≡ 0)

  -- The first `n` entries are in use, the others are clean.
  abbrev pub AreEntries : ℕ → List (Entry V) → Type 0
  AreEntries n [] = Unit
  AreEntries zero (e ∷ es) = IsClean e × AreEntries zero es
  AreEntries (suc n) (e ∷ es) = IsEntry e × AreEntries n es

  pub record IsValid (hm : HashMap V) : Type 0 where
    pub width : length hm.entries ≡ hm.max_number_of_entries
    pub filled : hm.cur_number_of_entries ≤ hm.max_number_of_entries
    pub small : hm.max_number_of_entries < uint
    pub entries_ok : AreEntries hm.cur_number_of_entries hm.entries

  pub AreEntries-append_clean :
      (n m : ℕ) (es : List (Entry V))
      → n ≤ length es
      → AreEntries n es
      → AreEntries n (es ++ replicate m zero_entry)
  AreEntries-append_clean n m [] h v = go n m (omega arith)
    where
      go : (k j : ℕ) → k ≡ 0 → AreEntries k (replicate j zero_entry)
      go zero zero e = tt
      go zero (suc j) e = ((refl, refl, refl), go zero j refl)
      go (suc k) j e = absurd (omega arith)
  AreEntries-append_clean zero m (e ∷ es) h v =
      (v.0, AreEntries-append_clean zero m es (omega arith) v.1)
  AreEntries-append_clean (suc n) m (e ∷ es) h v =
      (v.0, AreEntries-append_clean n m es (omega arith) v.1)

  -- A new entry behind those in use.
  pub AreEntries-set_next :
      (n : ℕ) (es : List (Entry V)) (e : Entry V)
      → IsEntry e
      → AreEntries n es
      → AreEntries (suc n) (set es n e)
  AreEntries-set_next n [] e h v = go n
    where
      go : (k : ℕ) → AreEntries (suc k) []
      go zero = tt
      go (suc k) = tt
  AreEntries-set_next zero (f ∷ es) e h v = (h, v.1)
  AreEntries-set_next (suc n) (f ∷ es) e h v = (v.0, AreEntries-set_next n es e h v.1)

  pub AreEntries-set_clean :
      (n : ℕ) (es : List (Entry V)) (e : Entry V)
      → IsClean e
      → AreEntries n es
      → AreEntries n (set es n e)
  AreEntries-set_clean n [] e h v = v
  AreEntries-set_clean zero (f ∷ es) e h v = (h, v.1)
  AreEntries-set_clean (suc n) (f ∷ es) e h v = (v.0, AreEntries-set_clean n es e h v.1)

  pub AreEntries-set_used :
      (n i : ℕ) (es : List (Entry V)) (e : Entry V)
      → i < n
      → IsEntry e
      → AreEntries n es
      → AreEntries n (set es i e)
  AreEntries-set_used n i [] e l h v = v
  AreEntries-set_used zero i (f ∷ es) e l h v = absurd (omega arith)
  AreEntries-set_used (suc n) zero (f ∷ es) e l h v = (h, v.1)
  AreEntries-set_used (suc n) (suc i) (f ∷ es) e l h v =
      (v.0, AreEntries-set_used n i es e (omega arith) h v.1)

  -- The last entry in use is given up.
  pub AreEntries-drop_last :
      (n : ℕ) (es : List (Entry V)) (e : Entry V)
      → IsClean e
      → AreEntries (suc n) es
      → AreEntries n (set es n e)
  AreEntries-drop_last n [] e h v = go n
    where
      go : (k : ℕ) → AreEntries k []
      go zero = tt
      go (suc k) = tt
  AreEntries-drop_last zero (f ∷ es) e h v = (h, v.1)
  AreEntries-drop_last (suc n) (f ∷ es) e h v = (v.0, AreEntries-drop_last n es e h v.1)

  pub AreEntries-get :
      (n i : ℕ) (es : List (Entry V)) (e : Entry V)
      → i < n
      → get_elem? es i ≡ some e
      → AreEntries n es
      → IsEntry e
  AreEntries-get n i [] e l h v = cc
  AreEntries-get zero i (f ∷ es) e l h v = absurd (omega arith)
  AreEntries-get (suc n) zero (f ∷ es) e l h v = let s : f ≡ e = cc in rw (← s) v.0
  AreEntries-get (suc n) (suc i) (f ∷ es) e l h v = AreEntries-get n i es e (omega arith) h v.1

  pub AreEntries-get_next :
      (n : ℕ) (es : List (Entry V)) (e : Entry V)
      → get_elem? es n ≡ some e
      → AreEntries n es
      → IsClean e
  AreEntries-get_next n [] e h v = cc
  AreEntries-get_next zero (f ∷ es) e h v = let s : f ≡ e = cc in rw (← s) v.0
  AreEntries-get_next (suc n) (f ∷ es) e h v = AreEntries-get_next n es e h v.1

  -- A map with room for its entries stays valid when it grows, if the new size fits.
  pub grow-IsValid :
      (hm : HashMap V) (growth : ℕ) (ok : Bool)
      → hm.max_number_of_entries + growth < uint
      → IsValid hm
      → IsValid (hash_map_grow hm growth ok).0
  unfolding hash_map_grow
  grow-IsValid hm growth false h v = v
  grow-IsValid hm growth true h v =
      let fits : (hm.max_number_of_entries + growth) % uint ≡ hm.max_number_of_entries + growth =
        omega arith in
      record {
        width = rw fits (
            length-append hm.entries (replicate growth zero_entry)
            ∙ omega (arith, v.width, length-replicate growth (zero_entry {V = V})));
        filled = rw fits (omega (arith, v.filled));
        small = rw fits h;
        entries_ok =
            AreEntries-append_clean _ growth hm.entries (omega (arith, v.width, v.filled))
              v.entries_ok;
      }
