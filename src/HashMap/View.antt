-- ===== src/HashMap/View.antt =====
-- What the searches of src/Hashmap/hashmap.c look for: the first entry in use with a key.
use ammar_server.Base.{
  ℕ, zero, suc, ◌+◌, ◌<◌, ◌≡◌, refl, ap, ◌∙◌, Bool, true, false, List, [], ◌∷◌, ◌++◌, none, some,
  Bytes, length, set, take, ◌==◌, if◌then◌else◌, inl, inr, arith, Bool-cases,
}
use ammar_server.Base.Text.{strcmp, strcmp_iff}
use ammar_server.HashMap.{hash_function, Entry, Lookup, hit, miss, crash, find_serial}

-- What a search finds when one entry more stands behind: an old hit stays.
unfoldable pub or_last : Lookup → Bool → ℕ → Lookup
or_last (hit i) here last = hit i
or_last miss here last = if here then hit last else miss
or_last crash here last = crash

module _ {V : Type 0} where
  -- An entry in use that has a key, with its hash.
  abbrev pub HasKey : Entry V → Type 0
  HasKey e = (k : Bytes) × (e.key ≡ some k) × (e.key_hash ≡ hash_function (some k))

  abbrev pub HaveKeys : List (Entry V) → Type 0
  HaveKeys [] = Unit
  HaveKeys (e ∷ es) = HasKey e × HaveKeys es

  unfoldable pub has_key : Bytes → Entry V → Bool
  has_key key e = elim e.key [ none ↦ false | some stored ↦ strcmp key stored ]

  -- The index of the first entry with a key, without any hash.
  unfoldable pub first_index : Bytes → List (Entry V) → ℕ → Lookup
  first_index key [] i = miss
  first_index key (e ∷ es) i = if has_key key e then hit i else first_index key es (i + 1)

  pub find_step :
      (key : Bytes) (e : Entry V) (es : List (Entry V)) (i : ℕ)
      → HasKey e
      → find_serial key (hash_function (some key)) (e ∷ es) i
        ≡ (if has_key key e then hit i else find_serial key (hash_function (some key)) es (i + 1))
  unfolding find_serial has_key
  find_step key e es i (k, at, same) = elim (Bool-cases (strcmp key k)) [
    | inl eq ↦
        let key_eq : key ≡ k = (strcmp_iff key k).0 eq in
        let hash : (e.key_hash == hash_function (some key)) ≡ true =
          rw (same, key_eq) (ground arith) in
        rw (hash, find_serial, at, eq, has_key)
    | inr ne ↦ elim (Bool-cases (e.key_hash == hash_function (some key))) [
      | inl hash ↦ rw (hash, find_serial, at, ne, has_key)
      | inr other ↦ rw (other, find_serial, at, ne, has_key)
    ]
  ]

  pub find_serial-first_index :
      (key : Bytes) (es : List (Entry V)) (i : ℕ)
      → HaveKeys es
      → find_serial key (hash_function (some key)) es i ≡ first_index key es i
  find_serial-first_index key [] i h = unfold find_serial first_index in refl
  find_serial-first_index key (e ∷ es) i h =
      find_step key e es i h.0
      ∙ rw (find_serial-first_index key es (i + 1) h.1) (unfold first_index in refl)

  pub first_index-append :
      (key : Bytes) (es : List (Entry V)) (e : Entry V) (i : ℕ)
      → first_index key (es ++ (e ∷ [])) i
        ≡ or_last (first_index key es i) (has_key key e) (i + length es)
  unfolding first_index or_last
  first_index-append key [] e i = let z : i + 0 ≡ i = omega arith in rw z
  first_index-append key (f ∷ es) e i = elim (Bool-cases (has_key key f)) [
    | inl here ↦ rw here
    | inr other ↦
        let z : i + suc (length es) ≡ i + 1 + length es = omega arith in
        rw (other, z) (first_index-append key es e (i + 1))
  ]

  pub take-set_next :
      (es : List (Entry V)) (n : ℕ) (e : Entry V)
      → n < length es
      → take (suc n) (set es n e) ≡ take n es ++ (e ∷ [])
  take-set_next [] n e h = absurd (omega arith)
  take-set_next (f ∷ es) zero e h = refl
  take-set_next (f ∷ es) (suc n) e h = ap (◌∷◌ f) (take-set_next es n e (omega arith))

  pub HaveKeys-append :
      (es : List (Entry V)) (e : Entry V) → HaveKeys es → HasKey e → HaveKeys (es ++ (e ∷ []))
  HaveKeys-append [] e h k = (k, tt)
  HaveKeys-append (f ∷ es) e h k = (h.0, HaveKeys-append es e h.1 k)
