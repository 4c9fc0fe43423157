-- ===== src/HashMap/Contents.antt =====
-- What a list of entries of src/Hashmap/hashmap.c holds: a payload for each key, no matter where it
-- stands.
use mathlib.Core.Path.{subst}
use ammar_server.Base.{
  ℕ, zero, suc, ◌<◌, ◌≡◌, ◌≢◌, refl, sym, ap, ◌∙◌, true, false, List, [], ◌∷◌, ◌++◌, Option, none,
  some, Bytes, length, get_elem?, set, arith, inl, inr, Bool-cases, if◌then◌else◌,
}
use ammar_server.Base.Text.{strcmp, strcmp_iff, strcmp_refl}
use ammar_server.HashMap.{Entry}
use ammar_server.HashMap.View.{HasKey, HaveKeys, has_key}

module _ {V : Type 0} where
  -- The payload of the first entry with a key.
  unfoldable pub value_of : Bytes → List (Entry V) → Option (Option V)
  value_of key [] = none
  value_of key (e ∷ es) = if has_key key e then some e.payload else value_of key es

  abbrev pub name : Entry V → Bytes
  name e = elim e.key [ none ↦ [] | some k ↦ k ]

  -- No two entries have one key.
  abbrev pub AreDistinct : List (Entry V) → Type 0
  AreDistinct [] = Unit
  AreDistinct (e ∷ es) = (value_of (name e) es ≡ none) × AreDistinct es

  pub has_key-name : (key : Bytes) (e : Entry V) → HasKey e → has_key key e ≡ strcmp key (name e)
  unfolding has_key
  has_key-name key e (k, at, _) = rw at

  -- An entry with a key has the name of that key.
  pub name_is : (key : Bytes) (e : Entry V) → HasKey e → has_key key e ≡ true → key ≡ name e
  name_is key e h x = (strcmp_iff key (name e)).0 (sym (has_key-name key e h) ∙ x)

  pub has_own_name : (e : Entry V) → HasKey e → has_key (name e) e ≡ true
  has_own_name e h = has_key-name (name e) e h ∙ strcmp_refl (name e)

  pub value_of-append_some :
      (key : Bytes) (es : List (Entry V)) (f : Entry V)
      → has_key key f ≡ false
      → value_of key (es ++ (f ∷ [])) ≡ value_of key es
  unfolding value_of
  value_of-append_some key [] f n = rw n
  value_of-append_some key (e ∷ es) f n = elim (Bool-cases (has_key key e)) [
    | inl y ↦ rw y
    | inr m ↦ rw m (value_of-append_some key es f n)
  ]

  pub value_of-append_none :
      (key : Bytes) (es : List (Entry V)) (f : Entry V)
      → value_of key es ≡ none
      → has_key key f ≡ true
      → value_of key (es ++ (f ∷ [])) ≡ some f.payload
  unfolding value_of
  value_of-append_none key [] f n y = rw y
  value_of-append_none key (e ∷ es) f n y = elim (Bool-cases (has_key key e)) [
    | inl x ↦ absurd (cc (rw x at n))
    | inr m ↦ rw m (value_of-append_none key es f (rw m at n) y)
  ]

  -- An entry with the key is there.
  pub value_of-there :
      (key : Bytes) (es : List (Entry V)) (i : ℕ) (e : Entry V)
      → get_elem? es i ≡ some e
      → has_key key e ≡ true
      → value_of key es ≢ none
  unfolding value_of
  value_of-there key [] i e at y = cc
  value_of-there key (x ∷ es) zero e at y =
      let s : x ≡ e = cc in let z : has_key key x ≡ true = rw s y in λ n. cc (rw z at n)
  value_of-there key (x ∷ es) (suc i) e at y = elim (Bool-cases (has_key key x)) [
    | inl z ↦ λ n. cc (rw z at n)
    | inr m ↦ λ n. value_of-there key es i e at y (rw m at n)
  ]

  -- The entry at `i` is replaced by one with another key.
  pub value_of-set_other :
      (key : Bytes) (es : List (Entry V)) (i : ℕ) (e f : Entry V)
      → get_elem? es i ≡ some e
      → has_key key e ≡ false
      → has_key key f ≡ false
      → value_of key (set es i f) ≡ value_of key es
  unfolding value_of
  value_of-set_other key [] i e f at n m = refl
  value_of-set_other key (x ∷ es) zero e f at n m =
      let s : x ≡ e = cc in let z : has_key key x ≡ false = rw s n in rw (z, m)
  value_of-set_other key (x ∷ es) (suc i) e f at n m = elim (Bool-cases (has_key key x)) [
    | inl z ↦ rw z
    | inr z ↦ rw z (value_of-set_other key es i e f at n m)
  ]

  -- The key of the new entry was nowhere.
  pub value_of-set_new :
      (key : Bytes) (es : List (Entry V)) (i : ℕ) (f : Entry V)
      → i < length es
      → value_of key es ≡ none
      → has_key key f ≡ true
      → value_of key (set es i f) ≡ some f.payload
  unfolding value_of
  value_of-set_new key [] i f l n y = absurd (omega arith)
  value_of-set_new key (x ∷ es) zero f l n y = rw y
  value_of-set_new key (x ∷ es) (suc i) f l n y = elim (Bool-cases (has_key key x)) [
    | inl z ↦ absurd (cc (rw z at n))
    | inr z ↦ rw z (value_of-set_new key es i f (omega arith) (rw z at n) y)
  ]

  -- The key of the old entry is nowhere any more.
  pub value_of-set_gone :
      (key : Bytes) (es : List (Entry V)) (i : ℕ) (e f : Entry V)
      → HaveKeys es
      → AreDistinct es
      → get_elem? es i ≡ some e
      → has_key key e ≡ true
      → has_key key f ≡ false
      → value_of key (set es i f) ≡ none
  unfolding value_of
  value_of-set_gone key [] i e f h d at y m = refl
  value_of-set_gone key (x ∷ es) zero e f h d at y m =
      let s : x ≡ e = cc in
      let z : has_key key x ≡ true = rw s y in
      let k = name_is key x h.0 z in rw m (subst (λ q. value_of q es ≡ none) (sym k) d.0)
  value_of-set_gone key (x ∷ es) (suc i) e f h d at y m = elim (Bool-cases (has_key key x)) [
    | inl z ↦
        let k = name_is key x h.0 z in
        absurd (value_of-there key es i e at y (subst (λ q. value_of q es ≡ none) (sym k) d.0))
    | inr z ↦ rw z (value_of-set_gone key es i e f h.1 d.1 at y m)
  ]

  pub HaveKeys-set :
      (es : List (Entry V)) (i : ℕ) (f : Entry V) → HaveKeys es → HasKey f → HaveKeys (set es i f)
  HaveKeys-set [] i f h k = tt
  HaveKeys-set (x ∷ es) zero f h k = (k, h.1)
  HaveKeys-set (x ∷ es) (suc i) f h k = (h.0, HaveKeys-set es i f h.1 k)

  value_of-behind :
      (key : Bytes) (es : List (Entry V)) (f : Entry V)
      → has_key key f ≡ true
      → value_of key (es ++ (f ∷ [])) ≢ none
  unfolding value_of
  value_of-behind key [] f y = λ n. cc (rw y at n)
  value_of-behind key (e ∷ es) f y = elim (Bool-cases (has_key key e)) [
    | inl z ↦ λ n. cc (rw z at n)
    | inr m ↦ λ n. value_of-behind key es f y (rw m at n)
  ]

  other_name :
      (e f : Entry V)
      → HasKey e
      → HasKey f
      → has_key (name f) e ≡ false
      → has_key (name e) f ≡ false
  other_name e f h k z = elim (Bool-cases (has_key (name e) f)) [
    | inr m ↦ m
    | inl y ↦
        let same = name_is (name e) f k y in
        absurd (cc (z, subst (λ q. has_key q e ≡ true) same (has_own_name e h)))
  ]

  -- The names of a list with one more entry behind.
  pub AreDistinct-append :
      (es : List (Entry V)) (f : Entry V)
      → HaveKeys es
      → HasKey f
      → AreDistinct (es ++ (f ∷ []))
      → AreDistinct es × (value_of (name f) es ≡ none)
  unfolding value_of
  AreDistinct-append [] f h k d = (tt, refl)
  AreDistinct-append (e ∷ es) f h k d =
      let (rest, gone) = AreDistinct-append es f h.1 k d.1 in
      elim (Bool-cases (has_key (name e) f)) [
        | inl y ↦ absurd (value_of-behind (name e) es f y d.0)
        | inr m ↦ elim (Bool-cases (has_key (name f) e)) [
          | inl z ↦
              let same = name_is (name f) e h.0 z in
              absurd (cc (m, subst (λ q. has_key q f ≡ true) same (has_own_name f k)))
          | inr z ↦ ((sym (value_of-append_some (name e) es f m) ∙ d.0, rest), rw z gone)
        ]
      ]

  pub append-AreDistinct :
      (es : List (Entry V)) (f : Entry V)
      → HaveKeys es
      → HasKey f
      → AreDistinct es
      → value_of (name f) es ≡ none
      → AreDistinct (es ++ (f ∷ []))
  unfolding value_of
  append-AreDistinct [] f h k d gone = (refl, tt)
  append-AreDistinct (e ∷ es) f h k d gone = elim (Bool-cases (has_key (name f) e)) [
    | inl z ↦ absurd (cc (rw z at gone))
    | inr z ↦
        let other : has_key (name e) f ≡ false = other_name e f h.0 k z in
        (
          value_of-append_some (name e) es f other ∙ d.0,
          append-AreDistinct es f h.1 k d.1 (rw z at gone),
        )
  ]

  pub AreDistinct-set :
      (es : List (Entry V)) (i : ℕ) (e f : Entry V)
      → HaveKeys es
      → HasKey f
      → AreDistinct es
      → get_elem? es i ≡ some e
      → value_of (name f) es ≡ none
      → AreDistinct (set es i f)
  unfolding value_of
  AreDistinct-set [] i e f h k d at gone = tt
  AreDistinct-set (x ∷ es) zero e f h k d at gone = elim (Bool-cases (has_key (name f) x)) [
    | inl z ↦ absurd (cc (rw z at gone))
    | inr z ↦ (rw z at gone, d.1)
  ]
  AreDistinct-set (x ∷ es) (suc i) e f h k d at gone = elim (Bool-cases (has_key (name f) x)) [
    | inl z ↦ absurd (cc (rw z at gone))
    | inr z ↦
        let other : has_key (name x) f ≡ false = other_name x f h.0 k z in
        let rest = AreDistinct-set es i e f h.1 k d.1 at (rw z at gone) in
        elim (Bool-cases (has_key (name x) e)) [
          | inl y ↦ absurd (value_of-there (name x) es i e at y d.0)
          | inr m ↦ (value_of-set_other (name x) es i e f at m other ∙ d.0, rest)
        ]
  ]

  -- An entry is replaced by one with the same key and payload.
  pub value_of-set_same :
      (key : Bytes) (es : List (Entry V)) (i : ℕ) (e f : Entry V)
      → get_elem? es i ≡ some e
      → f.key ≡ e.key
      → f.payload ≡ e.payload
      → value_of key (set es i f) ≡ value_of key es
  unfolding value_of has_key
  value_of-set_same key [] i e f at k p = refl
  value_of-set_same key (x ∷ es) zero e f at k p = let s : x ≡ e = cc in rw (s, k, p)
  value_of-set_same key (x ∷ es) (suc i) e f at k p = elim (Bool-cases (has_key key x)) [
    | inl z ↦ rw z
    | inr z ↦ rw z (value_of-set_same key es i e f at k p)
  ]

  pub AreDistinct-set_same :
      (es : List (Entry V)) (i : ℕ) (e f : Entry V)
      → get_elem? es i ≡ some e
      → f.key ≡ e.key
      → f.payload ≡ e.payload
      → AreDistinct es
      → AreDistinct (set es i f)
  AreDistinct-set_same [] i e f at k p d = tt
  AreDistinct-set_same (x ∷ es) zero e f at k p d =
      let s : name f ≡ name x = let q : x ≡ e = cc in rw (k, name) (ap name (sym q)) in
      (subst (λ q. value_of q es ≡ none) (sym s) d.0, d.1)
  AreDistinct-set_same (x ∷ es) (suc i) e f at k p d =
      (value_of-set_same (name x) es i e f at k p ∙ d.0, AreDistinct-set_same es i e f at k p d.1)
