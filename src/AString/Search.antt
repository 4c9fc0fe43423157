-- ===== src/AString/Search.antt =====
-- `strstr`, as src/AmmServerlib/AString/AString.c calls it, on a text before its terminator.
use ammar_server.Base.{
  ℕ, zero, suc, ◌≤◌, ◌<◌, ◌≡◌, refl, ap, ◌∙◌, true, false, [], ◌∷◌, Option, some_eq, sym, ◌++◌,
  none, some, arith, Bytes, length, drop, inl, inr, Bool-cases, if◌then◌else◌,
}
use ammar_server.AString.Memory.{starts, next_byte, strstr}

-- No terminator stands in the text.
abbrev pub IsText : Bytes → Type 0
IsText [] = Unit
IsText (c ∷ s) = (0 < c) × IsText s

pub append-IsText : (s t : Bytes) → IsText s → IsText t → IsText (s ++ t)
append-IsText [] t h k = k
append-IsText (c ∷ s) t h k = (h.0, append-IsText s t h.1 k)

pub IsText-prefix : (s t : Bytes) → IsText (s ++ t) → IsText s
IsText-prefix [] t h = tt
IsText-prefix (c ∷ s) t h = (h.0, IsText-prefix s t h.1)

pub IsText-suffix : (s t : Bytes) → IsText (s ++ t) → IsText t
IsText-suffix [] t h = h
IsText-suffix (c ∷ s) t h = IsText-suffix s t h.1

-- The terminator stops a match.
pub starts-append :
    (needle s slack : Bytes) → IsText needle → starts needle (s ++ (0 ∷ slack)) ≡ starts needle s
unfolding starts
starts-append [] s slack h = refl
starts-append (c ∷ needle) [] slack h = ground arith
starts-append (c ∷ needle) (d ∷ s) slack h = ground (arith, starts-append needle s slack h.1)

pub starts-prefix : (needle s : Bytes) → starts needle (needle ++ s) ≡ true
unfolding starts
starts-prefix [] s = refl
starts-prefix (c ∷ needle) s = ground (arith, starts-prefix needle s)

-- The first place from which the needle stands is found.
pub strstr_first :
    (needle s slack : Bytes) (k : ℕ)
    → IsText needle
    → IsText s
    → k ≤ length s
    → ((q : ℕ) → q < k → starts needle (drop q s) ≡ false)
    → starts needle (drop k s) ≡ true
    → strstr (s ++ (0 ∷ slack)) needle ≡ some k
unfolding strstr next_byte
strstr_first needle [] slack zero n t h f e = rw (starts-append needle [] slack n ∙ e)
strstr_first needle [] slack (suc k) n t h f e = absurd (omega arith)
strstr_first needle (c ∷ s) slack zero n t h f e = rw (starts-append needle (c ∷ s) slack n ∙ e)
strstr_first needle (c ∷ s) slack (suc k) n t h f e =
    rw
      (
        starts-append needle (c ∷ s) slack n ∙ f 0 (omega arith),
        strstr_first needle s slack k n t.1 (omega arith) (λ q m. f (suc q) (omega arith)) e,
      )
      (ground arith)

-- Where it stands nowhere, nothing is found.
pub strstr_missing :
    (needle s slack : Bytes)
    → IsText needle
    → IsText s
    → ((q : ℕ) → q ≤ length s → starts needle (drop q s) ≡ false)
    → strstr (s ++ (0 ∷ slack)) needle ≡ none
unfolding strstr next_byte
strstr_missing needle [] slack n t f = rw (starts-append needle [] slack n ∙ f 0 (omega arith))
strstr_missing needle (c ∷ s) slack n t f =
    rw
      (
        starts-append needle (c ∷ s) slack n ∙ f 0 (omega arith),
        strstr_missing needle s slack n t.1 (λ q m. f (suc q) (omega arith)),
      )
      (ground arith)

pub starts_split :
    (needle s : Bytes) → starts needle s ≡ true → s ≡ needle ++ drop (length needle) s
unfolding starts
starts_split [] s h = refl
starts_split (c ∷ needle) [] h = cc
starts_split (c ∷ needle) (d ∷ s) h = ground (arith, starts_split needle s)

-- The first place at which the needle stands in a text.
unfoldable pub first_place : Bytes → Bytes → Option ℕ
unfolding starts next_byte
first_place needle [] = if starts needle [] then some 0 else none
first_place needle (d ∷ s) =
    if starts needle (d ∷ s) then some 0 else next_byte (first_place needle s)

pub strstr-first_place :
    (needle s slack : Bytes)
    → IsText needle
    → IsText s
    → strstr (s ++ (0 ∷ slack)) needle ≡ first_place needle s
unfolding strstr first_place
strstr-first_place needle [] slack n t = rw (starts-append needle [] slack n) (ground arith)
strstr-first_place needle (c ∷ s) slack n t =
    rw (starts-append needle (c ∷ s) slack n, strstr-first_place needle s slack n t.1)
      (ground arith)

next_byte-some :
    (o : Option ℕ) (i : ℕ) → next_byte o ≡ some i → (j : ℕ) × (o ≡ some j) × (suc j ≡ i)
unfolding next_byte
next_byte-some none i h = cc
next_byte-some (some j) i h = (j, refl, some_eq h)

-- What is found is within the text, and the needle stands there.
pub first_place-some :
    (needle s : Bytes) (i : ℕ)
    → first_place needle s ≡ some i
    → (i ≤ length s) × (starts needle (drop i s) ≡ true)
unfolding first_place
first_place-some needle [] i h = elim (Bool-cases (starts needle [])) [
  | inl e ↦
      let z : 0 ≡ i = some_eq (rw e at h) in
      (omega arith, ap (λ q. starts needle (drop q [])) (sym z) ∙ e)
  | inr e ↦ absurd (cc (rw e at h))
]
first_place-some needle (c ∷ s) i h = elim (Bool-cases (starts needle (c ∷ s))) [
  | inl e ↦
      let z : 0 ≡ i = some_eq (rw e at h) in
      (omega arith, ap (λ q. starts needle (drop q (c ∷ s))) (sym z) ∙ e)
  | inr e ↦
      let (j, f, z) = next_byte-some (first_place needle s) i (rw e at h) in
      let (l, t) = first_place-some needle s j f in
      (omega arith, ap (λ q. starts needle (drop q (c ∷ s))) (sym z) ∙ t)
]
