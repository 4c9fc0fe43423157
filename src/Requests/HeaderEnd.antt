-- ===== src/Requests/HeaderEnd.antt =====
-- The two scans for the end of a header of src/AmmServerlib/header_analysis/generic_header_tools.c.
use mathlib.Core.Path.{subst}
use ammar_server.Base.{
  ℕ, zero, suc, ◌+◌, ◌-◌, ◌≤◌, ◌<◌, ◌≡◌, ◌↔◌, refl, true, false, Bytes, length, ltb, ◌==◌, inl, inr,
  ◌⊎◌, arith, Bool-cases,
}
use ammar_server.Requests.{
  ends_at, scan_from_start, scan_from_end, found_from_start, found_from_end,
  scan_for_header_end_from_start, scan_for_header_end_from_end,
}

-- `i` is the first place in a range where two new lines end, or there is none and it is 0.
abbrev pub IsFirstEnd : Bytes → ℕ → ℕ → ℕ → Type 0
IsFirstEnd request from to i =
    ((i ≡ 0) × ((j : ℕ) → from ≤ j → j < to → ends_at request j ≡ false))
    ⊎ ((from ≤ i)
        × (i < to)
        × (ends_at request i ≡ true)
        × ((j : ℕ) → from ≤ j → j < i → ends_at request j ≡ false))

-- The same with the last place.
abbrev pub IsLastEnd : Bytes → ℕ → ℕ → ℕ → Type 0
IsLastEnd request from to i =
    ((i ≡ 0) × ((j : ℕ) → from ≤ j → j < to → ends_at request j ≡ false))
    ⊎ ((from ≤ i)
        × (i < to)
        × (ends_at request i ≡ true)
        × ((j : ℕ) → i < j → j < to → ends_at request j ≡ false))

not_here :
    (request : Bytes) (i to : ℕ)
    → ends_at request i ≡ false
    → ((j : ℕ) → i + 1 ≤ j → j < to → ends_at request j ≡ false)
    → (j : ℕ) → i ≤ j
    → j < to
    → ends_at request j ≡ false
not_here request i to open_here rest j l m = elim (Bool-cases (j == i)) [
  | inl same ↦ let z : j ≡ i = ground arith in rw z open_here
  | inr other ↦ rest j (ground arith) m
]

scan_from_start-IsFirstEnd :
    (request : Bytes) (left i to : ℕ)
    → to ≡ i + left
    → IsFirstEnd request i to (scan_from_start request left i)
unfolding scan_from_start
scan_from_start-IsFirstEnd request zero i to e = inl (refl, λ j l m. absurd (omega arith))
scan_from_start-IsFirstEnd request (suc left) i to e = elim (Bool-cases (ends_at request i)) [
  | inl ends ↦
      let here : scan_from_start request (suc left) i ≡ i = rw ends in
      rw here (inr (omega arith, omega arith, ends, λ j l m. absurd (omega arith)))
  | inr open_here ↦
      let here : scan_from_start request (suc left) i ≡ scan_from_start request left (i + 1) =
        rw open_here in
      rw here (elim (scan_from_start-IsFirstEnd request left (i + 1) to (omega arith)) [
        | inl (z, none_at) ↦ inl (z, not_here request i to open_here none_at)
        | inr (l, m, ends, before) ↦
            inr (omega arith, m, ends, not_here request i _ open_here before)
      ])
]

-- The scan from the start gives the first place from 3 on where two new lines end, and 0 where there
-- is none.
pub found_from_start-IsFirstEnd :
    (request : Bytes) → IsFirstEnd request 3 (length request) (found_from_start request)
unfolding found_from_start
found_from_start-IsFirstEnd request = elim (Bool-cases (ltb (length request) 4)) [
  | inl short ↦
      let small : length request ≤ 3 = ground arith in
      rw short (inl (refl, λ j l m. absurd (omega arith)))
  | inr long ↦
      let big : 4 ≤ length request = ground arith in
      rw long
        (scan_from_start-IsFirstEnd request (length request - 3) 3 (length request) (omega arith))
]

not_there :
    (request : Bytes) (i k : ℕ)
    → ends_at request (suc k) ≡ false
    → ((j : ℕ) → i ≤ j → j < suc k → ends_at request j ≡ false)
    → (j : ℕ) → i ≤ j
    → j < suc (suc k)
    → ends_at request j ≡ false
not_there request i k open_here rest j l m = elim (Bool-cases (j == suc k)) [
  | inl same ↦ let z : j ≡ suc k = ground arith in rw z open_here
  | inr other ↦ rest j l (ground arith)
]

scan_from_end-IsLastEnd :
    (request : Bytes) (before k : ℕ)
    → IsLastEnd request (before + 2) (suc k) (scan_from_end request before k)
unfolding scan_from_end
scan_from_end-IsLastEnd request before zero = inl (refl, λ j l m. absurd (omega arith))
scan_from_end-IsLastEnd request before (suc k) = elim (Bool-cases (ltb (before + 1) (suc k))) [
  | inr out ↦
      let low : suc k ≤ before + 1 = ground arith in
      let here : scan_from_end request before (suc k) ≡ 0 = rw out in
      rw here (inl (refl, λ j l m. absurd (omega arith)))
  | inl inside ↦
      let high : before + 1 < suc k = ground arith in
      elim (Bool-cases (ends_at request (suc k))) [
        | inl ends ↦
            let here : scan_from_end request before (suc k) ≡ suc k = rw (inside, ends) in
            rw here (inr (omega arith, omega arith, ends, λ j l m. absurd (omega arith)))
        | inr open_here ↦
            let here : scan_from_end request before (suc k) ≡ scan_from_end request before k =
              rw (inside, open_here) in
            rw here (elim (scan_from_end-IsLastEnd request before k) [
              | inl (z, none_at) ↦ inl (z, not_there request (before + 2) k open_here none_at)
              | inr (l, m, ends, behind) ↦
                  inr (l, omega arith, ends, not_there request (suc _) k open_here behind)
            ])
      ]
]

-- For a request of at least four bytes the scan from the end gives the last place, from two behind
-- the bound on, where two new lines end, and 0 where there is none.
pub found_from_end-IsLastEnd :
    (request : Bytes) (dont_search_before : ℕ)
    → 4 ≤ length request
    → IsLastEnd request
        (dont_search_before + 2)
        (length request)
        (found_from_end request dont_search_before)
unfolding found_from_end
found_from_end-IsLastEnd request dont_search_before h =
    let long : ltb (length request) 4 ≡ false = ground arith in
    let z : suc (length request - 1) ≡ length request = omega arith in
    rw long (
      subst
        (λ n.
          IsLastEnd request (dont_search_before + 2) n
            (scan_from_end request dont_search_before (length request - 1)))
        z (scan_from_end-IsLastEnd request dont_search_before (length request - 1)))

pub found_from_start_iff_found_from_end :
    (request : Bytes)
    → 4 ≤ length request
    → ends_at request 2 ≡ false
    → (found_from_start request ≡ 0) ↔ (found_from_end request 0 ≡ 0)
found_from_start_iff_found_from_end request h two = (to, back)
  where
    first : IsFirstEnd request 3 (length request) (found_from_start request)
    first = found_from_start-IsFirstEnd request

    last : IsLastEnd request 2 (length request) (found_from_end request 0)
    last = found_from_end-IsLastEnd request 0 h

    to : found_from_start request ≡ 0 → found_from_end request 0 ≡ 0
    to z = elim first [
      | inr (l, m, ends, before) ↦ absurd (omega arith)
      | inl (_, none_at) ↦ elim last [
        | inl (e, _) ↦ e
        | inr (l, m, ends, behind) ↦
            let all = not_here request 2 (length request) two none_at _ l m in
            absurd (cc (ends, all))
      ]
    ]

    back : found_from_end request 0 ≡ 0 → found_from_start request ≡ 0
    back z = elim last [
      | inr (l, m, ends, behind) ↦ absurd (omega arith)
      | inl (_, none_at) ↦ elim first [
        | inl (e, _) ↦ e
        | inr (l, m, ends, before) ↦ let all = none_at _ (omega arith) m in absurd (cc (ends, all))
      ]
    ]

-- For a request of at least four bytes whose first three bytes do not end in two new lines: the scan
-- from the start and the scan of the whole request from the end find nothing together.
pub scan_from_start_iff_scan_from_end :
    (request : Bytes) (a b : ℕ)
    → 4 ≤ length request
    → ends_at request 2 ≡ false
    → ((scan_for_header_end_from_start request a).0 ≡ 0)
      ↔ ((scan_for_header_end_from_end request 0 b).0 ≡ 0)
unfolding scan_for_header_end_from_start scan_for_header_end_from_end
scan_from_start_iff_scan_from_end request a b = found_from_start_iff_found_from_end request
