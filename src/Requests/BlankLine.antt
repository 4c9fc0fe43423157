-- ===== src/Requests/BlankLine.antt =====
-- The end of a header as a text: two new lines one behind the other, as the comments of
-- src/AmmServerlib/header_analysis/generic_header_tools.c have it.
use ammar_server.Base.{
  ℕ, zero, suc, ◌+◌, ◌-◌, ◌≤◌, ◌<◌, ◌≡◌, refl, ap, ◌∙◌, Bool, true, false, ◌&&◌, ◌||◌, [], ◌∷◌,
  ◌++◌, Bytes, length, get_or, leb, ◌==◌, inl, inr, ◌⊎◌, arith,
}
use ammar_server.Requests.{
  ends_at, cr, lf, found_from_start, scan_for_header_end_from_start, reported,
}
use ammar_server.Requests.HeaderEnd.{IsFirstEnd, found_from_start-IsFirstEnd}

-- The marks stand in the request, and `i` is the place of the last of them.
pub record EndsWith (marks request : Bytes) (i : ℕ) : Type 0 where
  pub before : Bytes
  pub behind : Bytes
  pub parts : request ≡ before ++ (marks ++ behind)
  pub place : length before + length marks ≡ i + 1

-- Two new lines of Unix or of Windows.
abbrev pub IsBlankLine : Bytes → ℕ → Type 0
IsBlankLine request i =
    EndsWith (lf ∷ lf ∷ []) request i ⊎ EndsWith (cr ∷ lf ∷ cr ∷ lf ∷ []) request i

-- The marks are the bytes from a place on.
abbrev AreAt : Bytes → Bytes → ℕ → Type 0
AreAt [] request k = Unit
AreAt (c ∷ marks) request k = (get_or request k 0 ≡ c) × AreAt marks request (suc k)

AreAt-tail :
    (marks : Bytes) (x : ℕ) (request : Bytes) (k : ℕ)
    → AreAt marks (x ∷ request) (suc k)
    → AreAt marks request k
AreAt-tail [] x request k h = tt
AreAt-tail (c ∷ marks) x request k (e, h) = (e, AreAt-tail marks x request (suc k) h)

AreAt-cons :
    (marks : Bytes) (x : ℕ) (request : Bytes) (k : ℕ)
    → AreAt marks request k
    → AreAt marks (x ∷ request) (suc k)
AreAt-cons [] x request k h = tt
AreAt-cons (c ∷ marks) x request k (e, h) = (e, AreAt-cons marks x request (suc k) h)

-- No terminator stands in the marks.
abbrev ArePositive : Bytes → Type 0
ArePositive [] = Unit
ArePositive (c ∷ marks) = (0 < c) × ArePositive marks

AreAt-prefix :
    (marks request : Bytes)
    → ArePositive marks
    → AreAt marks request 0
    → (behind : Bytes) × (request ≡ marks ++ behind)
AreAt-prefix [] request p h = (request, refl)
AreAt-prefix (c ∷ marks) [] (p, ps) (e, h) = absurd (omega arith)
AreAt-prefix (c ∷ marks) (x ∷ request) (p, ps) (e, h) =
    let (behind, rest) = AreAt-prefix marks request ps (AreAt-tail marks x request 0 h) in
    (behind, cc)

AreAt-parts :
    (c : ℕ) (marks request : Bytes) (k : ℕ)
    → ArePositive (c ∷ marks)
    → AreAt (c ∷ marks) request k
    → (before : Bytes) × (behind : Bytes) × (request ≡ before ++ ((c ∷ marks) ++ behind))
      × (length before ≡ k)
AreAt-parts c marks request zero p h =
    let (behind, e) = AreAt-prefix (c ∷ marks) request p h in ([], behind, e, refl)
AreAt-parts c marks [] (suc k) p h = let z = p.0 in let e = h.0 in absurd (omega arith)
AreAt-parts c marks (x ∷ request) (suc k) p h =
    let (before, behind, e, n) =
      AreAt-parts c marks request k p (AreAt-tail (c ∷ marks) x request k h) in
    (x ∷ before, behind, ap (◌∷◌ x) e, ap suc n)

AreAt-start : (marks behind : Bytes) → AreAt marks (marks ++ behind) 0
AreAt-start [] behind = tt
AreAt-start (c ∷ marks) behind =
    (refl, AreAt-cons marks c (marks ++ behind) 0 (AreAt-start marks behind))

AreAt-behind :
    (marks before behind : Bytes) → AreAt marks (before ++ (marks ++ behind)) (length before)
AreAt-behind marks [] behind = AreAt-start marks behind
AreAt-behind marks (x ∷ before) behind =
    AreAt-cons marks x (before ++ (marks ++ behind)) (length before)
      (AreAt-behind marks before behind)

EndsWith-parts :
    (c : ℕ) (marks request : Bytes) (k i : ℕ)
    → ArePositive (c ∷ marks)
    → k + length (c ∷ marks) ≡ i + 1
    → AreAt (c ∷ marks) request k
    → EndsWith (c ∷ marks) request i
EndsWith-parts c marks request k i p place h =
    let (before, behind, e, n) = AreAt-parts c marks request k p h in
    record { before = before; behind = behind; parts = e; place = omega arith }

-- The tests of a round on the byte at `i` and the three before it.
tests : ℕ → ℕ → ℕ → ℕ → ℕ → Bool
tests i d c b a = d == lf && ((leb 1 i && c == lf) || (leb 3 i && a == cr && b == lf && c == cr))

tests-true :
    (i d c b a : ℕ)
    → tests i d c b a ≡ true
    → (d ≡ lf) × (((1 ≤ i) × (c ≡ lf)) ⊎ ((3 ≤ i) × ((a ≡ cr) × ((b ≡ lf) × (c ≡ cr)))))
unfolding tests
tests-true i d c b a h = ground arith

unix_tests : (i d c b a : ℕ) → d ≡ lf → 1 ≤ i → c ≡ lf → tests i d c b a ≡ true
unfolding tests
unix_tests i d c b a e l f = ground arith

windows_tests : (i d c b a : ℕ) → d ≡ lf → 3 ≤ i → a ≡ cr → b ≡ lf → c ≡ cr → tests i d c b a ≡ true
unfolding tests
windows_tests i d c b a e l f g k = ground arith

ends_at-IsBlankLine : (request : Bytes) (i : ℕ) → ends_at request i ≡ true → IsBlankLine request i
unfolding ends_at tests
ends_at-IsBlankLine request i h =
    let at = λ (k : ℕ). get_or request k 0 in
    let (d, found) = tests-true i (at i) (at (i - 1)) (at (i - 2)) (at (i - 3)) h in
    elim found [
      | inl (l, c) ↦
          let z : suc (i - 1) ≡ i = omega arith in
          inl (
            EndsWith-parts lf (lf ∷ []) request (i - 1) i (omega arith, (omega arith, tt))
              (omega arith) (c, (ap (λ k. get_or request k 0) z ∙ d, tt)))
      | inr (l, (a, (b, c))) ↦
          let x : suc (i - 3) ≡ i - 2 = omega arith in
          let y : suc (suc (i - 3)) ≡ i - 1 = omega arith in
          let z : suc (suc (suc (i - 3))) ≡ i = omega arith in
          inr (
            EndsWith-parts cr (lf ∷ cr ∷ lf ∷ []) request (i - 3) i
              (omega arith, (omega arith, (omega arith, (omega arith, tt)))) (omega arith)
              (
                a,
                (
                  ap (λ k. get_or request k 0) x ∙ b,
                  (ap (λ k. get_or request k 0) y ∙ c, (ap (λ k. get_or request k 0) z ∙ d, tt)),
                ),
              ))
    ]

EndsWith-AreAt :
    (marks request : Bytes) (i : ℕ) (w : EndsWith marks request i)
    → AreAt marks request (length w.before)
EndsWith-AreAt marks request i w = rw w.parts (AreAt-behind marks w.before w.behind)

IsBlankLine-ends_at : (request : Bytes) (i : ℕ) → IsBlankLine request i → ends_at request i ≡ true
unfolding ends_at tests
IsBlankLine-ends_at request i (inl w) =
    let k = length w.before in
    let place : k + 2 ≡ i + 1 = w.place in
    let (c, (d, u)) = EndsWith-AreAt (lf ∷ lf ∷ []) request i w in
    let y : i - 1 ≡ k = omega arith in
    let z : i ≡ suc k = omega arith in
    let at = λ (j : ℕ). get_or request j 0 in
    unix_tests i (at i) (at (i - 1)) (at (i - 2)) (at (i - 3)) (ap at z ∙ d) (omega arith)
      (ap at y ∙ c)
IsBlankLine-ends_at request i (inr w) =
    let k = length w.before in
    let place : k + 4 ≡ i + 1 = w.place in
    let (a, (b, (c, (d, u)))) = EndsWith-AreAt (cr ∷ lf ∷ cr ∷ lf ∷ []) request i w in
    let v : i - 3 ≡ k = omega arith in
    let x : i - 2 ≡ suc k = omega arith in
    let y : i - 1 ≡ suc (suc k) = omega arith in
    let z : i ≡ suc (suc (suc k)) = omega arith in
    let at = λ (j : ℕ). get_or request j 0 in
    windows_tests i (at i) (at (i - 1)) (at (i - 2)) (at (i - 3)) (ap at z ∙ d) (omega arith)
      (ap at v ∙ a) (ap at x ∙ b) (ap at y ∙ c)

ends_at-false : (request : Bytes) (i : ℕ) → ends_at request i ≡ false → ¬ IsBlankLine request i
ends_at-false request i h blank = let e = IsBlankLine-ends_at request i blank in cc

-- The answer of a scan of the places in a range, and what it writes: the first place where a blank
-- line ends, twice, or 0 and the value that was there if there is none.
pub data FirstBlankLine (request : Bytes) (from to this_scan_result : ℕ) : ℕ × ℕ → Type 0 where
  nowhere :
      ((j : ℕ) → from ≤ j → j < to → ¬ IsBlankLine request j)
      → FirstBlankLine request from to this_scan_result (0, this_scan_result)
  first :
      {i : ℕ}
      → from ≤ i
      → i < to
      → IsBlankLine request i
      → ((j : ℕ) → from ≤ j → j < i → ¬ IsBlankLine request j)
      → FirstBlankLine request from to this_scan_result (i, i)

reported-FirstBlankLine :
    (request : Bytes) (from to old i : ℕ)
    → 0 < from
    → IsFirstEnd request from to i
    → FirstBlankLine request from to old (reported old i)
reported-FirstBlankLine request from to old i low (inl (z, none_at)) =
    rw z (nowhere (λ j l m. ends_at-false request j (none_at j l m)))
reported-FirstBlankLine request from to old i low (inr (l, m, ends, none_at)) =
    let positive : (i == 0) ≡ false = ground arith in
    rw positive (
      first l m (ends_at-IsBlankLine request i ends)
        (λ j l' m'. ends_at-false request j (none_at j l' m')))

-- The scan from the start returns the first place from 3 on that is the last byte of two new lines one
-- behind the other, LF LF or CR LF CR LF, and writes it to `*thisScanResult`; where there is none it
-- returns 0 and writes nothing.
pub scan_for_header_end_from_start-FirstBlankLine :
    (request : Bytes) (this_scan_result : ℕ)
    → FirstBlankLine request 3
        (length request)
        this_scan_result
        (scan_for_header_end_from_start request this_scan_result)
unfolding scan_for_header_end_from_start
scan_for_header_end_from_start-FirstBlankLine request this_scan_result =
    reported-FirstBlankLine request 3 (length request) this_scan_result (found_from_start request)
      (omega arith) (found_from_start-IsFirstEnd request)
