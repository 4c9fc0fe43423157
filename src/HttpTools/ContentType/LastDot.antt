-- ===== src/HttpTools/ContentType/LastDot.antt =====
-- The search of `GetContentType`, src/AmmServerlib/tools/http_tools.c, for the last dot of a name.
use ammar_server.Base.{
  ℕ, zero, suc, ◌+◌, ◌-◌, ◌<◌, ◌≡◌, ◌≢◌, refl, ap, ◌∙◌, [], ◌∷◌, ◌++◌, Bytes, length, arith, leb,
  ◌==◌, length-append, drop, get_or, false,
}
use ammar_server.HttpTools.ContentType.{last_dot, get_content_type, get_content_type_for_extension}

abbrev pub NoDot : Bytes → Type 0
NoDot [] = Unit
NoDot (c ∷ cs) = (c ≢ b'.') × NoDot cs

get_or-NoDot : (s : Bytes) (i : ℕ) → NoDot s → get_or s i 0 ≢ b'.'
get_or-NoDot [] i h = λ e. absurd (omega arith)
get_or-NoDot (c ∷ s) zero h = h.0
get_or-NoDot (c ∷ s) (suc i) h = get_or-NoDot s i h.1

get_or-append : (a b : Bytes) (i : ℕ) → get_or (a ++ b) (length a + i) 0 ≡ get_or b i 0
get_or-append [] b i = let e : 0 + i ≡ i = omega arith in rw e
get_or-append (x ∷ a) b i =
    let e : suc (length a) + i ≡ suc (length a + i) = omega arith in rw e (get_or-append a b i)

last_dot_at :
    (base ext : Bytes) (k : ℕ)
    → 0 < length base
    → NoDot ext
    → last_dot (base ++ (b'.' ∷ ext)) (length base + k) ≡ length base
unfolding last_dot
last_dot_at [] ext k h d = absurd (omega arith)
last_dot_at (x ∷ base) ext zero h d =
    let e : suc (length base) + 0 ≡ suc (length base) = omega arith in
    let at : get_or (base ++ (b'.' ∷ ext)) (length base + 0) 0 ≡ b'.' =
      get_or-append base (b'.' ∷ ext) 0 in
    let here : get_or (base ++ (b'.' ∷ ext)) (length base) 0 ≡ b'.' =
      ap (λ i. get_or (base ++ (b'.' ∷ ext)) i 0) (omega arith) ∙ at in
    rw (e, last_dot, here)
last_dot_at (x ∷ base) ext (suc k) h d =
    let e : suc (length base) + suc k ≡ suc (suc (length base) + k) = omega arith in
    let at : get_or (base ++ (b'.' ∷ ext)) (length base + suc k) 0 ≡ get_or ext k 0 =
      get_or-append base (b'.' ∷ ext) (suc k) in
    let f : length base + suc k ≡ suc (length base) + k = omega arith in
    let other : (get_or (base ++ (b'.' ∷ ext)) (suc (length base) + k) 0 == b'.') ≡ false =
      rw (← f, at) (ground (arith, get_or-NoDot ext k d)) in
    rw (e, last_dot, other) (last_dot_at (x ∷ base) ext k h d)

-- For a name that is not empty, a dot, and an extension that is not empty and holds no dot: the
-- content type of the whole is that of the extension, whatever dots the name holds.
pub get_content_type-append :
    (base ext : Bytes) (n : ℕ)
    → 0 < length base
    → 0 < length ext
    → NoDot ext
    → get_content_type (base ++ (b'.' ∷ ext)) n ≡ get_content_type_for_extension ext n
unfolding get_content_type
get_content_type-append base ext n hb he d =
    let size = length-append base (b'.' ∷ ext) in
    let from : length (base ++ (b'.' ∷ ext)) - 1 ≡ length base + length ext = omega arith in
    let dot = last_dot_at base ext (length ext) hb d in
    let some_left : (length (base ++ (b'.' ∷ ext)) == 0) ≡ false = ground arith in
    let not_first : (length base == 0) ≡ false = ground arith in
    let not_last : leb (length (base ++ (b'.' ∷ ext))) (length base + 1) ≡ false = ground arith in
    let cut : drop (length base + 1) (base ++ (b'.' ∷ ext)) ≡ ext = cut_dot base ext in
    rw (some_left, from, dot, not_first, not_last, cut)
  where
    cut_dot : (a e : Bytes) → drop (length a + 1) (a ++ (b'.' ∷ e)) ≡ e
    cut_dot [] e = refl
    cut_dot (x ∷ a) e =
        let f : suc (length a) + 1 ≡ suc (length a + 1) = omega arith in rw f (cut_dot a e)
