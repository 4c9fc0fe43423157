-- ===== src/Scanners/Words.antt =====
-- What the scanners of src/AmmServerlib/stringscanners share: the C library's comparison, and the
-- words of a scanner as a table.
use ammar_server.Base.{
  ℕ, zero, suc, ◌-◌, ◌≤◌, ◌≡◌, ◌≢◌, refl, Bool, true, ◌&&◌, ◌||◌, List, [], ◌∷◌, Option, none, some,
  arith, Bytes, length, get_or, leb, ◌==◌, if◌then◌else◌,
}

-- `toupper`, in the C locale
unfoldable pub to_upper : ℕ → ℕ
to_upper c = if leb b'a' c && leb c b'z' then c - 32 else c

-- A read at a position; behind the bytes stands the terminator.
abbrev pub char_at : Bytes → ℕ → ℕ
char_at s i = get_or s i 0

abbrev pub upper_at : ℕ → Bytes → ℕ
upper_at i s = to_upper (char_at s i)

-- `strncasecmp(a,b,n)==0`
unfoldable pub strncasecmp : Bytes → Bytes → ℕ → Bool
unfolding to_upper
strncasecmp a b zero = true
strncasecmp [] [] (suc n) = true
strncasecmp [] (y ∷ b) (suc n) = y == 0
strncasecmp (x ∷ a) [] (suc n) = x == 0
strncasecmp (x ∷ a) (y ∷ b) (suc n) = to_upper x == to_upper y && (x == 0 || strncasecmp a b n)

-- `(strLength>=length) && (strncasecmp(str,word,length)==0)`
unfoldable pub is_word : Bytes → ℕ → ℕ → Bytes → Bool
is_word str str_length n word = leb n str_length && strncasecmp str word n

-- `if (strLength<length) { return 0; } if (strncasecmp(str,word,length)==0) { return code; }`, with
-- the `break` to the `return 0` behind it
unfoldable pub fixed_word {ℓ} : {A : Type ℓ} → Bytes → ℕ → ℕ → Bytes → A → Option A
fixed_word str str_length n word code = if is_word str str_length n word then some code else none

-- A word of a scanner, with its length and its code.
pub data Word {ℓ} (A : Type ℓ) : Type ℓ where
  word : ℕ → Bytes → A → Word A

-- The code of the first word that the text begins with.
unfoldable pub first_word {ℓ} : {A : Type ℓ} → List (Word A) → Bytes → ℕ → Option A
first_word [] str str_length = none
first_word (word n w code ∷ words) str str_length =
    if is_word str str_length n w then some code else first_word words str str_length

head_upper :
    (a b : Bytes) (c n : ℕ)
    → c ≢ 0
    → strncasecmp a (c ∷ b) (suc n) ≡ true
    → (x : ℕ) × (r : Bytes) × (a ≡ x ∷ r)
      × (to_upper x ≡ to_upper c)
      × (x ≢ 0)
      × (strncasecmp r b n ≡ true)
unfolding strncasecmp
head_upper [] b c n h e = absurd (ground arith)
head_upper (x ∷ a) b c n h e = (x, a, refl, ground arith, ground arith, ground arith)

-- A text that begins with a word is as long, and begins with its letters.
pub letters2 :
    (c d : ℕ) (w str : Bytes) (n : ℕ)
    → c ≢ 0
    → d ≢ 0
    → is_word str n (length (c ∷ d ∷ w)) (c ∷ d ∷ w) ≡ true
    → (length (c ∷ d ∷ w) ≤ n) × (upper_at 0 str ≡ to_upper c) × (upper_at 1 str ≡ to_upper d)
unfolding is_word
letters2 c d w str n hc hd h =
    let (x, r, e, up, _, more) = head_upper str (d ∷ w) c (suc (length w)) hc (ground arith) in
    let (y, q, f, up', _, _) = head_upper r w d (length w) hd more in
    rw (e, f) (ground arith, up, up')

pub letters3 :
    (c d e : ℕ) (w str : Bytes) (n : ℕ)
    → c ≢ 0
    → d ≢ 0
    → e ≢ 0
    → is_word str n (length (c ∷ d ∷ e ∷ w)) (c ∷ d ∷ e ∷ w) ≡ true
    → (length (c ∷ d ∷ e ∷ w) ≤ n)
      × (upper_at 0 str ≡ to_upper c)
      × (upper_at 1 str ≡ to_upper d)
      × (upper_at 2 str ≡ to_upper e)
unfolding is_word
letters3 c d e w str n hc hd he h =
    let (x, r, at_x, up, _, more) =
      head_upper str (d ∷ e ∷ w) c (suc (suc (length w))) hc (ground arith) in
    let (y, q, at_y, up', _, more') = head_upper r (e ∷ w) d (suc (length w)) hd more in
    let (z, t, at_z, up'', _, _) = head_upper q w e (length w) he more' in
    rw (at_x, at_y, at_z) (ground arith, up, up', up'')
