-- ===== src/HttpTools/Unescape/Text.antt =====
-- What the escapes of a path stand for, for src/AmmServerlib/tools/http_tools.c.
use ammar_server.Base.{
  ℕ, ◌≤◌, ◌≡◌, true, false, Bool, [], ◌∷◌, none, some, arith, Bytes, length, ◌==◌, if◌then◌else◌,
}
use ammar_server.HttpTools.Unescape.{escaped}

-- A text of three characters or more: an escape becomes its character, the '%' of a refused one '_'.
unfoldable pub unescape : Bool → Bytes → Bytes
unescape security [] = []
unescape security (c ∷ []) = c ∷ []
unescape security (c ∷ a ∷ []) = c ∷ a ∷ []
unescape security (c ∷ a ∷ b ∷ s) =
    let shorter = unescape security s in
    let plain = unescape security (a ∷ b ∷ s) in
    if c == b'%'
    then elim (escaped security a b) [ none ↦ b'_' ∷ plain | some v ↦ v ∷ shorter ]
    else c ∷ plain

pub length-unescape : (security : Bool) (s : Bytes) → length (unescape security s) ≤ length s
unfolding unescape
length-unescape security [] = omega arith
length-unescape security (c ∷ []) = omega arith
length-unescape security (c ∷ a ∷ []) = omega arith
length-unescape security (c ∷ a ∷ b ∷ s) =
    ground (arith, length-unescape security s, length-unescape security (a ∷ b ∷ s))

module _ (security : Bool) (c a b : ℕ) (s : Bytes) where
  pub unescape_plain :
      (c == b'%') ≡ false → unescape security (c ∷ a ∷ b ∷ s) ≡ c ∷ unescape security (a ∷ b ∷ s)
  unfolding unescape
  unescape_plain e = rw e

  pub unescape_refused :
      (c == b'%') ≡ true
      → escaped security a b ≡ none
      → unescape security (c ∷ a ∷ b ∷ s) ≡ b'_' ∷ unescape security (a ∷ b ∷ s)
  unfolding unescape
  unescape_refused e f = rw (e, f)

  pub unescape_escape :
      (v : ℕ)
      → (c == b'%') ≡ true
      → escaped security a b ≡ some v
      → unescape security (c ∷ a ∷ b ∷ s) ≡ v ∷ unescape security s
  unfolding unescape
  unescape_escape v e f = rw (e, f)
