-- ===== src/GetData/Lengths.antt =====
-- The lengths of the names and the values, src/AmmServerlib/header_analysis/get_data.c.
use mathlib.Core.List.{append_assoc}
use ammar_server.Base.{
  ℕ, suc, ◌<◌, ◌≡◌, refl, sym, ap, ◌∙◌, Bool, true, false, ◌||◌, List, [], ◌∷◌, ◌++◌, some, Bytes,
  length, drop, arith, length-append, drop-append, ◌==◌,
}
use ammar_server.GetData.Reading.{IsName, one_more_character, if_not, plain_tests}
use ammar_server.GetData.Fields.{IsValue, value_character, value_tests}
use ammar_server.GetData.Pairs.{
  Pair, IsPair, ArePairs, one_pair, another_pair, terminated, value_place, behind, pointed,
  pointed_items, before, length-before, before-terminated, value_here,
}
use ammar_server.GetData.{Item, is_line_end, strlen, strlen_at, measure, one_more}

-- The item of a pair.
abbrev pub measured : ℕ → Pair → Item
measured at p = record {
  name = some at;
  name_size = length p.name;
  value = some (value_place at p);
  value_size = length p.value;
  reallocate_on_resize = true;
}

unfoldable pub measured_items : ℕ → Pair → List Pair → List Item → List Item
measured_items at p ps [] = []
measured_items at p [] (item ∷ free) = measured at p ∷ free
measured_items at p (q ∷ ps) (item ∷ free) = measured at p ∷ measured_items (behind at p) q ps free

last_test : (a b c : Bool) → ((a || b) || c) ≡ false → c ≡ false
last_test a b false h = refl
last_test true b true h = cc
last_test false true true h = cc
last_test false false true h = cc

pub not_zero : (c : ℕ) → is_line_end c ≡ false → (c == 0) ≡ false
not_zero c h = last_test (c == 10) (c == 13) (c == 0) h

strlen-one_more :
    (c : ℕ) (s : Bytes) (n : ℕ)
    → (c == 0) ≡ false
    → strlen s ≡ some n
    → strlen (c ∷ s) ≡ some (suc n)
unfolding strlen one_more
strlen-one_more c s n h e = if_not _ _ (c == 0) h ∙ rw e refl

module _ (rest : Bytes) where
  strlen-name : (name : Bytes) → IsName name → strlen (name ++ (0 ∷ rest)) ≡ some (length name)
  unfolding strlen
  strlen-name [] h = refl
  strlen-name (c ∷ name) (one_more_character plain h) =
      let tests = plain_tests (is_line_end c) (c == b'=') (c == b'&') plain in
      strlen-one_more c (name ++ (0 ∷ rest)) (length name) (not_zero c tests.0) (strlen-name name h)

  strlen-value :
      (value : Bytes) → IsValue value → strlen (value ++ (0 ∷ rest)) ≡ some (length value)
  unfolding strlen
  strlen-value [] h = refl
  strlen-value (c ∷ value) (value_character plain h) =
      let tests = value_tests (is_line_end c) (c == b'&') plain in
      strlen-one_more c (value ++ (0 ∷ rest)) (length value) (not_zero c tests.0)
        (strlen-value value h)

module _ (pre : Bytes) (p : Pair) (h : IsPair p) (post buffer : Bytes)
    (e : buffer ≡ pre ++ (p.name ++ (0 ∷ (p.value ++ (0 ∷ post))))) where
  name_measured : strlen_at buffer (some (length pre)) ≡ some (length p.name)
  unfolding strlen_at
  name_measured =
      ap (λ b. strlen (drop (length pre) b)) e
      ∙ ap strlen (drop-append pre (p.name ++ (0 ∷ (p.value ++ (0 ∷ post)))))
      ∙ strlen-name (p.value ++ (0 ∷ post)) p.name h.name-IsName

  value_measured : strlen_at buffer (some (value_place (length pre) p)) ≡ some (length p.value)
  unfolding strlen_at
  value_measured =
      ap (λ b. strlen (drop (value_place (length pre) p) b))
        (e ∙ sym (append_assoc pre p.name (0 ∷ (p.value ++ (0 ∷ post)))))
      ∙ ap strlen (value_here pre p 0 post)
      ∙ strlen-value post p.value h.value-IsValue

  measure-one :
      (n : ℕ) (x : Item) (items items' : List Item)
      → measure n buffer items ≡ some items'
      → measure (suc n) buffer (pointed (length pre) p x ∷ items)
        ≡ some (measured (length pre) p ∷ items')
  unfolding measure
  measure-one n x items items' rest = rw (name_measured, value_measured, rest) refl

module _ (post : Bytes) where
  pub measure-pointed_items :
      (ps : List Pair) (p : Pair) (pre buffer : Bytes) (free : List Item)
      → ArePairs p ps
      → length ps < length free
      → buffer ≡ pre ++ terminated p ps (0 ∷ post)
      → measure (suc (length ps)) buffer (pointed_items (length pre) p ps free)
        ≡ some (measured_items (length pre) p ps free)
  unfolding terminated pointed_items measured_items measure
  measure-pointed_items ps p pre buffer [] h room e = absurd (omega arith)
  measure-pointed_items [] p pre buffer (x ∷ free) (one_pair h) room e =
      measure-one pre p h post buffer e 0 x free free refl
  measure-pointed_items (r ∷ ps) p pre buffer (x ∷ free) (another_pair h hs) room e =
      let pre' = before pre p ++ (0 ∷ []) in
      let f = length-append (before pre p) (0 ∷ []) in
      let g = length-before pre p in
      let k : length pre' ≡ behind (length pre) p = omega arith in
      let b : buffer ≡ pre' ++ terminated r ps (0 ∷ post) =
        e
        ∙ sym (
            append_assoc (before pre p) (0 ∷ []) (terminated r ps (0 ∷ post))
            ∙ before-terminated pre p 0 (terminated r ps (0 ∷ post))) in
      let rest = measure-pointed_items ps r pre' buffer free hs (omega arith) b in
      measure-one pre p h (terminated r ps (0 ∷ post)) buffer e (suc (length ps)) x _ _ (
        sym (ap (λ j. measure (suc (length ps)) buffer (pointed_items j r ps free)) k)
        ∙ rest
        ∙ ap (λ j. some (measured_items j r ps free)) k)
