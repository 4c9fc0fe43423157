-- ===== src/GetData/Crash.antt =====
-- Queries that begin with a name and no value, src/AmmServerlib/header_analysis/get_data.c.
use ammar_server.GetData.Reading.{
  IsName, no_more, one_more_character, if_not, drop_head, scan_loop-plain, begun-begun,
}
use mathlib.Core.Path.{subst}
use ammar_server.Base.{
  ℕ, zero, suc, ◌+◌, ◌≡◌, refl, sym, ap, ◌∙◌, false, List, [], ◌∷◌, ◌++◌, none, some, Bytes, length,
  get_elem?, set, drop, ◌==◌, ◌>>=◌, arith, ◌<◌,
}
use ammar_server.GetData.Ends.{Ends, ended, Ends-bind, Ends-any}
use ammar_server.GetData.Nameless.{
  first_value, IsNameless, terminate-IsNameless, scan_loop-IsNameless, finish-crashes,
}
use ammar_server.GetData.{
  Item, seeking_name, Scan, store_name, terminate, next_item, at_ampersand, begun, at_character,
  scan_loop, finish, scan_of, finalize_generic_get_field,
}

first_value_stored :
    (target : List Item) (start : ℕ) (item : Item)
    → first_value (set target 0 (record item { name = some start; value = none })) ≡ none
first_value_stored [] start item = refl
first_value_stored (x ∷ target) start item = refl

module _ (s : Scan) (i : ℕ) (none_yet : s.target_number ≡ 0) where
  at_ampersand-IsNameless : Ends IsNameless (at_ampersand seeking_name i s)
  unfolding at_ampersand store_name
  at_ampersand-IsNameless = Ends-bind (store_name s) _ named (λ s' k.
      Ends-bind (terminate i (next_item s')) _ (terminate-IsNameless (next_item s') k i)
        (λ done l. ended (record { counted = l.counted; no_value = l.no_value })))
    where
      named : Ends (λ s'. IsNameless (next_item s')) (store_name s)
      named =
          Ends-bind (get_elem? s.target s.target_number) _
            (Ends-any (get_elem? s.target s.target_number))
            (λ item u. ended (record {
              counted = omega arith;
              no_value =
                  ap
                    (λ n.
                      first_value
                        (set s.target n (record item { name = some s.start; value = none })))
                    none_yet
                  ∙ first_value_stored s.target s.start item;
            }))

at_character-IsNameless :
    (i : ℕ) (s : Scan)
    → begun s.state ≡ seeking_name
    → s.target_number ≡ 0
    → Ends IsNameless (at_character b'&' i s)
unfolding at_character
at_character-IsNameless i s waiting none_yet =
    subst (λ q. Ends IsNameless (at_ampersand q i (record s { state = begun s.state })))
      (sym waiting) (at_ampersand-IsNameless (record s { state = begun s.state }) i none_yet)

at_ampersand-crashes :
    (i n : ℕ) (s : Scan)
    → begun s.state ≡ seeking_name
    → s.target_number ≡ 0
    → get_elem? s.buffer i ≡ some b'&'
    → scan_loop (suc n) i s >>= finish ≡ none
unfolding scan_loop
at_ampersand-crashes i n s waiting none_yet here = rw here (
    finish-crashes _ (
      Ends-bind (at_character b'&' i s) _ (at_character-IsNameless i s waiting none_yet)
        (λ read k. scan_loop-IsNameless n (i + 1) read k)))

module _ (rest : Bytes) where
  name_without_value :
      (name : Bytes) (i n : ℕ) (s : Scan)
      → IsName name
      → begun s.state ≡ seeking_name
      → s.target_number ≡ 0
      → drop i s.buffer ≡ name ++ (b'&' ∷ rest)
      → length name < n
      → scan_loop n i s >>= finish ≡ none
  name_without_value name i zero s h waiting none_yet here room = absurd (omega arith)
  name_without_value [] i (suc n) s no_more waiting none_yet here room =
      at_ampersand-crashes i n s waiting none_yet (drop_head i s.buffer b'&' rest here).0
  name_without_value (c ∷ name) i (suc n) s (one_more_character plain h) waiting none_yet here
        room =
      let (read, next) = drop_head i s.buffer c (name ++ (b'&' ∷ rest)) here in
      let e : i + 1 ≡ suc i = omega arith in
      ap (λ m. m >>= finish) (scan_loop-plain s i n c read plain)
      ∙ name_without_value name (i + 1) n (record s { state = begun s.state }) h
          (begun-begun s.state ∙ waiting) none_yet (rw e next) (omega arith)

-- A query that begins with a name, which has no line end, `=` or `&`, and goes on with `&` makes
-- `finalizeGenericGETField` crash, whatever follows within the length that is given: the first item
-- has no value, and its length is taken all the same.
pub finalize_generic_get_field-crashes :
    (target : List Item) (name rest : Bytes) (value_length : ℕ)
    → IsName name
    → length name < value_length
    → finalize_generic_get_field target (name ++ (b'&' ∷ rest)) value_length ≡ none
unfolding finalize_generic_get_field
finalize_generic_get_field-crashes target name rest zero h room = absurd (omega arith)
finalize_generic_get_field-crashes target name rest (suc n) h room =
    let positive : (suc n == 0) ≡ false = ground arith in
    if_not _ _ (suc n == 0) positive
    ∙ name_without_value rest name 0 (suc n) (scan_of target (name ++ (b'&' ∷ rest))) h refl refl
        refl room
