-- ===== src/GetData/Nameless.antt =====
-- Scans whose first item has no value, src/AmmServerlib/header_analysis/get_data.c.
use ammar_server.Base.{
  ℕ, zero, suc, ◌+◌, ◌≤◌, ◌≡◌, refl, List, [], ◌∷◌, Option, none, Bytes, length, get_elem?, set,
  ltb, ◌==◌, ◌>>=◌, arith, ◌∙◌,
}
use ammar_server.GetData.Ends.{Ends, crashed, ended, Ends-bind, Ends-any, Ends-none, Ends-if}
use ammar_server.GetData.{
  Run, Item, AutomatonState, found_nothing, seeking_name, seeking_value, Scan, store_name,
  store_value, terminate, next_item, is_line_end, at_line_end, at_equals, at_ampersand, begun,
  at_character, scan_loop, last_value, strlen_at, measure, finish,
}

-- `target[0].value`
abbrev pub first_value : List Item → Option ℕ
first_value target = get_elem? target 0 >>= (λ item. item.value)

pub record IsNameless (s : Scan) : Type 0 where
  pub counted : 1 ≤ s.target_number
  pub no_value : first_value s.target ≡ none

first_value-set :
    (target : List Item) (n : ℕ) (item : Item)
    → 1 ≤ n
    → first_value (set target n item) ≡ first_value target
first_value-set [] n item h = refl
first_value-set (x ∷ target) (suc n) item h = refl
first_value-set (x ∷ target) zero item h = let no : ⊥ = omega arith in elim no [ ]

module _ (s : Scan) (h : IsNameless s) where
  pub stored : (item : Item) → IsNameless (record s { target = set s.target s.target_number item })
  stored item = record {
    counted = h.counted;
    no_value = first_value-set s.target s.target_number item h.counted ∙ h.no_value;
  }

  store_name-IsNameless : Ends IsNameless (store_name s)
  unfolding store_name
  store_name-IsNameless =
      Ends-bind (get_elem? s.target s.target_number) _
        (Ends-any (get_elem? s.target s.target_number)) (λ item u. ended (stored _))

  store_value-IsNameless : Ends IsNameless (store_value s)
  unfolding store_value
  store_value-IsNameless =
      Ends-bind (get_elem? s.target s.target_number) _
        (Ends-any (get_elem? s.target s.target_number)) (λ item u. ended (stored _))

  pub terminate-IsNameless : (i : ℕ) → Ends IsNameless (terminate i s)
  unfolding terminate
  terminate-IsNameless i =
      Ends-if (ltb i (length s.buffer))
        (ended (record { counted = h.counted; no_value = h.no_value })) crashed

  next_item-IsNameless : IsNameless (next_item s)
  next_item-IsNameless =
      let k : 1 ≤ s.target_number = h.counted in
      record { counted = omega arith; no_value = h.no_value }

at_line_end-IsNameless :
    (state : AutomatonState) (i : ℕ) (s : Scan)
    → IsNameless s
    → Ends IsNameless (at_line_end state i s)
unfolding at_line_end
at_line_end-IsNameless found_nothing i s h = ended h
at_line_end-IsNameless seeking_name i s h =
    Ends-bind (store_name s) _ (store_name-IsNameless s h) (λ named k.
      Ends-bind (terminate i named) _ (terminate-IsNameless named k i)
        (λ done l. ended (next_item-IsNameless done l)))
at_line_end-IsNameless seeking_value i s h =
    Ends-bind (store_value s) _ (store_value-IsNameless s h) (λ valued k.
      Ends-bind (terminate i valued) _ (terminate-IsNameless valued k i)
        (λ done l. ended (next_item-IsNameless done l)))

at_equals-IsNameless :
    (state : AutomatonState) (i : ℕ) (s : Scan)
    → IsNameless s
    → Ends IsNameless (at_equals state i s)
unfolding at_equals
at_equals-IsNameless found_nothing i s h = ended h
at_equals-IsNameless seeking_value i s h = ended h
at_equals-IsNameless seeking_name i s h =
    Ends-bind (store_name s) _ (store_name-IsNameless s h) (λ named k.
      Ends-bind (terminate i named) _ (terminate-IsNameless named k i)
        (λ done l. ended (record { counted = l.counted; no_value = l.no_value })))

at_ampersand-IsNameless :
    (state : AutomatonState) (i : ℕ) (s : Scan)
    → IsNameless s
    → Ends IsNameless (at_ampersand state i s)
unfolding at_ampersand
at_ampersand-IsNameless found_nothing i s h = ended h
at_ampersand-IsNameless seeking_name i s h =
    Ends-bind (store_name s) _ (store_name-IsNameless s h) (λ named k.
      Ends-bind (terminate i (next_item named)) _
        (terminate-IsNameless (next_item named) (next_item-IsNameless named k) i)
        (λ done l. ended (record { counted = l.counted; no_value = l.no_value })))
at_ampersand-IsNameless seeking_value i s h =
    Ends-bind (store_value s) _ (store_value-IsNameless s h) (λ valued k.
      Ends-bind (terminate i (next_item valued)) _
        (terminate-IsNameless (next_item valued) (next_item-IsNameless valued k) i)
        (λ done l. ended (record { counted = l.counted; no_value = l.no_value })))

at_character-IsNameless : (c i : ℕ) (s : Scan) → IsNameless s → Ends IsNameless (at_character c i s)
unfolding at_character
at_character-IsNameless c i s h =
    let s' = record s { state = begun s.state } in
    let k : IsNameless s' = record { counted = h.counted; no_value = h.no_value } in
    Ends-if (c == b'=') (at_equals-IsNameless s'.state i s' k)
      (Ends-if (c == b'&') (at_ampersand-IsNameless s'.state i s' k) (ended k))

pub scan_loop-IsNameless :
    (rounds i : ℕ) (s : Scan)
    → IsNameless s
    → Ends (λ read. IsNameless read.0) (scan_loop rounds i s)
unfolding scan_loop
scan_loop-IsNameless zero i s h = ended h
scan_loop-IsNameless (suc rounds) i s h =
    Ends-bind (get_elem? s.buffer i) _ (Ends-any (get_elem? s.buffer i)) (λ c u.
      Ends-if (is_line_end c)
        (Ends-bind (at_line_end s.state i s) _ (at_line_end-IsNameless s.state i s h)
          (λ done k. ended k))
        (Ends-bind (at_character c i s) _ (at_character-IsNameless c i s h)
          (λ read k. scan_loop-IsNameless rounds (i + 1) read k)))

last_value-IsNameless :
    (state : AutomatonState) (i : ℕ) (s : Scan)
    → IsNameless s
    → Ends IsNameless (last_value state (s, i))
unfolding last_value
last_value-IsNameless found_nothing i s h = ended h
last_value-IsNameless seeking_name i s h = ended h
last_value-IsNameless seeking_value i s h =
    Ends-bind (store_value s) _ (store_value-IsNameless s h) (λ valued k.
      Ends-bind (terminate i valued) _ (terminate-IsNameless valued k i)
        (λ done l. ended (next_item-IsNameless done l)))

measure_first :
    (n : ℕ) (buffer : Bytes) (target : List Item)
    → 1 ≤ n
    → first_value target ≡ none
    → Ends (λ items. ⊥) (measure n buffer target)
unfolding measure strlen_at
measure_first zero buffer target h e = let no : ⊥ = omega arith in elim no [ ]
measure_first (suc n) buffer [] h e = crashed
measure_first (suc n) buffer (item ∷ target) h e =
    Ends-bind (strlen_at buffer item.name) _ (Ends-any (strlen_at buffer item.name))
      (λ k u. rw e crashed)

-- The lengths of the items are not found.
pub finish-crashes :
    (read : Run (Scan × ℕ)) → Ends (λ r. IsNameless r.0) read → read >>= finish ≡ none
unfolding finish
finish-crashes read h = Ends-none _ (
    Ends-bind read _ h (λ r k.
      Ends-bind (last_value r.0.state r) _ (last_value-IsNameless r.0.state r.1 r.0 k) (λ done l.
        Ends-bind (measure done.target_number done.buffer done.target) _
          (measure_first done.target_number done.buffer done.target l.counted l.no_value)
          (λ items no. elim no [ ]))))
