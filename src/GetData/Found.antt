-- ===== src/GetData/Found.antt =====
-- What the scan of a query of names and values ends with,
-- src/AmmServerlib/header_analysis/get_data.c.
use mathlib.Core.List.{append_assoc}
use ammar_server.Base.{
  ℕ, suc, ◌+◌, ◌<◌, ◌≡◌, refl, ap, ◌∙◌, List, [], ◌∷◌, ◌++◌, some, Bytes, length, arith,
  length-append, ◌>>=◌,
}
use ammar_server.GetData.Pairs.{
  Pair, ArePairs, one_pair, another_pair, query, query_size, terminated, behind, pointed,
  pointed_items, last_start, before, length-before, before-terminated,
}
use ammar_server.GetData.Scanned.{
  scan_with, Scan_eq, at_pair, scan_loop-pair, last_value-after, scan_loop-next,
}
use ammar_server.GetData.{
  Run, Item, AutomatonState, seeking_name, seeking_value, Scan, begun, scan_loop, last_value,
}

abbrev pub end_value : Scan × ℕ → Run Scan
end_value read = last_value read.0.state read

-- The scan after the last value.
abbrev pub scanned : Bytes → Pair → List Pair → Bytes → List Item → List Item → Scan
scanned pre p ps post items free =
    scan_with (pre ++ terminated p ps (0 ∷ post)) (last_start (length pre) p ps) seeking_value
      (length items + suc (length ps)) (items ++ pointed_items (length pre) p ps free)

module _ (c : ℕ) (post : Bytes) where
  pub scan_loop-scanned :
      (ps : List Pair) (p : Pair) (pre : Bytes) (items free : List Item) (q : AutomatonState)
      → ArePairs p ps
      → begun q ≡ seeking_name
      → length ps < length free
      → scan_loop (query_size p ps) (length pre) (at_pair q pre (query p ps (c ∷ post)) items free)
          >>= end_value
        ≡ some (scanned pre p ps post items free)
  unfolding scan_loop query query_size terminated last_start pointed_items
  scan_loop-scanned ps p pre items [] q h waiting room = absurd (omega arith)
  scan_loop-scanned [] p pre items (x ∷ free) q (one_pair h) waiting room =
      let e : length p.name + suc (length p.value) ≡ length p.name + suc (length p.value + 0) =
        omega arith in
      ap (λ m. m >>= end_value)
        (scan_loop-pair pre p c post items x free q 0 (length p.name + suc (length p.value)) h
          waiting e)
      ∙ last_value-after pre p c post items x free
      ∙ ap some
          (Scan_eq _ _ _ _ seeking_value _ _ _ _ (before-terminated pre p 0 post) refl refl refl)
  scan_loop-scanned (r ∷ ps) p pre items (x ∷ free) q (another_pair h hs) waiting room =
      let pre' = before pre p ++ (0 ∷ []) in
      let items' = items ++ (pointed (length pre) p x ∷ []) in
      let n = query_size r ps in
      let f = length-append (before pre p) (0 ∷ []) in
      let g = length-before pre p in
      let i = length-append items (pointed (length pre) p x ∷ []) in
      let k : length pre' ≡ behind (length pre) p = omega arith in
      let l : length items' + suc (length ps) ≡ length items + suc (suc (length ps)) =
        omega arith in
      ap (λ m. m >>= end_value)
        (scan_loop-pair pre p b'&' (query r ps (c ∷ post)) items x free q (suc n)
            (length p.name + suc (length p.value + suc n)) h waiting refl
          ∙ scan_loop-next pre p (query r ps (c ∷ post)) items x free n)
      ∙ scan_loop-scanned ps r pre' items' free seeking_name hs refl (omega arith)
      ∙ ap some (
          Scan_eq _ _ _ _ seeking_value _ _ _ _
            (append_assoc (before pre p) (0 ∷ []) (terminated r ps (0 ∷ post))
              ∙ before-terminated pre p 0 (terminated r ps (0 ∷ post)))
            (ap (λ j. last_start j r ps) k) l
            (append_assoc items (pointed (length pre) p x ∷ [])
                (pointed_items (length pre') r ps free)
              ∙ ap (λ j. items ++ (pointed (length pre) p x ∷ pointed_items j r ps free)) k))
