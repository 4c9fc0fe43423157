-- ===== src/GetData/Query.antt =====
-- The fields of a query of names and values, src/AmmServerlib/header_analysis/get_data.c.
use ammar_server.Base.{
  ℕ, suc, ◌+◌, ◌<◌, ◌≡◌, refl, ap, ◌∙◌, true, false, List, [], ◌∷◌, some, Bytes, length, arith,
  ◌==◌, ◌>>=◌, none,
}
use ammar_server.GetData.Reading.{if_not}
use ammar_server.GetData.Pairs.{
  Pair, ArePairs, query, query_size, length-query, terminated, last_start, pointed_items,
}
use ammar_server.GetData.Scanned.{scan_with}
use ammar_server.GetData.Found.{end_value, scanned, scan_loop-scanned}
use ammar_server.GetData.Lengths.{measured_items, measure-pointed_items}
use ammar_server.GetData.{
  Run, Item, found_nothing, seeking_value, Scan, scan_loop, measure, finish, scan_of,
  finalize_generic_get_field,
}

-- The end of the scan of a query of names and values.
abbrev pub parsed : Pair → List Pair → Bytes → List Item → Scan
parsed p ps post target =
    scan_with (terminated p ps (0 ∷ post)) (last_start 0 p ps) seeking_value (suc (length ps))
      (measured_items 0 p ps target)

finish_value :
    (m : Run (Scan × ℕ)) (done : Scan) (items : List Item)
    → m >>= end_value ≡ some done
    → measure done.target_number done.buffer done.target ≡ some items
    → m >>= finish ≡ some (record done { target = items }, true)
unfolding finish
finish_value none done items e h = cc
finish_value (some read) done items e h = rw (e, h) refl

query_size-positive : (p : Pair) (ps : List Pair) → (query_size p ps == 0) ≡ false
unfolding query_size
query_size-positive p [] = ground arith
query_size-positive p (q ∷ ps) = ground arith

-- A query of pairs `name=value` with `&` between them, whose names have no line end, `=` or `&` and
-- whose values have no line end or `&`, and which are not more than the array has items, is read as
-- these pairs: `finalizeGenericGETField` returns 1 and counts them, the marks and the character behind
-- the query become terminators and nothing else of the buffer changes, and the items hold in order
-- where each name and value begins and its length. Items behind them are left alone.
pub finalize_generic_get_field-pairs :
    (p : Pair) (ps : List Pair) (c : ℕ) (post : Bytes) (target : List Item)
    → ArePairs p ps
    → length ps < length target
    → finalize_generic_get_field target (query p ps (c ∷ post)) (length (query p ps []))
      ≡ some (parsed p ps post target, true)
unfolding finalize_generic_get_field
finalize_generic_get_field-pairs p ps c post target h room =
    let e = length-query p ps [] in
    let size : length (query p ps []) ≡ query_size p ps = omega arith in
    let n : 0 + suc (length ps) ≡ suc (length ps) = omega arith in
    let start = scan_of target (query p ps (c ∷ post)) in
    ap (finalize_generic_get_field target (query p ps (c ∷ post))) size
    ∙ if_not _ _ (query_size p ps == 0) (query_size-positive p ps)
    ∙ finish_value (scan_loop (query_size p ps) 0 start) (scanned [] p ps post [] target)
        (measured_items 0 p ps target)
        (scan_loop-scanned c post ps p [] [] target found_nothing h refl room)
        (ap (λ k. measure k (terminated p ps (0 ∷ post)) (pointed_items 0 p ps target)) n
          ∙ measure-pointed_items post ps p [] (terminated p ps (0 ∷ post)) target h room refl)
    ∙ ap (λ k. some (record (parsed p ps post target) { target_number = k }, true)) n
