-- ===== src/AString/Examples.antt =====
-- Runs of src/AmmServerlib/AString/AString.c on a small page.
use mathlib.Core.Option
use ammar_server.Base.{
  ℕ, zero, suc, ◌≤◌, ◌<◌, ◌≡◌, refl, Bool, true, false, [], ◌∷◌, ◌++◌, none, some, arith, Bytes,
  drop, ltb, ◌==◌,
}
use ammar_server.Base.Text.{codes}
use ammar_server.Chunked.{memmove}
use ammar_server.AString.Memory.{
  write_byte, reverse_sync_memcpy, straight_sync_memcpy, memcpy, starts, strstr, copy_byte,
  reverse_loop,
}
use ammar_server.AString.Copies.{reverse_sync_memcpy-memmove}
use ammar_server.AString.Inject.{Holds}
use ammar_server.AString.Search.{first_place}
use ammar_server.AString.Replace.{Becomes, replaced, inject_data_to_memory_handler_offset-replaced}
use ammar_server.AString.Instances.{replace_text, replace_all_instances-replace_text}
use ammar_server.AString.Nested.{copies, replace_all_instances_nested}
use ammar_server.AString.{
  MemoryHandler, inject_data_to_memory_handler_offset, replace_all_instances,
}

abbrev page : Bytes
page = codes "a$V-$V!"

abbrev page_handler : MemoryHandler
page_handler = record {
  content_size = 7;
  content_current_length = 7;
  content_growth_step = 0;
  content = page ++ (0 ∷ 9 ∷ []);
}

page-Holds : Holds page_handler page
page-Holds = record { slack = 9 ∷ []; layout = refl; counted = refl; clean = omega arith }

abbrev ones : ℕ → ℕ
ones n = 1

-- A longer value, twice.
replaced_twice :
    Option.map {B = Bytes × ℕ × Bool}
      (λ r. (r.0.content, r.0.content_size, r.1))
      (replace_all_instances
        (λ k. some ones)
        page_handler
        2
        (some (codes "$V"))
        (some (codes "xyz")))
    ≡ some (codes "axyz-xyz!" ++ (0 ∷ []), 9, true)
unfolding replace_all_instances strstr memcpy reverse_sync_memcpy straight_sync_memcpy write_byte
    reverse_loop copy_byte
replaced_twice = refl

-- A shorter value leaves bytes behind the terminator.
replaced_once :
    Option.map {B = Bytes × Bool}
      (λ r. (r.0.content, r.1))
      (replace_all_instances (λ k. none) page_handler 1 (some (codes "$V")) (some (codes "x")))
    ≡ some (codes "ax-$V!" ++ (0 ∷ 0 ∷ 9 ∷ []), true)
unfolding replace_all_instances strstr memcpy reverse_sync_memcpy straight_sync_memcpy write_byte
    reverse_loop copy_byte
replaced_once = refl

no_memory :
    replace_all_instances (λ k. none) page_handler 1 (some (codes "$V")) (some (codes "xyz"))
    ≡ some (page_handler, false)
unfolding replace_all_instances strstr memcpy reverse_sync_memcpy straight_sync_memcpy write_byte
    reverse_loop copy_byte
no_memory = refl

reverse_sync_memcpy-memmove_example :
    reverse_sync_memcpy page 3 1 3 ≡ some (memmove page 3 1 3, ltb 0 3)
reverse_sync_memcpy-memmove_example =
    reverse_sync_memcpy-memmove page 3 1 3 (omega arith) (omega arith)

inject_data_to_memory_handler_offset-replaced_example :
    Becomes
      (λ mh'.
        inject_data_to_memory_handler_offset
          (some ones)
          page_handler
          0
          (some (codes "$V"))
          (some (codes "xyz"))
        ≡ some (mh', 1, true))
      (replaced (codes "$V") (codes "xyz") 1 page)
inject_data_to_memory_handler_offset-replaced_example =
    inject_data_to_memory_handler_offset-replaced ones page_handler page (codes "$V") (codes "xyz")
      0 1 page-Holds (omega arith) (omega arith) (omega arith) (omega arith) (unfold starts in refl)
      before (omega arith)
  where
    before : (q : ℕ) → 0 ≤ q → q < 1 → starts (codes "$V") (drop q page) ≡ false
    before zero o m = unfold starts in refl
    before (suc q) o m = absurd (omega arith)

replace_all_instances-replace_text_example :
    let r = replace_text (codes "$V") (codes "xyz") 0 page 2 in
    Becomes
      (λ mh'.
        replace_all_instances
          (λ k. some ones)
          page_handler
          2
          (some (codes "$V"))
          (some (codes "xyz"))
        ≡ some (mh', r.1 == 0))
      r.0
replace_all_instances-replace_text_example =
    replace_all_instances-replace_text (λ k. ones) (codes "$V") (codes "xyz") (omega arith)
      (omega arith) page_handler page 1 page-Holds (omega arith)

replace_all_instances_nested_example :
    Becomes
      (λ mh'.
        replace_all_instances
          (λ k. some ones)
          page_handler
          2
          (some (codes "$V"))
          (some (codes "$Vx"))
        ≡ some (mh', true))
      (codes "a$V" ++ (copies 2 (codes "x") ++ codes "-$V!"))
replace_all_instances_nested_example =
    replace_all_instances_nested (codes "$V") (codes "x") (codes "a") (λ k. ones) page_handler 1
      (codes "-$V!") (omega arith) (omega arith) page-Holds (unfold first_place in refl)
      (omega arith)
