-- ===== src/AString/Replace.antt =====
-- Injections and replacements on texts, src/AmmServerlib/AString/AString.c.
use ammar_server.Base.{
  ℕ, ◌+◌, ◌-◌, ◌%◌, ◌≤◌, ◌<◌, ◌≡◌, sym, ap, ◌∙◌, true, false, ◌∷◌, ◌++◌, none, some, arith, Bytes,
  length, take, drop, uint, length-take, length-drop, take-append-drop, drop_append_le, drop-drop,
  leb, ◌==◌, inl, inr, Bool-cases,
}
use mathlib.Core.Path.{subst}
use ammar_server.AString.Memory.{starts, strstr}
use ammar_server.AString.Search.{IsText, IsText-suffix, starts_split, strstr_first, strstr_missing}
use ammar_server.AString.Inject.{Holds, length_pieces, inject_same_lem, inject_shorter_lem}
use ammar_server.AString.Longer.{inject_longer_lem}
use ammar_server.AString.{
  MemoryHandler, Allocator, inject_at, inject_found, inject_data_to_memory_handler_offset,
}

-- The handler that holds a text after a call, which returned 1.
abbrev pub Becomes : (MemoryHandler → Type 0) → Bytes → Type 0
Becomes P text = (mh : MemoryHandler) × P mh × Holds mh text

inject_at_lem :
    (fill : ℕ → ℕ) (mh : MemoryHandler) (pre var post value : Bytes)
    → Holds mh (pre ++ (var ++ post))
    → IsText value
    → length pre + length var + length post + length value + 1 < uint
    → Becomes
        (λ mh'. inject_at (some fill) mh (length pre) var value ≡ some (mh', true))
        (pre ++ (value ++ post))
unfolding inject_at
inject_at_lem fill mh pre var post value h clean small =
    elim (Bool-cases (length value % uint == length var)) [
      | inl e ↦
          let (mh', run, after) =
            inject_same_lem mh pre var post value h clean small (ground arith) in
          (mh', rw (w, e) run, after)
      | inr e ↦ elim (Bool-cases (leb (length value % uint) (length var))) [
        | inl f ↦
            let (mh', run, after) =
              inject_shorter_lem mh pre var post value h clean small (ground arith) in
            (mh', rw (w, e, f) run, after)
        | inr f ↦
            let (mh', run, after) =
              inject_longer_lem fill mh pre var post value h clean small (ground arith) in
            (mh', rw (w, e, f) run, after)
      ]
    ]
  where
    w : length var % uint ≡ length var
    w = omega arith

-- The text with the value in the place of the variable at `k`.
unfoldable pub replaced : Bytes → Bytes → ℕ → Bytes → Bytes
replaced var value k text = take k text ++ (value ++ drop (length var) (drop k text))

cut_at :
    (var text : Bytes) (k : ℕ)
    → starts var (drop k text) ≡ true
    → text ≡ take k text ++ (var ++ drop (length var) (drop k text))
cut_at var text k h =
    sym (take-append-drop k text) ∙ ap (◌++◌ (take k text)) (starts_split var (drop k text) h)

inject_at_place :
    (fill : ℕ → ℕ) (mh : MemoryHandler) (text var value : Bytes) (k : ℕ)
    → Holds mh text
    → IsText value
    → k ≤ length text
    → starts var (drop k text) ≡ true
    → length text + length value + 1 < uint
    → Becomes
        (λ mh'. inject_at (some fill) mh k var value ≡ some (mh', true))
        (replaced var value k text)
unfolding replaced
inject_at_place fill mh text var value k h clean k_le s small =
    let pre = take k text in
    let post = drop (length var) (drop k text) in
    let cut = cut_at var text k s in
    let size : length text ≡ length pre + length var + length post =
      ap length cut ∙ length_pieces pre var post in
    let at : length pre ≡ k = omega (arith, length-take k text) in
    let (mh', run, after) =
      inject_at_lem fill mh pre var post value (subst (Holds mh) cut h) clean
        (omega (arith, size)) in
    (mh', subst (λ j. inject_at (some fill) mh j var value ≡ some (mh', true)) at run, after)

pub drop-Holds :
    (mh : MemoryHandler) (text : Bytes) (offset : ℕ) (h : Holds mh text)
    → offset ≤ length text
    → drop offset mh.content ≡ drop offset text ++ (0 ∷ h.slack)
drop-Holds mh text offset h o =
    ap (drop offset) h.layout ∙ drop_append_le offset text (0 ∷ h.slack) o

pub drop-IsText : (n : ℕ) (s : Bytes) → IsText s → IsText (drop n s)
drop-IsText n s t =
    IsText-suffix (take n s) (drop n s) (subst IsText (sym (take-append-drop n s)) t)

pub inject_found_lem :
    (fill : ℕ → ℕ) (mh : MemoryHandler) (text var value : Bytes) (offset i : ℕ)
    → Holds mh text
    → IsText value
    → offset + i ≤ length text
    → starts var (drop i (drop offset text)) ≡ true
    → length text + length value + 1 < uint
    → Becomes
        (λ mh'.
          inject_found (some fill) mh offset var value (some i) ≡ some (mh', offset + i, true))
        (replaced var value (offset + i) text)
unfolding inject_found
inject_found_lem fill mh text var value offset i h clean k_le s small =
    let at : (offset + i) % uint ≡ offset + i = omega arith in
    let (mh', run, after) =
      inject_at_place fill mh text var value (offset + i) h clean k_le
        (ap (starts var) (sym (drop-drop i offset text)) ∙ s) small in
    (mh', rw (at, run), after)

-- When `realloc` succeeds, the variable stands in the text at `k`, which is not before the offset, and
-- at no place between the offset and `k`, and the sizes stay below 2 ^ 32, a call returns 1 with the
-- offset `k` and no access outside of the block, and the handler then holds the text in which the value
-- has taken the place of the variable at `k`, whether the value is shorter, as long or longer.
pub inject_data_to_memory_handler_offset-replaced :
    (fill : ℕ → ℕ) (mh : MemoryHandler) (text var value : Bytes) (offset k : ℕ)
    → Holds mh text
    → IsText var
    → IsText value
    → offset ≤ k
    → k ≤ length text
    → starts var (drop k text) ≡ true
    → ((q : ℕ) → offset ≤ q → q < k → starts var (drop q text) ≡ false)
    → length text + length value + 1 < uint
    → Becomes
        (λ mh'.
          inject_data_to_memory_handler_offset (some fill) mh offset (some var) (some value)
          ≡ some (mh', k, true))
        (replaced var value k text)
unfolding inject_data_to_memory_handler_offset
inject_data_to_memory_handler_offset-replaced fill mh text var value offset k h t clean o k_le s
      first small =
    let i = k - offset in
    let e : offset + i ≡ k = omega arith in
    let there : starts var (drop i (drop offset text)) ≡ true =
      ap (starts var) (drop-drop i offset text ∙ ap (λ j. drop j text) e) ∙ s in
    let found : strstr (drop offset mh.content) var ≡ some i =
      ap (λ b. strstr b var) (drop-Holds mh text offset h (omega arith))
      ∙ strstr_first var (drop offset text) h.slack i t (drop-IsText offset text h.clean)
          (omega (arith, length-drop offset text))
          (λ q m.
            ap (starts var) (drop-drop q offset text)
            ∙ first (offset + q) (omega arith) (omega arith))
          there in
    let (mh', run, after) =
      inject_found_lem fill mh text var value offset i h clean (omega arith) there small in
    (
      mh',
      subst
          (λ j.
            inject_data_to_memory_handler_offset (some fill) mh offset (some var) (some value)
            ≡ some (mh', j, true))
          e (ap (inject_found (some fill) mh offset var value) found ∙ run),
      subst (λ j. Holds mh' (replaced var value j text)) e after,
    )

-- Where the variable does not stand in the text from the offset on, a call returns 0 and changes
-- nothing.
pub inject_data_to_memory_handler_offset_missing :
    (a : Allocator) (mh : MemoryHandler) (text var value : Bytes) (offset : ℕ)
    → Holds mh text
    → IsText var
    → offset ≤ length text
    → ((q : ℕ) → offset ≤ q → q ≤ length text → starts var (drop q text) ≡ false)
    → inject_data_to_memory_handler_offset a mh offset (some var) (some value)
      ≡ some (mh, offset, false)
unfolding inject_data_to_memory_handler_offset inject_found
inject_data_to_memory_handler_offset_missing a mh text var value offset h t o f =
    let lost : strstr (drop offset mh.content) var ≡ none =
      ap (λ b. strstr b var) (drop-Holds mh text offset h o)
      ∙ strstr_missing var (drop offset text) h.slack t (drop-IsText offset text h.clean) (λ q m.
        ap (starts var) (drop-drop q offset text)
        ∙ f (offset + q) (omega arith) (omega (arith, length-drop offset text))) in
    ap (inject_found a mh offset var value) lost
