-- ===== src/AString/Instances.antt =====
-- The replacement of several instances, src/AmmServerlib/AString/AString.c, on texts.
use native.Mathlib.Nat.{suc-mul}
use mathlib.Core.Path.{subst}
use ammar_server.Base.{
  ℕ, zero, suc, ◌+◌, ◌*◌, ◌≤◌, ◌<◌, ◌≡◌, refl, sym, ap, ◌∙◌, true, false, ◌++◌, Option, none, some,
  arith, Bytes, length, take, drop, uint, length-append, length-take, length-drop, ◌==◌,
}
use ammar_server.AString.Memory.{strstr}
use ammar_server.AString.Search.{IsText, first_place, strstr-first_place, first_place-some}
use ammar_server.AString.Inject.{Holds}
use ammar_server.AString.Replace.{Becomes, replaced, drop-Holds, drop-IsText, inject_found_lem}
use ammar_server.AString.{
  MemoryHandler, Allocator, inject_found, inject_data_to_memory_handler_offset, replace_loop,
  replace_all_instances,
}

-- What the rounds make of a text, and the instances that remain.
unfoldable pub replace_text : Bytes → Bytes → ℕ → Bytes → ℕ → Bytes × ℕ
replace_text var value offset text zero = (text, 0)
replace_text var value offset text (suc n) = elim (first_place var (drop offset text)) [
  | none ↦ (text, suc n)
  | some i ↦ replace_text var value (offset + i) (replaced var value (offset + i) text) n
]

length-replaced :
    (var value : Bytes) (k : ℕ) (text : Bytes)
    → k ≤ length text
    → (k ≤ length (replaced var value k text))
      × (length (replaced var value k text) ≤ length text + length value)
unfolding replaced
length-replaced var value k text h = omega (
  arith,
  length-append (take k text) (value ++ drop (length var) (drop k text)),
  length-append value (drop (length var) (drop k text)),
  length-take k text,
  length-drop (length var) (drop k text),
  length-drop k text,
)

-- One round that finds the variable, and one that does not.
round_found :
    (a : ℕ → Allocator) (mh mh' : MemoryHandler) (offset at n : ℕ) (var value : Bytes)
    → inject_data_to_memory_handler_offset (a n) mh offset (some var) (some value)
      ≡ some (mh', at, true)
    → replace_loop a mh offset var value (suc n) ≡ replace_loop a mh' at var value n
unfolding replace_loop
round_found a mh mh' offset at n var value h = rw h

round_missing :
    (a : ℕ → Allocator) (mh : MemoryHandler) (offset n : ℕ) (var value : Bytes)
    → inject_data_to_memory_handler_offset (a n) mh offset (some var) (some value)
      ≡ some (mh, offset, false)
    → replace_loop a mh offset var value (suc n) ≡ some (mh, suc n)
unfolding replace_loop
round_missing a mh offset n var value h = rw h

replace_text-none :
    (var value : Bytes) (offset : ℕ) (text : Bytes) (n : ℕ)
    → first_place var (drop offset text) ≡ none
    → replace_text var value offset text (suc n) ≡ (text, suc n)
unfolding replace_text
replace_text-none var value offset text n h = rw (h, replace_text)

pub replace_text-some :
    (var value : Bytes) (offset : ℕ) (text : Bytes) (n i : ℕ)
    → first_place var (drop offset text) ≡ some i
    → replace_text var value offset text (suc n)
      ≡ replace_text var value (offset + i) (replaced var value (offset + i) text) n
unfolding replace_text
replace_text-some var value offset text n i h = rw (h, replace_text)

-- A loop that leaves a text and a number of instances.
abbrev pub Ends : (MemoryHandler → ℕ → Type 0) → Bytes × ℕ → Type 0
Ends P r = Becomes (λ mh. P mh r.1) r.0

module _ (fills : ℕ → ℕ → ℕ) (var value : Bytes) (t : IsText var) (clean : IsText value) where
  abbrev alloc : ℕ → Allocator
  alloc k = some (fills k)

  -- The loop agrees with `replace_text` for a number of rounds.
  abbrev Agrees : ℕ → Type 0
  Agrees n =
      (mh : MemoryHandler) (text : Bytes) (offset : ℕ)
      → Holds mh text
      → offset ≤ length text
      → length text + n * length value + 1 < uint
      → Ends (λ mh' m. replace_loop alloc mh offset var value n ≡ some (mh', m))
          (replace_text var value offset text n)

  module _ (mh : MemoryHandler) (text : Bytes) (offset n : ℕ) (h : Holds mh text)
      (o : offset ≤ length text) where
    search_step :
        (p : Option ℕ)
        → first_place var (drop offset text) ≡ p
        → inject_data_to_memory_handler_offset (alloc n) mh offset (some var) (some value)
          ≡ inject_found (alloc n) mh offset var value p
    unfolding inject_data_to_memory_handler_offset
    search_step p e = ap (inject_found (alloc n) mh offset var value) (
        ap (λ b. strstr b var) (drop-Holds mh text offset h o)
        ∙ strstr-first_place var (drop offset text) h.slack t (drop-IsText offset text h.clean)
        ∙ e)

    round_step :
        Agrees n
        → length text + suc n * length value + 1 < uint
        → (p : Option ℕ) → first_place var (drop offset text) ≡ p
        → Ends
            (λ mh' m. replace_loop alloc mh offset var value (suc n) ≡ some (mh', m))
            (replace_text var value offset text (suc n))
    round_step rest small none e =
        subst (Ends (λ mh' m. replace_loop alloc mh offset var value (suc n) ≡ some (mh', m)))
          (sym (replace_text-none var value offset text n e))
          (
            mh,
            round_missing alloc mh offset n var value
                (search_step none e ∙ (unfold inject_found in refl)),
            h,
          )
    round_step rest small (some i) e =
        let at = offset + i in
        let (i_le, s) = first_place-some var (drop offset text) i e in
        let at_le : at ≤ length text = omega (arith, length-drop offset text) in
        let grows = length-replaced var value at text at_le in
        let more = suc-mul n (length value) in
        let (mh1, run, after) =
          inject_found_lem (fills n) mh text var value offset i h clean at_le s
            (omega (arith, more)) in
        let (mh2, loop, done) =
          rest mh1 (replaced var value at text) at after grows.0 (omega (arith, more, grows.1)) in
        subst (Ends (λ mh' m. replace_loop alloc mh offset var value (suc n) ≡ some (mh', m)))
          (sym (replace_text-some var value offset text n i e))
          (
            mh2,
            round_found alloc mh mh1 offset at n var value (search_step (some i) e ∙ run) ∙ loop,
            done,
          )

  replace_loop-replace_text : (n : ℕ) → Agrees n
  replace_loop-replace_text zero mh text offset h o small =
      unfold replace_text replace_loop in (mh, refl, h)
  replace_loop-replace_text (suc n) mh text offset h o small =
      round_step mh text offset n h o (replace_loop-replace_text n) small
        (first_place var (drop offset text)) refl

  -- When every call of `realloc` succeeds and the sizes stay below 2 ^ 32, the replacement of a number
  -- of instances that is not 0 runs with no access outside of the block, the handler then holds the
  -- text that so many rounds give, each of which replaces the first variable from the place of the last
  -- round on, and 1 is returned exactly when no round failed to find one.
  pub replace_all_instances-replace_text :
      (mh : MemoryHandler) (text : Bytes) (n : ℕ)
      → Holds mh text
      → length text + suc n * length value + 1 < uint
      → Ends
          (λ mh' m.
            replace_all_instances alloc mh (suc n) (some var) (some value) ≡ some (mh', m == 0))
          (replace_text var value 0 text (suc n))
  unfolding replace_all_instances
  replace_all_instances-replace_text mh text n h small =
      let (mh', run, after) = replace_loop-replace_text (suc n) mh text 0 h (omega arith) small in
      (mh', rw run, after)
