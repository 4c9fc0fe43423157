-- ===== src/AString/Copies.antt =====
-- The two copies within a block of src/AmmServerlib/AString/AString.c, whose ranges may overlap.
use mathlib.Core.List.{append_assoc}
use ammar_server.Base.{
  ℕ, zero, suc, ◌+◌, ◌-◌, ◌≤◌, ◌<◌, ◌≡◌, sym, ap, ◌∙◌, true, false, [], ◌∷◌, ◌++◌, some, arith,
  Bytes, length, get_elem?, set, take, drop, ltb, length-set, get_elem?_inside, take-set_above,
  drop-set_below, drop-set_self, drop-set_above, take-suc, drop_read, get_elem?-set_self,
  get_elem?-drop, take-append-drop,
}
use ammar_server.Chunked.{memmove}
use ammar_server.AString.Memory.{
  write_byte, copy_byte, reverse_loop, reverse_sync_memcpy, straight_sync_memcpy,
}

copy_byte_lem :
    (block : Bytes) (target source v : ℕ)
    → get_elem? block source ≡ some v
    → target < length block
    → copy_byte block target source ≡ some (set block target v)
unfolding copy_byte write_byte
copy_byte_lem block target source v h k = rw h (ground arith)

set_behind :
    (block : Bytes) (target source n v : ℕ)
    → source ≤ target
    → take n (drop source (set block (target + n) v)) ≡ take n (drop source block)
set_behind block target source n v h =
    let k : target + n ≡ source + ((target - source) + n) = omega arith in
    ap (λ j. take n (drop source (set block j v))) k
    ∙ ap (take n) (drop-set_above source block ((target - source) + n) v)
    ∙ take-set_above n (drop source block) ((target - source) + n) v (omega arith)

-- One byte copied behind the others.
memmove-last :
    (block : Bytes) (target source n v : ℕ)
    → get_elem? block (source + n) ≡ some v
    → source ≤ target
    → target + n < length block
    → memmove (set block (target + n) v) target source n ≡ memmove block target source (suc n)
unfolding memmove
memmove-last block target source n v h k m =
    let read : get_elem? (drop source block) n ≡ some v = get_elem?-drop source block n ∙ h in
    let after : target + suc n ≡ suc (target + n) = omega arith in
    rw
      (
        take-set_above target block (target + n) v (omega arith),
        set_behind block target source n v k,
        drop-set_self block (target + n) v m,
        take-suc n (drop source block) v read,
        after,
      )
      (ap (◌++◌ (take target block))
        (sym (append_assoc (take n (drop source block)) (v ∷ []) (drop (suc (target + n)) block))))

memmove-first :
    (block : Bytes) (target source n v : ℕ)
    → get_elem? block source ≡ some v
    → target ≤ source
    → target < length block
    → memmove (set block target v) (target + 1) (source + 1) n ≡ memmove block target source (suc n)
unfolding memmove
memmove-first block target source n v h k m =
    let one : target + 1 ≡ suc target = omega arith in
    let next : source + 1 ≡ suc source = omega arith in
    let after : target + 1 + n ≡ target + suc n = omega arith in
    let front : take (target + 1) (set block target v) ≡ take target block ++ (v ∷ []) =
      ap (λ j. take j (set block target v)) one
      ∙ take-suc target (set block target v) v (get_elem?-set_self block target v m)
      ∙ ap (λ l. l ++ (v ∷ [])) (take-set_above target block target v (omega arith)) in
    rw
      (
        front,
        drop-set_below (source + 1) block target v (omega arith),
        drop-set_below (target + 1 + n) block target v (omega arith),
        after,
        drop_read source block v h,
        next,
      )
      (append_assoc (take target block) (v ∷ []) _)

memmove_none : (block : Bytes) (target source : ℕ) → memmove block target source 0 ≡ block
unfolding memmove
memmove_none block target source =
    let e : target + 0 ≡ target = omega arith in
    ap (λ j. take target block ++ drop j block) e ∙ take-append-drop target block

reverse_loop-memmove :
    (block : Bytes) (target source n : ℕ)
    → source ≤ target
    → target + n ≤ length block
    → reverse_loop block target source n ≡ some (memmove block target source n)
unfolding reverse_loop
reverse_loop-memmove block target source zero h k = ap some (sym (memmove_none block target source))
reverse_loop-memmove block target source (suc n) h k =
    let (v, e) = get_elem?_inside block (source + n) (omega arith) in
    rw (copy_byte_lem block (target + n) (source + n) v e (omega arith)) (
      reverse_loop-memmove (set block (target + n) v) target source n h
        (omega (arith, length-set block (target + n) v))
      ∙ ap some (memmove-last block target source n v e h (omega arith)))

-- Copying from the last byte down to a place that is not lower is `memmove`, for any overlap, and
-- returns 1 exactly when there is a byte to copy; all of it is within the block when both ranges are.
pub reverse_sync_memcpy-memmove :
    (block : Bytes) (target source n : ℕ)
    → source ≤ target
    → target + n ≤ length block
    → reverse_sync_memcpy block target source n ≡ some (memmove block target source n, ltb 0 n)
unfolding reverse_sync_memcpy
reverse_sync_memcpy-memmove block target source zero h k =
    ap (λ b. some (b, false)) (sym (memmove_none block target source))
reverse_sync_memcpy-memmove block target source (suc n) h k =
    rw (reverse_loop-memmove block target source (suc n) h k) (ground arith)

-- Copying from the first byte up to a place that is not higher is `memmove`, for any overlap, and
-- returns 1; all of it is within the block when both ranges are.
pub straight_sync_memcpy-memmove :
    (block : Bytes) (target source n : ℕ)
    → target ≤ source
    → source + n ≤ length block
    → straight_sync_memcpy block target source n ≡ some (memmove block target source n, true)
unfolding straight_sync_memcpy
straight_sync_memcpy-memmove block target source zero h k =
    ap (λ b. some (b, true)) (sym (memmove_none block target source))
straight_sync_memcpy-memmove block target source (suc n) h k =
    let (v, e) = get_elem?_inside block source (omega arith) in
    rw (copy_byte_lem block target source v e (omega arith)) (
      straight_sync_memcpy-memmove (set block target v) (target + 1) (source + 1) n (omega arith)
        (omega (arith, length-set block target v))
      ∙ ap (λ b. some (b, true)) (memmove-first block target source n v e h (omega arith)))
