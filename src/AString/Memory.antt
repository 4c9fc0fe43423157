-- ===== src/AString/Memory.antt =====
-- Bytes of a block of memory, as src/AmmServerlib/AString/AString.c reads and writes them. An access
-- outside of the block is a crash. `memcpy` is a write of bytes that stand elsewhere.
pub use ammar_server.Base.{◌>>=◌}
use ammar_server.Base.{
  ℕ, zero, suc, ◌+◌, Bool, true, false, ◌&&◌, [], ◌∷◌, Option, none, some, Bytes, length, get_elem?,
  set, ltb, ◌==◌, if◌then◌else◌,
}

-- A run that may crash, which is `none`.
abbrev pub Run {ℓ} : Type ℓ → Type ℓ
Run A = Option A

unfoldable pub write_byte : Bytes → ℕ → ℕ → Run Bytes
write_byte block i v = if ltb i (length block) then some (set block i v) else none

-- `*target=*source`
unfoldable pub copy_byte : Bytes → ℕ → ℕ → Run Bytes
unfolding write_byte
copy_byte block target source = do v ← get_elem? block source; write_byte block target v

-- From the last byte down to the first.
unfoldable pub reverse_loop : Bytes → ℕ → ℕ → ℕ → Run Bytes
reverse_loop block target source zero = some block
reverse_loop block target source (suc n) = do
  next ← copy_byte block (target + n) (source + n)
  reverse_loop next target source n

-- `reverseSyncMemcpy`, with what it returns
unfoldable pub reverse_sync_memcpy : Bytes → ℕ → ℕ → ℕ → Run (Bytes × Bool)
reverse_sync_memcpy block target source zero = some (block, false)
reverse_sync_memcpy block target source (suc n) = do
  next ← reverse_loop block target source (suc n)
  some (next, true)

-- `straightSyncMemcpy`, from the first byte to the last
unfoldable pub straight_sync_memcpy : Bytes → ℕ → ℕ → ℕ → Run (Bytes × Bool)
straight_sync_memcpy block target source zero = some (block, true)
straight_sync_memcpy block target source (suc n) = do
  next ← copy_byte block target source
  straight_sync_memcpy next (target + 1) (source + 1) n

-- `memcpy` of bytes from another block
unfoldable pub memcpy : Bytes → ℕ → Bytes → Run Bytes
memcpy block target [] = some block
memcpy block target (v ∷ value) = do
  next ← write_byte block target v
  memcpy next (target + 1) value

-- `strstr`: where the needle, which holds no terminator, first stands before the terminator.
unfoldable pub starts : Bytes → Bytes → Bool
starts [] haystack = true
starts (c ∷ needle) [] = false
starts (c ∷ needle) (d ∷ haystack) = c == d && starts needle haystack

unfoldable pub next_byte : Option ℕ → Option ℕ
next_byte none = none
next_byte (some i) = some (suc i)

unfoldable pub strstr : Bytes → Bytes → Option ℕ
unfolding starts next_byte
strstr [] needle = if starts needle [] then some 0 else none
strstr (d ∷ haystack) needle =
    if starts needle (d ∷ haystack)
    then some 0
    else if d == 0
    then none
    else next_byte (strstr haystack needle)
