-- ===== src/AString.antt =====
-- Growing strings, src/AmmServerlib/AString/AString.c: a text in a block of memory, in which a value
-- takes the place of a variable. The block is its bytes, terminator included; the pointer to the
-- handler is not null, and `none` is a null pointer to a text. An access outside of the block is a
-- crash. What `realloc` gives is an argument: nothing, or the bytes that it leaves behind the old
-- ones. `DO_NOT_ALLOW_MEMORY_REALLOCATIONS` is 0.
pub mod Memory
pub mod Copies
pub mod Pieces
pub mod Search
pub mod Inject
pub mod Longer
pub mod Replace
pub mod Instances
pub mod Nested
mod Examples
use ammar_server.Base.{
  ℕ, zero, suc, ◌+◌, ◌-◌, ◌%◌, Bool, true, false, List, [], ◌∷◌, ◌++◌, Option, none, some, Bytes,
  length, take, drop, ltb, leb, ◌==◌, if◌then◌else◌, uint,
}
use ammar_server.AString.Memory.{
  Run, ◌>>=◌, write_byte, reverse_sync_memcpy, straight_sync_memcpy, memcpy, strstr,
}

-- `struct AmmServer_MemoryHandler`
pub record MemoryHandler : Type 0 where
  pub content_size : ℕ
  pub content_current_length : ℕ
  pub content_growth_step : ℕ
  pub content : Bytes

-- What the next call of `realloc` does: it fails, or it leaves these bytes in new memory.
abbrev pub Allocator : Type 0
Allocator = Option (ℕ → ℕ)

-- Bytes of new memory.
unfoldable pub new_bytes : (ℕ → ℕ) → ℕ → Bytes
new_bytes fill zero = []
new_bytes fill (suc n) = fill n ∷ new_bytes fill n

unfoldable pub reallocated : Bytes → ℕ → (ℕ → ℕ) → Bytes
unfolding new_bytes
reallocated block n fill = take n block ++ new_bytes fill (n - length block)

-- `for (i=...; ...; i++) { newBuffer[i]=0; }`
unfoldable pub clear_bytes : Bytes → ℕ → ℕ → Run Bytes
clear_bytes block i zero = some block
clear_bytes block i (suc n) = do next ← write_byte block i 0; clear_bytes next (i + 1) n

-- The value is as long as the variable.
unfoldable pub inject_same : MemoryHandler → ℕ → Bytes → Run (MemoryHandler × Bool)
inject_same mh at value = do
  block ← memcpy mh.content at value
  some (record mh { content = block }, true)

-- The value is shorter: the rest moves down.
unfoldable pub inject_shorter : MemoryHandler → ℕ → ℕ → Bytes → Run (MemoryHandler × Bool)
inject_shorter mh at var_length value = do
  let value_length = length value % uint
  let end_length = (mh.content_current_length + uint - (at + var_length)) % uint
  let total = (at + value_length + end_length) % uint
  written ← memcpy mh.content at value
  moved ← straight_sync_memcpy written (at + value_length) (at + var_length) end_length
  block ← write_byte moved.0 total 0
  some (record mh { content = block; content_current_length = total }, true)

-- The value is longer: the block grows, and the rest moves up.
unfoldable pub inject_longer :
    Allocator → MemoryHandler → ℕ → ℕ → Bytes → Run (MemoryHandler × Bool)
unfolding reallocated clear_bytes
inject_longer none mh at var_length value = some (mh, false)
inject_longer (some fill) mh at var_length value = do
  let value_length = length value % uint
  let end_length = (mh.content_current_length + uint - (at + var_length)) % uint
  let extra = value_length - var_length
  let old_length = mh.content_current_length
  let size = (old_length + extra) % uint
  let grown = reallocated mh.content ((size + 1) % uint) fill
  ended ← write_byte grown old_length 0
  clean ← clear_bytes ended old_length (size - old_length)
  moved ← reverse_sync_memcpy clean (at + value_length) (at + var_length) end_length
  written ← memcpy moved.0 at value
  block ← write_byte written size 0
  some (record mh { content = block; content_current_length = size; content_size = size }, true)

-- What is done with the variable at a place.
unfoldable pub inject_at :
    Allocator → MemoryHandler → ℕ → Bytes → Bytes → Run (MemoryHandler × Bool)
unfolding inject_same inject_shorter inject_longer
inject_at a mh at var value =
    let value_length = length value % uint in
    let var_length = length var % uint in
    if value_length == var_length
    then inject_same mh at value
    else if leb value_length var_length
    then inject_shorter mh at var_length value
    else inject_longer a mh at var_length value

-- `astringInjectDataToMemoryHandlerOffset`: the handler, the offset and what it returns.
unfoldable pub inject_found :
    Allocator → MemoryHandler → ℕ → Bytes → Bytes → Option ℕ → Run (MemoryHandler × ℕ × Bool)
unfolding inject_at
inject_found a mh offset var value none = some (mh, offset, false)
inject_found a mh offset var value (some i) = do
  let at = (offset + i) % uint
  done ← inject_at a mh at var value
  some (done.0, at, done.1)

unfoldable pub inject_data_to_memory_handler_offset :
    Allocator → MemoryHandler → ℕ → Option Bytes → Option Bytes → Run (MemoryHandler × ℕ × Bool)
unfolding inject_found
inject_data_to_memory_handler_offset a mh offset var none = some (mh, offset, false)
inject_data_to_memory_handler_offset a mh offset none (some value) = some (mh, offset, false)
inject_data_to_memory_handler_offset a mh offset (some var) (some value) =
    inject_found a mh offset var value (strstr (drop offset mh.content) var)

-- `astringInjectDataToMemoryHandler`
unfoldable pub inject_data_to_memory_handler :
    Allocator → MemoryHandler → Option Bytes → Option Bytes → Run (MemoryHandler × Bool)
unfolding inject_data_to_memory_handler_offset
inject_data_to_memory_handler a mh var value = do
  done ← inject_data_to_memory_handler_offset a mh 0 var value
  some (done.0, done.2)

-- The loop of `astringReplaceAllInstancesOfVarInMemoryFile`, with one allocator for each round, and
-- the instances that remain.
unfoldable pub replace_loop :
    (ℕ → Allocator) → MemoryHandler → ℕ → Bytes → Bytes → ℕ → Run (MemoryHandler × ℕ)
unfolding inject_data_to_memory_handler_offset
replace_loop a mh offset var value zero = some (mh, 0)
replace_loop a mh offset var value (suc remaining) = do
  done ← inject_data_to_memory_handler_offset (a remaining) mh offset (some var) (some value)
  let rest = replace_loop a done.0 done.1 var value remaining
  if done.2 then rest else some (done.0, suc remaining)

unfoldable pub replace_all_instances :
    (ℕ → Allocator) → MemoryHandler → ℕ → Option Bytes → Option Bytes → Run (MemoryHandler × Bool)
unfolding replace_loop
replace_all_instances a mh instances none value = some (mh, false)
replace_all_instances a mh instances (some var) none = some (mh, false)
replace_all_instances a mh zero (some var) (some value) = some (mh, false)
replace_all_instances a mh (suc instances) (some var) (some value) = do
  done ← replace_loop a mh 0 var value (suc instances)
  some (done.0, done.1 == 0)
