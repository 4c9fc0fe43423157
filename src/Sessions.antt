-- ===== src/Sessions.antt =====
-- The sessions, src/AmmServerlib/cache/session_list.c: a hash map from tokens to sessions, each with a
-- hash map from names to values. The pointers of the callers are not null. A session that a pointer in
-- the table refers to is the payload itself; writing through the pointer writes the payload. The idle
-- timeout and the number of sessions are settings, and the clock is an argument. The locks are taken
-- one call after the other.
pub mod Values
pub mod Expiry
pub mod Creation
pub mod Oldest
pub mod Eviction
pub mod Capacity
pub mod Info
pub mod Stored
mod Examples
use ammar_server.Base.{
  ℕ, zero, suc, ◌+◌, ◌-◌, ◌%◌, Bool, true, false, List, [], ◌∷◌, ◌++◌, Option, none, some, Bytes,
  length, get_elem?, set, take, ltb, leb, ◌==◌, if◌then◌else◌,
}
use ammar_server.HashMap.{
  uint, Entry, HashMap, Run, Lookup, hit, miss, crash, find_index_serial, count_hit,
}
use ammar_server.HashMap.Operations.{
  Allocator, hash_map_add, hash_map_remove_key, hash_map_contains_key, entry_at,
  hash_map_get_payload_at_index,
}

-- `SESSION_VALUE_SCRATCH_SIZE`
abbrev pub scratch_size : ℕ
scratch_size = 4096

pub record SessionEntry : Type 0 where
  pub token : Bytes
  pub created : ℕ
  pub last_seen : ℕ
  pub session_data : HashMap Bytes

-- `SESSION_IDLE_TIMEOUT_SECONDS` and `MAX_SESSIONS`
pub record SessionSettings : Type 0 where
  pub idle_timeout_seconds : ℕ
  pub max_sessions : ℕ

unfoldable pub session_is_expired : SessionSettings → SessionEntry → ℕ → Bool
session_is_expired settings entry now = ltb settings.idle_timeout_seconds (now - entry.last_seen)

-- The value is stored with its terminator.
unfoldable pub add_value : HashMap Bytes → Bytes → Bytes → Allocator → Run (HashMap Bytes × Bool)
add_value values name value a =
    hash_map_add values (some name) (some (value ++ (0 ∷ []))) ((length value + 1) % uint) a

-- What was found under the name is removed first.
unfoldable pub replace_value :
    HashMap Bytes → Lookup → Bytes → Bytes → Allocator → Run (HashMap Bytes × Bool)
unfolding add_value
replace_value values miss name value a = add_value values name value a
replace_value values crash name value a = none
replace_value values (hit i) name value a = elim (hash_map_remove_key values name) [
  | none ↦ none
  | some r ↦ add_value r.0 name value a
]

-- `sessiontList_StoreInfo` on the values of the session.
unfoldable pub store_value : HashMap Bytes → Bytes → Bytes → Allocator → Run (HashMap Bytes × Bool)
unfolding replace_value
store_value values name value a =
    let searched = hash_map_contains_key values name in
    replace_value searched.0 searched.1 name value a

-- The bytes of a stored value that fit in the buffer of the thread.
unfoldable pub copy_length : ℕ → ℕ
copy_length payload_length =
    let n = if ltb 0 payload_length then payload_length - 1 else 0 in
    if leb scratch_size n then scratch_size - 1 else n

unfoldable pub copy_value : Option (Entry Bytes) → Option Bytes
unfolding copy_length
copy_value none = none
copy_value (some e) = elim e.payload [
  | none ↦ none
  | some stored ↦ some (take (copy_length e.payload_length) stored)
]

-- `sessiontList_GetInfo` on the values of the session, whose search counts a hit.
unfoldable pub get_value : HashMap Bytes → Bytes → Run (HashMap Bytes × Option Bytes)
unfolding copy_value
get_value values name = elim (find_index_serial values name) [
  | miss ↦ some (values, none)
  | crash ↦ none
  | hit i ↦ some (count_hit values i, copy_value (entry_at values i))
]

-- `sessiontList_UnsetInfo` on the values of the session.
unfoldable pub unset_value : HashMap Bytes → Bytes → Run (HashMap Bytes × Bool)
unset_value values name = hash_map_remove_key values name

-- `findSessionLocked`: the index of the session, if there is one that has not expired.
unfoldable pub find_at :
    SessionSettings → HashMap SessionEntry → Bytes → ℕ → ℕ → Run (HashMap SessionEntry × Option ℕ)
unfolding session_is_expired
find_at settings table token now i = elim (hash_map_get_payload_at_index table i) [
  | none ↦ some (table, none)
  | some entry ↦
      if session_is_expired settings entry now
      then elim (hash_map_remove_key table token) [ none ↦ none | some r ↦ some (r.0, none) ]
      else some (table, some i)
]

unfoldable pub find_session_locked :
    SessionSettings → HashMap SessionEntry → Bytes → ℕ → Run (HashMap SessionEntry × Option ℕ)
unfolding find_at
find_session_locked settings table [] now = some (table, none)
find_session_locked settings table (c ∷ cs) now = elim (find_index_serial table (c ∷ cs)) [
  | miss ↦ some (table, none)
  | crash ↦ none
  | hit i ↦ find_at settings (count_hit table i) (c ∷ cs) now i
]
