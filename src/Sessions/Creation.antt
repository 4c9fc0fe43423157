-- ===== src/Sessions/Creation.antt =====
-- The creation of sessions, src/AmmServerlib/cache/session_list.c. The tokens that
-- `AmmServer_GenerateSecureToken` draws are an argument, as are the answers of the allocator.
use ammar_server.Base.{
  ℕ, zero, suc, ◌+◌, ◌-◌, Bool, true, false, not, ◌||◌, [], Option, none, some, Bytes, get_elem?,
  set, take, ltb, if◌then◌else◌, ◌>>=◌,
}
use ammar_server.HashMap.{
  HashMap, Run, Lookup, hit, miss, crash, hash_map_create, hash_map_get_current_number_of_entries,
}
use ammar_server.HashMap.Operations.{
  Allocator, hash_map_add, hash_map_remove_key, hash_map_contains_key, hash_map_get_key_at_index,
  hash_map_get_payload_at_index,
}
use ammar_server.Sessions.{SessionEntry, SessionSettings, find_session_locked}

-- `SESSION_TOKEN_STRING_SIZE`
abbrev pub token_string_size : ℕ
token_string_size = 64

-- `sessionList_initialize`; the flags are those of `hashMap_Create`.
unfoldable pub session_list_initialize : Bool → Bool → Option (HashMap SessionEntry)
session_list_initialize malloc_ok grow_ok = hash_map_create 64 64 true false malloc_ok grow_ok

-- The variables of the loop of `evictOldestSessionIfAtCapacity`.
pub record Oldest : Type 0 where
  pub found : Bool
  pub oldest : ℕ
  pub oldest_key : Bytes

abbrev pub none_found : Oldest
none_found = record { found = false; oldest = 0; oldest_key = [] }

-- What `snprintf` copies of a key.
unfoldable pub copied_key : Bytes → Option Bytes → Bytes
copied_key oldest_key none = oldest_key
copied_key oldest_key (some key) = take (token_string_size - 1) key

unfoldable pub look : Oldest → Option SessionEntry → Option Bytes → Oldest
unfolding copied_key
look o none key = o
look o (some e) key =
    if not o.found || ltb e.last_seen o.oldest
    then record { found = true; oldest = e.last_seen; oldest_key = copied_key o.oldest_key key }
    else o

unfoldable pub oldest_loop : HashMap SessionEntry → ℕ → ℕ → Oldest → Oldest
unfolding look
oldest_loop table i zero o = o
oldest_loop table i (suc rounds) o =
    oldest_loop table (i + 1) rounds
      (look o (hash_map_get_payload_at_index table i) (hash_map_get_key_at_index table i))

unfoldable pub remove_oldest : HashMap SessionEntry → Oldest → Run (HashMap SessionEntry)
remove_oldest table o =
    if o.found
    then elim (hash_map_remove_key table o.oldest_key) [ none ↦ none | some r ↦ some r.0 ]
    else some table

-- `evictOldestSessionIfAtCapacity`
unfoldable pub evict_oldest_session_if_at_capacity :
    SessionSettings → HashMap SessionEntry → Run (HashMap SessionEntry)
unfolding oldest_loop remove_oldest
evict_oldest_session_if_at_capacity settings table =
    let n = hash_map_get_current_number_of_entries table in
    if ltb n settings.max_sessions
    then some table
    else remove_oldest table (oldest_loop table 0 n none_found)

-- What follows a draw: another one only if the table contains the token.
unfoldable pub after_draw :
    HashMap SessionEntry × Lookup
    → Bytes
    → Run (HashMap SessionEntry × Option Bytes)
    → Run (HashMap SessionEntry × Option Bytes)
after_draw (table, miss) token again = some (table, some token)
after_draw (table, crash) token again = none
after_draw (table, hit i) token again = again

-- The rounds of `createSessionLocked` that draw a token: the draw that comes next, and how many more
-- there may be.
unfoldable pub draw_loop :
    HashMap SessionEntry → (ℕ → Option Bytes) → ℕ → ℕ → Run (HashMap SessionEntry × Option Bytes)
unfolding after_draw
draw_loop table draws k zero = elim (draws k) [
  | none ↦ some (table, none)
  | some token ↦
      let searched = hash_map_contains_key table token in
      after_draw searched token (some (searched.0, some token))
]
draw_loop table draws k (suc less) = elim (draws k) [
  | none ↦ some (table, none)
  | some token ↦
      let searched = hash_map_contains_key table token in
      after_draw searched token (draw_loop searched.0 draws (k + 1) less)
]

-- The answers of the allocator in one call of `createSessionLocked`.
pub record SessionAllocator : Type 0 where
  pub entry_ok : Bool
  pub data_ok : Bool
  pub data_grow_ok : Bool
  pub table : Allocator

unfoldable pub add_session :
    HashMap SessionEntry
    → Bytes
    → ℕ
    → Option (HashMap Bytes)
    → Allocator
    → Run (HashMap SessionEntry × Option SessionEntry)
add_session table token now none a = some (table, none)
add_session table token now (some values) a =
    let entry : SessionEntry = record {
      token = token;
      created = now;
      last_seen = now;
      session_data = values;
    } in
    elim (hash_map_add table (some token) (some entry) 0 a) [
      | none ↦ none
      | some r ↦ some (r.0, if r.1 then some entry else none)
    ]

unfoldable pub with_token :
    HashMap SessionEntry × Option Bytes
    → ℕ
    → SessionAllocator
    → Run (HashMap SessionEntry × Option SessionEntry)
unfolding add_session
with_token (table, none) now a = some (table, none)
with_token (table, some token) now a =
    add_session table token now (hash_map_create 8 8 false false a.data_ok a.data_grow_ok) a.table

-- `createSessionLocked`, which returns the session or nothing.
unfoldable pub create_session_locked :
    SessionSettings
    → HashMap SessionEntry
    → (ℕ → Option Bytes)
    → ℕ
    → SessionAllocator
    → Run (HashMap SessionEntry × Option SessionEntry)
unfolding evict_oldest_session_if_at_capacity draw_loop with_token
create_session_locked settings table draws now a = do
  evicted ← evict_oldest_session_if_at_capacity settings table
  let created = do drawn ← draw_loop evicted draws 0 4; with_token drawn now a
  if a.entry_ok then created else some (evicted, none)

-- `entry->lastSeen = time(0)`
unfoldable pub touch : HashMap SessionEntry → ℕ → ℕ → HashMap SessionEntry
touch table i now = elim (get_elem? table.entries i) [
  | none ↦ table
  | some e ↦ elim e.payload [
    | none ↦ table
    | some session ↦ record table {
      entries =
          set table.entries i (record e { payload = some (record session { last_seen = now }) });
    }
  ]
]

-- What `getSessionFromHeader` leaves in the table, the token that it gives, and whether it is new.
pub record Resolved : Type 0 where
  pub table : HashMap SessionEntry
  pub session_token : Option Bytes
  pub is_new_session : Bool

abbrev pub token_of : Option SessionEntry → Option Bytes
token_of none = none
token_of (some session) = some session.token

unfoldable pub created : HashMap SessionEntry × Option SessionEntry → Resolved
created (table, none) = record { table = table; session_token = none; is_new_session = false }
created (table, some session) = record {
  table = table;
  session_token = some session.token;
  is_new_session = true;
}

-- `getSessionFromHeader`; the cookie of a request without one is empty.
unfoldable pub get_session_from_header :
    SessionSettings
    → HashMap SessionEntry
    → Bytes
    → (ℕ → Option Bytes)
    → ℕ
    → SessionAllocator
    → Run Resolved
unfolding create_session_locked touch created
get_session_from_header settings table cookie draws now a = do
  (searched, place) ← find_session_locked settings table cookie now
  let fresh = do made ← create_session_locked settings searched draws now a; some (created made)
  elim place [
    | none ↦ fresh
    | some i ↦ some (record {
      table = touch searched i now;
      session_token = token_of (hash_map_get_payload_at_index searched i);
      is_new_session = false;
    })
  ]

-- `sessionList_Destroy`
unfoldable pub session_list_destroy :
    HashMap SessionEntry → Bytes → Run (HashMap SessionEntry × Bool)
session_list_destroy table session_token = hash_map_remove_key table session_token
