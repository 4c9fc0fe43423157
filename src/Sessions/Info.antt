-- ===== src/Sessions/Info.antt =====
-- The values of the sessions by token, src/AmmServerlib/cache/session_list.c. A pointer to a session is
-- its place in the table, and the values are written where they stand.
use ammar_server.Base.{ℕ, Bool, false, Option, none, some, Bytes, get_elem?, set, ◌>>=◌}
use ammar_server.HashMap.{HashMap, Run}
use ammar_server.HashMap.Operations.{Allocator, hash_map_get_payload_at_index}
use ammar_server.Sessions.{
  SessionEntry, SessionSettings, store_value, get_value, unset_value, find_session_locked,
}

-- What the calls on `entry->data` leave in the session.
unfoldable pub write_data : HashMap SessionEntry → ℕ → HashMap Bytes → HashMap SessionEntry
write_data table i values = elim (get_elem? table.entries i) [
  | none ↦ table
  | some e ↦ elim e.payload [
    | none ↦ table
    | some session ↦ record table {
      entries =
          set table.entries i
            (record e { payload = some (record session { session_data = values }) });
    }
  ]
]

-- A call on the values of the session at a place.
unfoldable pub call_on :
    {A : Type 0}
    → HashMap SessionEntry
    → ℕ
    → (HashMap Bytes → Run (HashMap Bytes × A))
    → A
    → Option SessionEntry
    → Run (HashMap SessionEntry × A)
unfolding write_data
call_on table i call missing none = some (table, missing)
call_on table i call missing (some session) = do
  (values, result) ← call session.session_data
  some (write_data table i values, result)

unfoldable pub call_at :
    {A : Type 0}
    → (HashMap Bytes → Run (HashMap Bytes × A))
    → A
    → HashMap SessionEntry × Option ℕ
    → Run (HashMap SessionEntry × A)
unfolding call_on
call_at call missing (table, none) = some (table, missing)
call_at call missing (table, some i) =
    call_on table i call missing (hash_map_get_payload_at_index table i)

-- The same under a token, or `missing` if there is no such session.
unfoldable pub on_session :
    {A : Type 0}
    → SessionSettings
    → HashMap SessionEntry
    → Bytes
    → ℕ
    → (HashMap Bytes → Run (HashMap Bytes × A))
    → A
    → Run (HashMap SessionEntry × A)
unfolding call_at
on_session settings table token now call missing =
    find_session_locked settings table token now >>= call_at call missing

-- `sessiontList_StoreInfo`
unfoldable pub store_info :
    SessionSettings
    → HashMap SessionEntry
    → Bytes
    → Bytes
    → Bytes
    → Allocator
    → ℕ
    → Run (HashMap SessionEntry × Bool)
unfolding on_session
store_info settings table token name value a now =
    on_session settings table token now (λ values. store_value values name value a) false

-- `sessiontList_GetInfo`
unfoldable pub get_info :
    SessionSettings
    → HashMap SessionEntry
    → Bytes
    → Bytes
    → ℕ
    → Run (HashMap SessionEntry × Option Bytes)
unfolding on_session
get_info settings table token name now =
    on_session settings table token now (λ values. get_value values name) none

-- `sessiontList_UnsetInfo`
unfoldable pub unset_info :
    SessionSettings → HashMap SessionEntry → Bytes → Bytes → ℕ → Run (HashMap SessionEntry × Bool)
unfolding on_session
unset_info settings table token name now =
    on_session settings table token now (λ values. unset_value values name) false
