-- ===== src/Sessions/Stored.antt =====
-- Values that are stored and read by token, src/AmmServerlib/cache/session_list.c.
use ammar_server.Base.{
  ℕ, ◌+◌, ◌%◌, ◌<◌, ◌≡◌, refl, ap, ◌∙◌, true, false, [], ◌∷◌, none, some, Bytes, length, get_elem?,
  take, min, arith, ◌>>=◌,
}
use ammar_server.HashMap.{uint, Entry, HashMap, Run, hit, find_index_serial, count_hit}
use ammar_server.HashMap.Operations.{Allocator, entry_at, hash_map_get_payload_at_index}
use ammar_server.HashMap.Written.{
  with_entry, set-set, with_entry-find_index_serial, entry_at-some, entry_at-with_entry,
  count_hit-with_entry,
}
use ammar_server.Sessions.Values.{AreValues, store_value-get_value}
use ammar_server.Sessions.Info.{write_data, call_on, call_at, on_session, store_info, get_info}
use ammar_server.Sessions.{
  SessionEntry, SessionSettings, session_is_expired, store_value, find_at, find_session_locked,
}

-- The session under a token and the entry that holds it.
pub record IsSessionOf (table : HashMap SessionEntry) (token : Bytes) (i : ℕ)
    (session : SessionEntry) : Type 0 where
  pub entry : Entry SessionEntry
  pub named : 0 < length token
  pub found : find_index_serial table token ≡ hit i
  pub stands : entry_at table i ≡ some entry
  pub carries : entry.payload ≡ some session

-- The entry after a call that left `values`.
abbrev updated : Entry SessionEntry → SessionEntry → HashMap Bytes → Entry SessionEntry
updated e session values = record e {
  hits = (e.hits + 1) % uint;
  payload = some (record session { session_data = values });
}

abbrev counted : Entry SessionEntry → Entry SessionEntry
counted e = record e { hits = (e.hits + 1) % uint }

payload_at :
    (table : HashMap SessionEntry) (i : ℕ) (e : Entry SessionEntry) (session : SessionEntry)
    → entry_at table i ≡ some e
    → e.payload ≡ some session
    → hash_map_get_payload_at_index table i ≡ some session
unfolding hash_map_get_payload_at_index
payload_at table i e session h k = rw (h, hash_map_get_payload_at_index) k

find_live :
    (settings : SessionSettings) (table : HashMap SessionEntry) (token : Bytes) (now i : ℕ)
    (session : SessionEntry)
    → 0 < length token
    → find_index_serial table token ≡ hit i
    → hash_map_get_payload_at_index (count_hit table i) i ≡ some session
    → session_is_expired settings session now ≡ false
    → find_session_locked settings table token now ≡ some (count_hit table i, some i)
unfolding find_session_locked find_at
find_live settings table [] now i session named found there young = absurd (omega arith)
find_live settings table (c ∷ cs) now i session named found there young =
    rw (found, find_session_locked, there, find_at, young) refl

write_data-some :
    (table : HashMap SessionEntry) (i : ℕ) (e : Entry SessionEntry) (session : SessionEntry)
    (values : HashMap Bytes)
    → get_elem? table.entries i ≡ some e
    → e.payload ≡ some session
    → write_data table i values
      ≡ with_entry table i (record e { payload = some (record session { session_data = values }) })
unfolding write_data
write_data-some table i e session values h k = rw (h, write_data, k)

module _ (settings : SessionSettings) (table : HashMap SessionEntry) (token : Bytes) (i : ℕ)
    (session : SessionEntry) (w : IsSessionOf table token i session) where
  is_counted : count_hit table i ≡ with_entry table i (counted w.entry)
  is_counted = count_hit-with_entry table i w.entry (entry_at-some table i w.entry w.stands).1.1

  counted_there : entry_at (with_entry table i (counted w.entry)) i ≡ some (counted w.entry)
  counted_there = entry_at-with_entry table i w.entry (counted w.entry) w.stands

  payload_there : hash_map_get_payload_at_index (count_hit table i) i ≡ some session
  payload_there =
      ap (λ t. hash_map_get_payload_at_index t i) is_counted
      ∙ payload_at (with_entry table i (counted w.entry)) i (counted w.entry) session counted_there
          w.carries

  written :
      (values : HashMap Bytes)
      → write_data (count_hit table i) i values
        ≡ with_entry table i (updated w.entry session values)
  written values =
      ap (λ t. write_data t i values) is_counted
      ∙ write_data-some (with_entry table i (counted w.entry)) i (counted w.entry) session values
          (entry_at-some (with_entry table i (counted w.entry)) i (counted w.entry)
            counted_there).1.1
          w.carries
      ∙ ap (λ es. record table { entries = es })
          (set-set table.entries i (counted w.entry) (updated w.entry session values))

  on_session-live :
      {A : Type 0} (now : ℕ) (call : HashMap Bytes → Run (HashMap Bytes × A)) (missing result : A)
      (values : HashMap Bytes)
      → session_is_expired settings session now ≡ false
      → call session.session_data ≡ some (values, result)
      → on_session settings table token now call missing
        ≡ some (with_entry table i (updated w.entry session values), result)
  unfolding on_session call_at call_on
  on_session-live now call missing result values young h =
      let searched = count_hit table i in
      ap (λ m. m >>= call_at call missing)
        (find_live settings table token now i session w.named w.found payload_there young)
      ∙ ap (call_on searched i call missing) payload_there
      ∙ ap (λ m. m >>= (λ r. some (write_data searched i r.0, r.1))) h
      ∙ ap (λ t. some (t, result)) (written values)

  updated-IsSessionOf :
      (values : HashMap Bytes)
      → IsSessionOf
          (with_entry table i (updated w.entry session values))
          token
          i
          (record session { session_data = values })
  updated-IsSessionOf values =
      let e' = updated w.entry session values in
      record {
        entry = e';
        named = w.named;
        found =
            with_entry-find_index_serial table i w.entry e'
              (entry_at-some table i w.entry w.stands).1.1 refl refl token
            ∙ w.found;
        stands = entry_at-with_entry table i w.entry e' w.stands;
        carries = refl;
      }

-- For a token that the table finds, with a session whose values satisfy their invariant, a map of
-- values that can grow, a value whose length with its terminator fits in an `unsigned int`, and two
-- times at which the session has not expired: when the values accept the value under a name,
-- `sessiontList_StoreInfo` at the first time succeeds, and `sessiontList_GetInfo` at the second, with
-- the same token and name, gives the value, or its first 4095 bytes where it is longer.
pub store_info-get_info :
    (settings : SessionSettings) (table : HashMap SessionEntry) (token : Bytes) (i : ℕ)
    (session : SessionEntry) (name value : Bytes) (a : Allocator) (values : HashMap Bytes)
    (now later : ℕ)
    → IsSessionOf table token i session
    → AreValues session.session_data
    → a.grow_ok ≡ true
    → length value + 1 < uint
    → store_value session.session_data name value a ≡ some (values, true)
    → session_is_expired settings session now ≡ false
    → session_is_expired settings session later ≡ false
    → (table' : HashMap SessionEntry) × (store_info settings table token name value a now
        ≡ some (table', true))
      × ((table'' : HashMap SessionEntry) × (get_info settings table' token name later
            ≡ some (table'', some (take (min (length value) 4095) value))))
unfolding store_info get_info session_is_expired
store_info-get_info settings table token i session name value a values now later w v grows small
      stores young still =
    let (read, gives) =
      store_value-get_value session.session_data values name value a v grows small stores in
    let session' : SessionEntry = record session { session_data = values } in
    let table' = with_entry table i (updated w.entry session values) in
    let w' = updated-IsSessionOf settings table token i session w values in
    (
      table',
      on_session-live settings table token i session w now _ false true values young stores,
      (
        with_entry table' i (updated w'.entry session' read),
        on_session-live settings table' token i session' w' later _ none _ read still gives,
      ),
    )
