-- ===== src/Sessions/Examples.antt =====
-- A small session for src/AmmServerlib/cache/session_list.c.
use mathlib.Core.List.{[], ◌∷◌}
use ammar_server.Base.{
  ℕ, ◌≡◌, refl, true, false, Bytes, some, take, min, arith, zero, suc, ◌<◌, Option, replicate, ◌≤◌,
}
use ammar_server.Base.Text.{codes, strcmp}
use ammar_server.HashMap.{
  hash_function, hash_loop, Entry, HashMap, hash_map_grow, hash_map_is_ok, is_empty_list,
  find_serial, find_index_serial_with_precomputed_hash, find_index_serial, count_hit,
  hash_map_get_current_number_of_entries, hash_map_create, zero_entry,
}
use ammar_server.HashMap.Operations.{
  counts_hit, after_search, Allocator, key_fails, store_key, store_payload, add_entry, hash_map_add,
  fill_gap, remove_at, hash_map_remove_key, guessed, search_prepared, prepared, find_index,
  hash_map_contains_key, entry_at, hash_map_get_payload_at_index, hash_map_get_key_at_index,
}
use ammar_server.HashMap.View.{has_key}
use ammar_server.HashMap.Contents.{value_of}
use ammar_server.Sessions.{
  SessionEntry, SessionSettings, session_is_expired, add_value, replace_value, store_value, find_at,
  find_session_locked,
}
use ammar_server.Sessions.Creation.{
  SessionAllocator, evict_oldest_session_if_at_capacity, create_session_locked,
}
use ammar_server.Sessions.Oldest.{SessionAt, AreSessions}
use ammar_server.Sessions.Eviction.{Evicts, evict_oldest_session_if_at_capacity-Evicts}
use ammar_server.Sessions.Capacity.{create_session_locked-le}
use ammar_server.Sessions.Values.{AreValues}
use ammar_server.Sessions.Info.{store_info, get_info}
use ammar_server.Sessions.Stored.{IsSessionOf, store_info-get_info}
use ammar_server.Sessions.Expiry.{IsLive, find_session_locked-IsLive}

abbrev entry : {V : Type 0} → Bytes → ℕ → ℕ → V → Entry V
entry key index n value = record {
  index = index;
  key_hash = hash_function (some key);
  key_length = 2;
  key = some key;
  payload_length = n;
  payload = some value;
  hits = 0;
}

abbrev values : HashMap Bytes
values = record {
  max_number_of_entries = 2;
  cur_number_of_entries = 2;
  entry_allocation_step = 8;
  entries = entry (codes "me") 0 2 (codes "a\0") ∷ entry (codes "to") 1 2 (codes "b\0") ∷ [];
  clear_callback = false;
  is_sorted = false;
  use_sorting = false;
}

-- The new value of `me` stands behind `to`.
abbrev stored : HashMap Bytes
stored = record values {
  entries =
      record (entry (codes "to") 1 2 (codes "b\0")) { hits = 0 }
      ∷ entry (codes "me") 1 4 (codes "xyz\0")
      ∷ [];
}

abbrev all_ok : Allocator
all_ok = record { grow_ok = true; key_ok = true; payload_ok = true }

values-AreValues : AreValues values
unfolding value_of has_key strcmp
values-AreValues = record {
  valid = record {
    width = refl;
    filled = omega arith;
    small = omega arith;
    entries_ok = ((refl, refl), ((refl, refl), tt));
  };
  keys = ((codes "me", refl, refl), ((codes "to", refl, refl), tt));
  distinct = (refl, (refl, tt));
  unsorted = refl;
  step = omega arith;
  ready = omega arith;
  fits = omega arith;
}

does_store : store_value values (codes "me") (codes "xyz") all_ok ≡ some (stored, true)
unfolding store_value replace_value add_value hash_map_contains_key find_index counts_hit
    after_search prepared search_prepared guessed hash_map_remove_key hash_map_add hash_map_grow
    hash_map_is_ok is_empty_list add_entry key_fails store_key store_payload find_index_serial
    find_index_serial_with_precomputed_hash find_serial hash_function hash_loop strcmp count_hit
    remove_at fill_gap
does_store = refl

abbrev settings : SessionSettings
settings = record { idle_timeout_seconds = 60; max_sessions = 2 }

abbrev session : SessionEntry
session = record { token = codes "tk"; created = 100; last_seen = 100; session_data = values }

abbrev table : HashMap SessionEntry
table = record {
  max_number_of_entries = 1;
  cur_number_of_entries = 1;
  entry_allocation_step = 64;
  entries = entry (codes "tk") 0 0 session ∷ [];
  clear_callback = true;
  is_sorted = false;
  use_sorting = false;
}

abbrev touched : HashMap SessionEntry
touched = record table { entries = record (entry (codes "tk") 0 0 session) { hits = 1 } ∷ [] }

finds : find_session_locked settings table (codes "tk") 150 ≡ some (touched, some 0)
unfolding find_session_locked find_at session_is_expired find_index_serial
    find_index_serial_with_precomputed_hash find_serial hash_function hash_loop strcmp count_hit
    hash_map_get_payload_at_index entry_at hash_map_is_ok is_empty_list
finds = refl

find_session_locked-IsLive_example : IsLive settings table touched (codes "tk") 150 0
find_session_locked-IsLive_example =
    find_session_locked-IsLive settings table touched (codes "tk") 150 0 finds

session-IsSessionOf : IsSessionOf table (codes "tk") 0 session
unfolding find_index_serial find_index_serial_with_precomputed_hash find_serial hash_function
    hash_loop strcmp entry_at hash_map_is_ok is_empty_list
session-IsSessionOf = record {
  entry = entry (codes "tk") 0 0 session;
  named = omega arith;
  found = refl;
  stands = refl;
  carries = refl;
}

active :
    (session_is_expired settings session 150 ≡ false)
    × (session_is_expired settings session 155 ≡ false)
unfolding session_is_expired
active = (refl, refl)

store_info-get_info_example :
    (table' : HashMap SessionEntry) × (store_info settings table
        (codes "tk")
        (codes "me")
        (codes "xyz")
        all_ok
        150
      ≡ some (table', true))
    × ((table'' : HashMap SessionEntry) × (get_info settings table' (codes "tk") (codes "me") 155
          ≡ some (table'', some (take (min 3 4095) (codes "xyz")))))
store_info-get_info_example =
    store_info-get_info settings table (codes "tk") 0 session (codes "me") (codes "xyz") all_ok
      stored 150 155 session-IsSessionOf values-AreValues refl (omega arith) does_store active.0
      active.1

-- Two sessions, of which the second was active last.
abbrev two_sessions : HashMap SessionEntry
two_sessions = record table {
  max_number_of_entries = 2;
  cur_number_of_entries = 2;
  entries =
      entry (codes "tk") 0 0 session
      ∷ entry (codes "to") 1 0 (record session { token = codes "to"; last_seen = 140 })
      ∷ [];
}

two_sessions-AreSessions : AreSessions two_sessions
two_sessions-AreSessions = record {
  valid = record {
    width = refl;
    filled = omega arith;
    small = omega arith;
    entries_ok = ((refl, refl), ((refl, refl), tt));
  };
  keyed = ((codes "tk", refl, refl), ((codes "to", refl, refl), tt));
  sessions = at;
}
  where
    at : (i : ℕ) → i < 2 → SessionAt two_sessions i
    at zero h = record {
      entry = entry (codes "tk") 0 0 session;
      session = session;
      key = codes "tk";
      stands = refl;
      carries = refl;
      keyed = refl;
      short = omega arith;
    }
    at (suc zero) h = record {
      entry = entry (codes "to") 1 0 (record session { token = codes "to"; last_seen = 140 });
      session = record session { token = codes "to"; last_seen = 140 };
      key = codes "to";
      stands = refl;
      carries = refl;
      keyed = refl;
      short = omega arith;
    }
    at (suc (suc i)) h = absurd (omega arith)

evict_oldest_session_if_at_capacity-Evicts_example :
    (table' : HashMap SessionEntry) × (evict_oldest_session_if_at_capacity settings two_sessions
      ≡ some table')
    × Evicts two_sessions two_sessions-AreSessions table'
evict_oldest_session_if_at_capacity-Evicts_example =
    evict_oldest_session_if_at_capacity-Evicts two_sessions two_sessions-AreSessions settings
      (omega arith) (omega arith)

-- The session under "tk" is evicted, and the second draw is the first fresh token.
abbrev draws : ℕ → Option Bytes
draws zero = some (codes "to")
draws (suc k) = some (codes "tz")

abbrev no_failures : SessionAllocator
no_failures = record { entry_ok = true; data_ok = true; data_grow_ok = true; table = all_ok }

abbrev new_session : SessionEntry
new_session = record {
  token = codes "tz";
  created = 200;
  last_seen = 200;
  session_data = record {
    max_number_of_entries = 8;
    cur_number_of_entries = 0;
    entry_allocation_step = 8;
    entries = replicate 8 zero_entry;
    clear_callback = false;
    is_sorted = false;
    use_sorting = false;
  };
}

abbrev one_renewed : HashMap SessionEntry
one_renewed = record two_sessions {
  entries =
      record (entry (codes "to") 1 0 (record session { token = codes "to"; last_seen = 140 })) {
        hits = 1;
      }
      ∷ entry (codes "tz") 1 0 new_session
      ∷ [];
}

creates :
    create_session_locked settings two_sessions draws 200 no_failures
    ≡ some (one_renewed, some new_session)
unfolding create_session_locked hash_map_get_current_number_of_entries hash_map_is_ok
    hash_map_get_payload_at_index hash_map_remove_key find_index_serial hash_function
    hash_map_get_key_at_index strcmp hash_map_contains_key find_index count_hit guessed
    hash_map_create hash_map_add
creates = refl

create_session_locked-le_example : 2 ≤ 2
create_session_locked-le_example =
    create_session_locked-le settings two_sessions draws 200 no_failures
      (one_renewed, some new_session) two_sessions-AreSessions (omega arith) (omega arith) creates
