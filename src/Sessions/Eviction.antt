-- ===== src/Sessions/Eviction.antt =====
-- The eviction of the oldest session and the number of sessions,
-- src/AmmServerlib/cache/session_list.c.
use ammar_server.Base.{
  ℕ, suc, ◌+◌, ◌≤◌, ◌<◌, ◌≡◌, refl, ap, ◌∙◌, true, false, some, arith, Bytes, get_elem?, ltb, inl,
  inr, Option-cases,
}
use ammar_server.Base.Text.{strcmp, strcmp_refl}
use ammar_server.HashMap.{
  Entry, HashMap, hit, hash_map_is_ok, live, find_index_serial, count_hit,
  hash_map_get_current_number_of_entries,
}
use ammar_server.HashMap.Operations.{hash_map_remove_key, remove_at}
use ammar_server.HashMap.View.{HaveKeys, has_key}
use ammar_server.HashMap.Contents.{value_of-there}
use ammar_server.HashMap.Added.{used_is_ok, find_index_serial-first_index}
use ammar_server.HashMap.Held.{first_index-value_of}
use ammar_server.HashMap.Removed.{take-get, Gone, hash_map_remove_key-Gone}
use ammar_server.Sessions.{SessionEntry, SessionSettings}
use ammar_server.Sessions.Creation.{
  Oldest, none_found, oldest_loop, remove_oldest, evict_oldest_session_if_at_capacity,
}
use ammar_server.Sessions.Oldest.{AreSessions, IsOldest, oldest_loop-IsOldest}

module _ {V : Type 0} where
  pub count_hit-count :
      (hm : HashMap V) (i : ℕ) → (count_hit hm i).cur_number_of_entries ≡ hm.cur_number_of_entries
  unfolding count_hit
  count_hit-count hm i = elim (Option-cases (get_elem? hm.entries i)) [
    | inl e ↦ rw (e, count_hit)
    | inr (x, e) ↦ rw (e, count_hit)
  ]

  -- A key of an entry in use is found.
  key_found :
      (hm : HashMap V) (key : Bytes) (i : ℕ) (e : Entry V)
      → HaveKeys (live hm)
      → i < hm.cur_number_of_entries
      → get_elem? hm.entries i ≡ some e
      → has_key key e ≡ true
      → (j : ℕ) × (find_index_serial hm key ≡ hit j)
  key_found hm key i e ks l at has =
      let there = take-get hm.cur_number_of_entries i hm.entries e l at in
      elim (first_index-value_of key (live hm) 0) [
        | inl (m, v) ↦ absurd (value_of-there key (live hm) i e there has v)
        | inr w ↦ (0 + w.offset, find_index_serial-first_index hm key ks ∙ w.index)
      ]

  removed_lem :
      (hm : HashMap V) (key : Bytes) (j : ℕ)
      → hash_map_is_ok hm ≡ true
      → find_index_serial hm key ≡ hit j
      → hash_map_remove_key hm key ≡ some (remove_at (count_hit hm j) j, true)
  unfolding hash_map_remove_key
  removed_lem hm key j ok f = rw (ok, f)

  removed_count :
      (hm : HashMap V) (j : ℕ)
      → 0 < hm.cur_number_of_entries
      → suc (remove_at (count_hit hm j) j).cur_number_of_entries ≡ hm.cur_number_of_entries
  unfolding remove_at
  removed_count hm j h = omega (arith, count_hit-count hm j)

module _ (table : HashMap SessionEntry) (t : AreSessions table) where
  table_is_ok : 0 < table.cur_number_of_entries → hash_map_is_ok table ≡ true
  table_is_ok h =
      let at = t.sessions 0 h in
      used_is_ok table 0 at.entry at.stands (omega (arith, t.valid.filled))

  oldest_key-has_key :
      (o : Oldest) (n : ℕ) (c : IsOldest table o n) → has_key o.oldest_key c.at.entry ≡ true
  unfolding has_key
  oldest_key-has_key o n c =
      rw (c.at.keyed, has_key) (ap (strcmp o.oldest_key) c.key ∙ strcmp_refl o.oldest_key)

  -- What an eviction does to a full table.
  pub record Evicts (table' : HashMap SessionEntry) : Type 0 where
    pub variables : Oldest
    pub oldest : IsOldest table variables table.cur_number_of_entries
    pub gone : Gone table table' variables.oldest_key
    pub fewer : suc table'.cur_number_of_entries ≡ table.cur_number_of_entries

  remove_oldest_lem :
      (o : Oldest)
      → 0 < table.cur_number_of_entries
      → IsOldest table o table.cur_number_of_entries
      → (table' : HashMap SessionEntry) × (remove_oldest table o ≡ some table') × Evicts table'
  unfolding remove_oldest
  remove_oldest_lem o h c =
      let (j, f) =
        key_found table o.oldest_key c.place c.at.entry t.keyed c.below c.at.stands
          (oldest_key-has_key o table.cur_number_of_entries c) in
      let run = removed_lem table o.oldest_key j (table_is_ok h) f in
      (
        remove_at (count_hit table j) j,
        rw (c.found, run),
        record {
          variables = o;
          oldest = c;
          gone = hash_map_remove_key-Gone table _ o.oldest_key run;
          fewer = removed_count table j h;
        },
      )

  -- For a table of sessions whose keys are tokens that fit their buffers: when there are as many
  -- sessions as are allowed, or more, and one at least, the eviction finds a session such that none was
  -- active before it, removes the first entry under its token, and leaves one session fewer.
  pub evict_oldest_session_if_at_capacity-Evicts :
      (settings : SessionSettings)
      → 0 < table.cur_number_of_entries
      → settings.max_sessions ≤ table.cur_number_of_entries
      → (table' : HashMap SessionEntry) × (evict_oldest_session_if_at_capacity settings table
          ≡ some table')
        × Evicts table'
  unfolding evict_oldest_session_if_at_capacity hash_map_get_current_number_of_entries
  evict_oldest_session_if_at_capacity-Evicts settings h full =
      let ok = table_is_ok h in
      let at_capacity : ltb table.cur_number_of_entries settings.max_sessions ≡ false =
        ground arith in
      let (table', run, e) =
        remove_oldest_lem (oldest_loop table 0 table.cur_number_of_entries none_found) h
          (oldest_loop-IsOldest table t table.cur_number_of_entries refl h) in
      (table', rw (ok, at_capacity) run, e)
