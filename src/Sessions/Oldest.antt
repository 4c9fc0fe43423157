-- ===== src/Sessions/Oldest.antt =====
-- The search for the oldest session, src/AmmServerlib/cache/session_list.c.
use mathlib.Core.Path.{subst}
use ammar_server.Base.{
  ℕ, zero, suc, ◌+◌, ◌-◌, ◌≤◌, ◌<◌, ◌≡◌, refl, sym, ap, ◌∙◌, true, false, not, ◌||◌, [], ◌∷◌, some,
  arith, Bytes, length, get_elem?, take, ltb, leb, inl, inr, Bool-cases, some_eq,
}
use ammar_server.HashMap.{Entry, HashMap, live}
use ammar_server.HashMap.Operations.{
  entry_at, hash_map_get_key_at_index, hash_map_get_payload_at_index,
}
use ammar_server.HashMap.Valid.{IsValid}
use ammar_server.HashMap.View.{HaveKeys}
use ammar_server.HashMap.Added.{used_is_ok}
use ammar_server.Sessions.{SessionEntry}
use ammar_server.Sessions.Creation.{
  token_string_size, Oldest, none_found, copied_key, look, oldest_loop,
}

-- What stands at an index of the table: a session under a token that fits its buffer.
pub record SessionAt (table : HashMap SessionEntry) (i : ℕ) : Type 0 where
  pub entry : Entry SessionEntry
  pub session : SessionEntry
  pub key : Bytes
  pub stands : get_elem? table.entries i ≡ some entry
  pub carries : entry.payload ≡ some session
  pub keyed : entry.key ≡ some key
  pub short : length key < token_string_size

-- The table of the sessions between two calls.
pub record AreSessions (table : HashMap SessionEntry) : Type 0 where
  pub valid : IsValid table
  pub keyed : HaveKeys (live table)
  pub sessions : (i : ℕ) → i < table.cur_number_of_entries → SessionAt table i

module _ (table : HashMap SessionEntry) (t : AreSessions table) where
  entry_there :
      (i : ℕ)
      → (h : i < table.cur_number_of_entries) → entry_at table i ≡ some (t.sessions i h).entry
  unfolding entry_at
  entry_there i h =
      let at = t.sessions i h in
      let ok = used_is_ok table i at.entry at.stands (omega (arith, t.valid.filled)) in
      let inside : leb table.cur_number_of_entries i ≡ false = ground arith in
      rw (ok, inside) at.stands

  pub payload_there :
      (i : ℕ)
      → (h : i < table.cur_number_of_entries)
      → hash_map_get_payload_at_index table i ≡ some (t.sessions i h).session
  unfolding hash_map_get_payload_at_index
  payload_there i h = rw (entry_there i h, hash_map_get_payload_at_index) (t.sessions i h).carries

  key_there :
      (i : ℕ)
      → (h : i < table.cur_number_of_entries)
      → hash_map_get_key_at_index table i ≡ some (t.sessions i h).key
  unfolding hash_map_get_key_at_index
  key_there i h = rw (entry_there i h, hash_map_get_key_at_index) (t.sessions i h).keyed

-- Of the sessions below `i` none was active before the one that the variables name.
pub record IsOldest (table : HashMap SessionEntry) (o : Oldest) (i : ℕ) : Type 0 where
  pub place : ℕ
  pub at : SessionAt table place
  pub below : place < table.cur_number_of_entries
  pub found : o.found ≡ true
  pub key : at.key ≡ o.oldest_key
  pub seen : at.session.last_seen ≡ o.oldest
  pub least :
      (m : ℕ) (s : SessionEntry)
      → m < i
      → hash_map_get_payload_at_index table m ≡ some s
      → o.oldest ≤ s.last_seen

take_whole : (n : ℕ) (xs : Bytes) → length xs ≤ n → take n xs ≡ xs
take_whole zero [] h = refl
take_whole zero (x ∷ xs) h = absurd (omega arith)
take_whole (suc n) [] h = refl
take_whole (suc n) (x ∷ xs) h = ap (◌∷◌ x) (take_whole n xs (omega arith))

look-some :
    (o : Oldest) (s : SessionEntry) (key : Bytes)
    → (not o.found || ltb s.last_seen o.oldest) ≡ true
    → length key < token_string_size
    → look o (some s) (some key) ≡ record { found = true; oldest = s.last_seen; oldest_key = key }
unfolding look copied_key
look-some o s key h l = rw h (
    ap (λ k. record { found = true; oldest = s.last_seen; oldest_key = k })
      (take_whole (token_string_size - 1) key (omega arith)))

look_same :
    (o : Oldest) (s : SessionEntry) (key : Bytes)
    → (not o.found || ltb s.last_seen o.oldest) ≡ false
    → look o (some s) (some key) ≡ o
unfolding look
look_same o s key h = rw h

module _ (table : HashMap SessionEntry) (t : AreSessions table) (i : ℕ)
    (h : i < table.cur_number_of_entries) where
  session_is :
      (m : ℕ) (s : SessionEntry)
      → m ≡ i
      → hash_map_get_payload_at_index table m ≡ some s
      → (t.sessions i h).session ≡ s
  session_is m s same p =
      some_eq
        (sym (payload_there table t i h) ∙ sym (ap (hash_map_get_payload_at_index table) same) ∙ p)

  -- The session at `i` is the oldest so far.
  taken :
      (o : Oldest)
      → (not o.found || ltb (t.sessions i h).session.last_seen o.oldest) ≡ true
      → ((m : ℕ) (s : SessionEntry)
          → m < i
          → hash_map_get_payload_at_index table m ≡ some s
          → (t.sessions i h).session.last_seen ≤ s.last_seen)
      → IsOldest table (look o (some (t.sessions i h).session) (some (t.sessions i h).key)) (i + 1)
  taken o c least =
      let at = t.sessions i h in
      subst (λ n. IsOldest table n (i + 1)) (sym (look-some o at.session at.key c at.short))
        (record {
          place = i;
          at = at;
          below = h;
          found = refl;
          key = refl;
          seen = refl;
          least = λ m s l p. elim (Bool-cases (ltb m i)) [
            | inl e ↦ least m s (ground arith) p
            | inr e ↦
                let same : m ≡ i = ground arith in
                subst (λ q. at.session.last_seen ≤ q.last_seen) (session_is m s same p)
                  (omega arith)
          ];
        })

  look-IsOldest :
      (o : Oldest)
      → IsOldest table o i
      → IsOldest table
          (look o (hash_map_get_payload_at_index table i) (hash_map_get_key_at_index table i))
          (i + 1)
  look-IsOldest o c =
      let at = t.sessions i h in
      let result = λ (n : Oldest). IsOldest table n (i + 1) in
      subst result
        (ap (λ p. look o p (hash_map_get_key_at_index table i)) (sym (payload_there table t i h)))
        (subst result (ap (look o (some at.session)) (sym (key_there table t i h)))
          (elim (Bool-cases (ltb at.session.last_seen o.oldest)) [
            | inl e ↦ taken o (rw (c.found, e)) (λ m s l p. let k = c.least m s l p in ground arith)
            | inr e ↦ subst result (sym (look_same o at.session at.key (rw (c.found, e)))) (record {
              place = c.place;
              at = c.at;
              below = c.below;
              found = c.found;
              key = c.key;
              seen = c.seen;
              least = λ m s l p. elim (Bool-cases (ltb m i)) [
                | inl f ↦ c.least m s (ground arith) p
                | inr f ↦
                    let same : m ≡ i = ground arith in
                    subst (λ q. o.oldest ≤ q.last_seen) (session_is m s same p) (ground arith)
              ];
            })
          ]))

module _ (table : HashMap SessionEntry) (t : AreSessions table) where
  oldest_loop_rest :
      (rounds i : ℕ) (o : Oldest)
      → i + rounds ≡ table.cur_number_of_entries
      → IsOldest table o i
      → IsOldest table (oldest_loop table i rounds o) table.cur_number_of_entries
  unfolding oldest_loop
  oldest_loop_rest zero i o e c =
      let all : i ≡ table.cur_number_of_entries = omega arith in subst (IsOldest table o) all c
  oldest_loop_rest (suc rounds) i o e c =
      oldest_loop_rest rounds (i + 1) _ (omega arith) (look-IsOldest table t i (omega arith) o c)

  look_first :
      (h : 0 < table.cur_number_of_entries)
      → IsOldest table
          (look none_found
            (hash_map_get_payload_at_index table 0)
            (hash_map_get_key_at_index table 0))
          1
  look_first h =
      let at = t.sessions 0 h in
      subst (λ p. IsOldest table (look none_found p (hash_map_get_key_at_index table 0)) 1)
        (sym (payload_there table t 0 h))
        (subst (λ k. IsOldest table (look none_found (some at.session) k) 1)
          (sym (key_there table t 0 h))
          (taken table t 0 h none_found refl (λ m s l p. absurd (omega arith))))

  -- The loop over all sessions, of which there is one at least, ends with the oldest.
  pub oldest_loop-IsOldest :
      (n : ℕ)
      → n ≡ table.cur_number_of_entries
      → 0 < n
      → IsOldest table (oldest_loop table 0 n none_found) table.cur_number_of_entries
  oldest_loop-IsOldest zero e h = absurd (omega arith)
  oldest_loop-IsOldest (suc n) e h =
      unfold oldest_loop in oldest_loop_rest n 1 _ (omega arith) (look_first (omega arith))
