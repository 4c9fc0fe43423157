-- ===== src/Sessions/Capacity.antt =====
-- How many sessions there may be, src/AmmServerlib/cache/session_list.c.
use ammar_server.Base.{
  ℕ, zero, suc, ◌+◌, ◌≤◌, ◌<◌, ◌≡◌, refl, sym, ap, ◌∙◌, Bool, true, false, Option, none, some,
  arith, Bytes, ltb, if◌then◌else◌, inl, inr, Bool-cases, Option-cases, some_eq,
}
use ammar_server.HashMap.{
  HashMap, Run, Lookup, hit, miss, crash, hash_map_is_ok, hash_map_grow, hash_map_sort,
  hash_map_prepare_for_queries, hash_map_create, hash_map_get_current_number_of_entries,
}
use ammar_server.HashMap.Operations.{
  Allocator, hash_map_add, add_entry, hash_map_contains_key, find_index, prepared, after_search,
}
use ammar_server.Sessions.{SessionEntry, SessionSettings}
use ammar_server.Sessions.Creation.{
  SessionAllocator, after_draw, draw_loop, add_session, with_token, create_session_locked,
  evict_oldest_session_if_at_capacity,
}
use ammar_server.Sessions.Oldest.{AreSessions}
use ammar_server.Sessions.Eviction.{count_hit-count, evict_oldest_session_if_at_capacity-Evicts}

module _ {V : Type 0} where
  prepared-count : (hm : HashMap V) → (prepared hm).cur_number_of_entries ≡ hm.cur_number_of_entries
  unfolding prepared hash_map_prepare_for_queries hash_map_sort
  prepared-count hm = ground arith

  after_search-count :
      (hm : HashMap V) (counts : Bool) (l : Lookup)
      → (after_search hm counts l).0.cur_number_of_entries ≡ hm.cur_number_of_entries
  unfolding after_search
  after_search-count hm true (hit i) = count_hit-count hm i
  after_search-count hm false (hit i) = refl
  after_search-count hm counts miss = refl
  after_search-count hm counts crash = refl

  contains_key-count :
      (hm : HashMap V) (key : Bytes)
      → (hash_map_contains_key hm key).0.cur_number_of_entries ≡ hm.cur_number_of_entries
  unfolding hash_map_contains_key find_index
  contains_key-count hm key = elim (Bool-cases (hash_map_is_ok hm)) [
    | inl ok ↦ rw ok (after_search-count (prepared hm) _ _ ∙ prepared-count hm)
    | inr ok ↦ rw ok
  ]

  add_entry-count :
      (hm : HashMap V) (key : Option Bytes) (val : Option V) (n : ℕ) (a : Allocator)
      (r : HashMap V × Bool)
      → add_entry hm key val n a ≡ some r
      → r.0.cur_number_of_entries ≤ suc hm.cur_number_of_entries
  unfolding add_entry
  add_entry-count hm key val n a r h = ground arith

  hash_map_add-count :
      (hm : HashMap V) (key : Option Bytes) (val : Option V) (n : ℕ) (a : Allocator)
      (r : HashMap V × Bool)
      → hash_map_add hm key val n a ≡ some r
      → r.0.cur_number_of_entries ≤ suc hm.cur_number_of_entries
  unfolding hash_map_add hash_map_grow
  hash_map_add-count hm key val n a r h = ground (arith, add_entry-count hm key val n a r)

after_draw-count :
    (s : HashMap SessionEntry × Lookup) (token : Bytes)
    (again : Run (HashMap SessionEntry × Option Bytes)) (n : ℕ)
    (r : HashMap SessionEntry × Option Bytes)
    → s.0.cur_number_of_entries ≡ n
    → ((q : HashMap SessionEntry × Option Bytes) → again ≡ some q → q.0.cur_number_of_entries ≡ n)
    → after_draw s token again ≡ some r
    → r.0.cur_number_of_entries ≡ n
unfolding after_draw
after_draw-count (table, miss) token again n r e f h =
    sym (ap (λ q. q.0.cur_number_of_entries) (some_eq h)) ∙ e
after_draw-count (table, crash) token again n r e f h = cc
after_draw-count (table, hit i) token again n r e f h = f r h

draw_loop-count :
    (left : ℕ) (table : HashMap SessionEntry) (draws : ℕ → Option Bytes) (k : ℕ)
    (r : HashMap SessionEntry × Option Bytes)
    → draw_loop table draws k left ≡ some r
    → r.0.cur_number_of_entries ≡ table.cur_number_of_entries
unfolding draw_loop
draw_loop-count zero table draws k r h = elim (Option-cases (draws k)) [
  | inl e ↦ sym (ap (λ q. q.0.cur_number_of_entries) (some_eq (rw (e, draw_loop) at h)))
  | inr (token, e) ↦
      after_draw-count (hash_map_contains_key table token) token _ table.cur_number_of_entries r
        (contains_key-count table token)
        (λ q f.
          sym (ap (λ q. q.0.cur_number_of_entries) (some_eq f)) ∙ contains_key-count table token)
        (rw (e, draw_loop) at h)
]
draw_loop-count (suc left) table draws k r h = elim (Option-cases (draws k)) [
  | inl e ↦ sym (ap (λ q. q.0.cur_number_of_entries) (some_eq (rw (e, draw_loop) at h)))
  | inr (token, e) ↦
      let n = contains_key-count table token in
      after_draw-count (hash_map_contains_key table token) token _ table.cur_number_of_entries r n
        (λ q f. draw_loop-count left (hash_map_contains_key table token).0 draws (k + 1) q f ∙ n)
        (rw (e, draw_loop) at h)
]

add_session-count :
    (table : HashMap SessionEntry) (token : Bytes) (now : ℕ) (values : Option (HashMap Bytes))
    (a : Allocator) (r : HashMap SessionEntry × Option SessionEntry)
    → add_session table token now values a ≡ some r
    → r.0.cur_number_of_entries ≤ suc table.cur_number_of_entries
unfolding add_session
add_session-count table token now none a r h =
    let e = ap (λ q. q.0.cur_number_of_entries) (some_eq h) in omega arith
add_session-count table token now (some values) a r h =
    let entry : SessionEntry = record {
      token = token;
      created = now;
      last_seen = now;
      session_data = values;
    } in
    elim (Option-cases (hash_map_add table (some token) (some entry) 0 a)) [
      | inl e ↦ absurd (cc (rw (e, add_session) at h))
      | inr (q, e) ↦
          let f = ap (λ q. q.0.cur_number_of_entries) (some_eq (rw (e, add_session) at h)) in
          let n = hash_map_add-count table (some token) (some entry) 0 a q e in omega arith
    ]

with_token-count :
    (drawn : HashMap SessionEntry × Option Bytes) (now : ℕ) (a : SessionAllocator)
    (r : HashMap SessionEntry × Option SessionEntry)
    → with_token drawn now a ≡ some r
    → r.0.cur_number_of_entries ≤ suc drawn.0.cur_number_of_entries
unfolding with_token
with_token-count (table, none) now a r h =
    let e = ap (λ q. q.0.cur_number_of_entries) (some_eq h) in omega arith
with_token-count (table, some token) now a r h =
    add_session-count table token now (hash_map_create 8 8 false false a.data_ok a.data_grow_ok)
      a.table r h

evict_below :
    (settings : SessionSettings) (table : HashMap SessionEntry)
    → 0 < settings.max_sessions
    → ltb table.cur_number_of_entries settings.max_sessions ≡ true
    → evict_oldest_session_if_at_capacity settings table ≡ some table
unfolding evict_oldest_session_if_at_capacity hash_map_get_current_number_of_entries
evict_below settings table some_allowed e = elim (Bool-cases (hash_map_is_ok table)) [
  | inl ok ↦ rw (ok, e)
  | inr ok ↦ let z : ltb 0 settings.max_sessions ≡ true = ground arith in rw (ok, z)
]

-- Below the capacity, or at it with sessions that can be evicted.
evict-lt :
    (settings : SessionSettings) (table evicted : HashMap SessionEntry)
    → AreSessions table
    → 0 < settings.max_sessions
    → table.cur_number_of_entries ≤ settings.max_sessions
    → evict_oldest_session_if_at_capacity settings table ≡ some evicted
    → evicted.cur_number_of_entries < settings.max_sessions
evict-lt settings table evicted t some_allowed few h =
    elim (Bool-cases (ltb table.cur_number_of_entries settings.max_sessions)) [
      | inl e ↦
          let same =
            ap (λ (q : HashMap SessionEntry). q.cur_number_of_entries)
              (some_eq (sym (evict_below settings table some_allowed e) ∙ h)) in
          ground arith
      | inr e ↦
          let (evicted', run, w) =
            evict_oldest_session_if_at_capacity-Evicts table t settings (ground arith)
              (ground arith) in
          let same =
            ap (λ (q : HashMap SessionEntry). q.cur_number_of_entries) (some_eq (sym run ∙ h)) in
          omega (arith, w.fewer)
    ]

-- If there are no more sessions than are allowed, one at least, and their keys are tokens that fit their
-- buffers, then after a creation that returns, with a session or without, there are again no more than
-- are allowed, whatever tokens are drawn and whatever the allocator answers.
pub create_session_locked-le :
    (settings : SessionSettings) (table : HashMap SessionEntry) (draws : ℕ → Option Bytes) (now : ℕ)
    (a : SessionAllocator) (r : HashMap SessionEntry × Option SessionEntry)
    → AreSessions table
    → 0 < settings.max_sessions
    → table.cur_number_of_entries ≤ settings.max_sessions
    → create_session_locked settings table draws now a ≡ some r
    → r.0.cur_number_of_entries ≤ settings.max_sessions
unfolding create_session_locked
create_session_locked-le settings table draws now a r t some_allowed few h =
    elim (Option-cases (evict_oldest_session_if_at_capacity settings table)) [
      | inl e ↦ absurd (cc (rw (e, create_session_locked) at h))
      | inr (evicted, e) ↦
          let less = evict-lt settings table evicted t some_allowed few e in
          elim (Option-cases (draw_loop evicted draws 0 4)) [
            | inl d ↦ branch none evicted less (rw (e, d) at h) (λ q f. absurd (cc f))
            | inr (drawn, d) ↦ branch (with_token drawn now a) evicted less (rw (e, d) at h) (λ q f.
                omega (
                  arith,
                  with_token-count drawn now a q f,
                  draw_loop-count 4 evicted draws 0 drawn d,
                ))
          ]
    ]
  where
    branch :
        (made : Run (HashMap SessionEntry × Option SessionEntry)) (evicted : HashMap SessionEntry)
        → evicted.cur_number_of_entries < settings.max_sessions
        → (if a.entry_ok then made else some (evicted, none)) ≡ some r
        → ((q : HashMap SessionEntry × Option SessionEntry)
            → made ≡ some q
            → q.0.cur_number_of_entries ≤ settings.max_sessions)
        → r.0.cur_number_of_entries ≤ settings.max_sessions
    branch made evicted less k f = elim (Bool-cases a.entry_ok) [
      | inl y ↦ f r (sym (ap (λ b. if b then made else some (evicted, none)) y) ∙ k)
      | inr n ↦
          let same =
            ap (λ q. q.0.cur_number_of_entries)
              (some_eq (sym (ap (λ b. if b then made else some (evicted, none)) n) ∙ k)) in
          omega arith
    ]
