-- ===== src/Sessions/Expiry.antt =====
-- The search for a session by its token, src/AmmServerlib/cache/session_list.c.
use ammar_server.Base.{
  some_eq, ℕ, ◌-◌, ◌≤◌, ◌≡◌, refl, sym, ap, ◌∙◌, false, [], ◌∷◌, none, some, Bytes, inl, inr, arith,
  Bool-cases, Option-cases,
}
use ammar_server.HashMap.{HashMap, Lookup, hit, miss, crash, find_index_serial, count_hit}
use ammar_server.HashMap.Operations.{hash_map_remove_key, hash_map_get_payload_at_index}
use ammar_server.Sessions.{
  SessionEntry, SessionSettings, session_is_expired, find_at, find_session_locked,
}

-- The session at an index, which was active within the timeout.
pub record IsLive (settings : SessionSettings) (table table' : HashMap SessionEntry) (token : Bytes)
    (now i : ℕ) : Type 0 where
  pub session : SessionEntry
  pub found : find_index_serial table token ≡ hit i
  pub there : hash_map_get_payload_at_index table' i ≡ some session
  pub active : now - session.last_seen ≤ settings.idle_timeout_seconds
  pub kept : table' ≡ count_hit table i

within :
    (settings : SessionSettings) (session : SessionEntry) (now : ℕ)
    → session_is_expired settings session now ≡ false
    → now - session.last_seen ≤ settings.idle_timeout_seconds
unfolding session_is_expired
within settings session now h = ground arith

find_at-IsLive :
    (settings : SessionSettings) (table table' : HashMap SessionEntry) (token : Bytes)
    (now at i : ℕ)
    → find_index_serial table token ≡ hit at
    → find_at settings (count_hit table at) token now at ≡ some (table', some i)
    → IsLive settings table table' token now i
unfolding find_at
find_at-IsLive settings table table' token now at i f h =
    elim (Option-cases (hash_map_get_payload_at_index (count_hit table at) at)) [
      | inl x ↦ absurd (cc (rw (x, find_at) at h))
      | inr (session, x) ↦ elim (Bool-cases (session_is_expired settings session now)) [
        | inl old ↦ elim (Option-cases (hash_map_remove_key (count_hit table at) token)) [
          | inl r ↦ absurd (cc (rw (x, find_at, old, r) at h))
          | inr (q, r) ↦ absurd (cc (rw (x, find_at, old, r) at h))
        ]
        | inr young ↦
            let same : find_at settings (count_hit table at) token now at
                ≡ some (count_hit table at, some at) =
              rw (x, find_at, young) in
            let pair = some_eq (sym same ∙ h) in
            let kept : count_hit table at ≡ table' = ap (λ q. q.0) pair in
            let place : at ≡ i = some_eq (ap (λ q. q.1) pair) in
            record {
              session = session;
              found = f ∙ ap hit place;
              there =
                  sym (ap (λ q. hash_map_get_payload_at_index q i) kept)
                  ∙ sym (ap (hash_map_get_payload_at_index (count_hit table at)) place)
                  ∙ x;
              active = within settings session now young;
              kept = sym kept ∙ ap (count_hit table) place;
            }
      ]
    ]

-- When a session is found at an index, the serial search finds its token there, the session at the
-- index was active within the idle timeout, and nothing but the count of hits there has changed in
-- the table.
pub find_session_locked-IsLive :
    (settings : SessionSettings) (table table' : HashMap SessionEntry) (token : Bytes) (now i : ℕ)
    → find_session_locked settings table token now ≡ some (table', some i)
    → IsLive settings table table' token now i
unfolding find_session_locked
find_session_locked-IsLive settings table table' [] now i h =
    absurd (cc (ap (λ q. q.1) (some_eq h)))
find_session_locked-IsLive settings table table' (c ∷ cs) now i h =
    go (find_index_serial table (c ∷ cs)) refl
  where
    go :
        (l : Lookup)
        → find_index_serial table (c ∷ cs) ≡ l
        → IsLive settings table table' (c ∷ cs) now i
    go miss e =
        let same : find_session_locked settings table (c ∷ cs) now ≡ some (table, none) =
          rw (e, find_session_locked) in
        absurd (cc (ap (λ q. q.1) (some_eq (sym same ∙ h))))
    go crash e = absurd (cc (rw (e, find_session_locked) at h))
    go (hit at) e =
        find_at-IsLive settings table table' (c ∷ cs) now at i e (rw (e, find_session_locked) at h)
