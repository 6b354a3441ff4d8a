-- ===== src/Input/Sessions/Ended.antt =====
-- What becomes of a session that has ended (managers/session_manager.py).
use haojie.Common.{
  ℕ, ◌+◌, ◌<◌, ◌≡◌, Option, none, some, String, arith, lookup, erase, Distinct, lookup-erase_self,
  lookup-insert_self, get_or,
}
use haojie.Input.Store.{Backend, IsLawful, CacheManager, full_key, cache_get, cache_set}
use haojie.Input.Store.Hits.{cache_get-cache_set}
use haojie.Input.Sessions.Cleanup.{end_session_present}
use haojie.Input.Sessions.{
  Session, Cached, a_session, SessionManager, end, end_session, get_session, finish, revive,
}

module _ {I D : Type 0} (b : Backend (Cached I D)) where
  cache_set-backend :
      (key namespace : String) (value : Cached I D) (ttl : Option ℕ) (now : ℕ) (c : CacheManager b)
      (s : b.State)
      → c.backend ≡ some s
      → (s' : b.State) × ((cache_set b key value namespace ttl now c).backend ≡ some s')
  unfolding cache_set
  cache_set-backend key namespace value ttl now c s e =
      (b.write (full_key b namespace key c) value (get_or ttl c.cache_ttl) now s, ground (arith, e))

  get_session_revived :
      (id : String) (now : ℕ) (m : SessionManager b) (s : Session I)
      → lookup id m.sessions ≡ none
      → (cache_get b id "session" now m.cache).1 ≡ some (a_session s)
      → ((get_session b id now m).1 ≡ some s)
        × (lookup id (get_session b id now m).0.sessions ≡ some s)
  unfolding get_session revive
  get_session_revived id now m s none_here h =
      ground (arith, none_here, h, lookup-insert_self id s m.sessions)

  module _ (law : IsLawful b) (m : SessionManager b) (store : b.State)
      (enabled : m.cache.backend ≡ some store) where
    -- With a lawful cache that is enabled: a session that has just ended is no longer in memory,
    -- yet within the hour that its copy is kept the next question for it is answered by this copy,
    -- which is put back into memory.
    pub get_session-end_session :
        (id reason : String) (now later : ℕ) (s : Session I)
        → lookup id m.sessions ≡ some s
        → Distinct m.sessions
        → later < now + 3600000
        → let m' = (end_session b id reason now m).0 in
          (lookup id m'.sessions ≡ none)
          × ((get_session b id later m').1 ≡ some (end reason now s))
          × (lookup id (get_session b id later m').0.sessions ≡ some (end reason now s))
    unfolding finish
    get_session-end_session id reason now later s has distinct lt =
        let ended = finish b id reason now s (record m { sessions = erase id m.sessions }) in
        let (s', q) =
          cache_set-backend id "session" (a_session (end reason now s)) (some 3600) now m.cache
            store enabled in
        let gone : lookup id ended.sessions ≡ none = lookup-erase_self id m.sessions distinct in
        let kept : (cache_get b id "session" later ended.cache).1
            ≡ some (a_session (end reason now s)) =
          cache_get-cache_set b id "session" (a_session (end reason now s)) (some 3600) now later
            m.cache s' law q (omega arith) in
        let (answer, back) = get_session_revived id later ended (end reason now s) gone kept in
        rw (end_session_present b id reason now m s has) (gone, answer, back)
