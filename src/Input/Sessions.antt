-- ===== src/Input/Sessions.antt =====
-- Sessions (entities/session.py, and managers/session_manager.py over the cache of cache/manager.py).
--
-- Times are in milliseconds; the random id of a new session is an argument. A session in memory and
-- its copy in the cache are values here: the manager writes the copy whenever it changes the session.
-- Calls of the manager come one after the other. Of a session, the free context and metadata that
-- the manager never reads are left out, and so are metrics.
pub mod Cleanup
pub mod Ended
use haojie.Common.{
  ℕ, zero, suc, ◌+◌, ◌-◌, ◌*◌, ◌≡◌, Bool, true, false, ◌&&◌, ◌||◌, not, Option, none, some, String,
  List, [], ◌∷◌, ◌++◌, leb, ltb, if◌then◌else◌, Dict, lookup, insert, erase, length, str_eq,
}
use haojie.Input.Store.{Backend, CacheManager, cache_get, cache_set}

pub data SessionStatus : Type 0 where
  active paused completed timeout error : SessionStatus

-- A session; `I` is the type of its inputs.
pub record Session (I : Type 0) : Type 0 where
  pub session_id : String
  pub user_id : String
  pub status : SessionStatus
  pub inputs : List I
  pub created_at : ℕ
  pub last_activity_at : ℕ
  pub ended_at : Option ℕ
  pub end_reason : Option String

abbrev pub is_active_status : SessionStatus → Bool
is_active_status active = true
is_active_status _ = false

-- `max_inactivity_minutes`, which nothing sets: 30 minutes.
abbrev pub max_inactivity : ℕ
max_inactivity = 1800000

unfoldable pub latest {ℓ} : {A : Type ℓ} → ℕ → List A → List A
latest n [] = []
latest n (x ∷ xs) = let rest = latest n xs in if leb (length (x ∷ xs)) n then x ∷ xs else rest

module _ {I : Type 0} where
  unfoldable pub is_expired : ℕ → Session I → Bool
  is_expired now s =
      not (is_active_status s.status) || ltb (s.last_activity_at + max_inactivity) now

  unfoldable pub add_item : I → ℕ → Session I → Session I
  unfolding latest
  add_item item now s = record s {
    inputs = latest 500 (s.inputs ++ item ∷ []);
    last_activity_at = now;
  }

  unfoldable pub end : String → ℕ → Session I → Session I
  end reason now s = record s { status = completed; ended_at = some now; end_reason = some reason }

-- What the service keeps in its cache: sessions, and what became of an input.
pub data Cached (I D : Type 0) : Type 0 where
  a_session : Session I → Cached I D
  a_payload : D → Cached I D

module _ {I D : Type 0} (b : Backend (Cached I D)) where
  pub record SessionManager : Type 0 where
    pub sessions : Dict (Session I)
    pub cache : CacheManager b
    pub max_age : ℕ

  -- `_persist`: for `session_max_age_hours`, here `max_age` in seconds.
  unfoldable pub persist : Session I → ℕ → SessionManager → SessionManager
  persist s now m = record m {
    cache = cache_set b s.session_id (a_session s) "session" (some m.max_age) now m.cache;
  }

  unfoldable pub create_session : String → String → ℕ → SessionManager → SessionManager × Session I
  unfolding persist
  create_session id user now m =
      let s : Session I = record {
        session_id = id;
        user_id = user;
        status = active;
        inputs = [];
        created_at = now;
        last_activity_at = now;
        ended_at = none;
        end_reason = none;
      } in
      (persist s now (record m { sessions = insert id s m.sessions }), s)

  -- What `end_session` answers, or the `AttributeError` of a cached value that is no session.
  pub data Answer : Type 0 where
    returned : Bool → Answer
    attribute_error : Answer

  -- The end of a session, written to the cache for an hour.
  unfoldable pub finish : String → String → ℕ → Session I → SessionManager → SessionManager
  unfolding end
  finish id reason now s m = record m {
    cache = cache_set b id (a_session (end reason now s)) "session" (some 3600) now m.cache;
  }

  end_cached :
      String
      → String
      → ℕ
      → SessionManager
      → CacheManager b × Option (Cached I D)
      → SessionManager × Answer
  unfolding finish
  end_cached id reason now m (c, none) = (record m { cache = c }, returned false)
  end_cached id reason now m (c, some (a_payload d)) = (record m { cache = c }, attribute_error)
  end_cached id reason now m (c, some (a_session s)) =
      (finish id reason now s (record m { cache = c }), returned true)

  unfoldable pub end_session : String → String → ℕ → SessionManager → SessionManager × Answer
  unfolding finish end_cached
  end_session id reason now m = elim (lookup id m.sessions) [
    | some s ↦ (finish id reason now s (record m { sessions = erase id m.sessions }), returned true)
    | none ↦ end_cached id reason now m (cache_get b id "session" now m.cache)
  ]

  revive :
      String
      → SessionManager
      → CacheManager b × Option (Cached I D)
      → SessionManager × Option (Session I)
  revive id m (c, none) = (record m { cache = c }, none)
  revive id m (c, some (a_payload d)) = (record m { cache = c }, none)
  revive id m (c, some (a_session s)) =
      (record m { cache = c; sessions = insert id s m.sessions }, some s)

  unfoldable pub get_session : String → ℕ → SessionManager → SessionManager × Option (Session I)
  unfolding end_session revive is_expired
  get_session id now m = elim (lookup id m.sessions) [
    | some s ↦ if is_expired now s then ((end_session id "timeout" now m).0, none) else (m, some s)
    | none ↦ revive id m (cache_get b id "session" now m.cache)
  ]

  -- The session that `get_session` answers is the one in memory.
  unfoldable pub add_input : String → I → ℕ → SessionManager → SessionManager × Bool
  unfolding get_session add_item persist
  add_input id item now m =
      let (m', found) = get_session id now m in
      elim found [
        | none ↦ (m', false)
        | some s ↦
            let s' = add_item item now s in
            (persist s' now (record m' { sessions = insert id s' m'.sessions }), true)
      ]

  unfoldable pub list_user_sessions : String → Dict (Session I) → List (Session I)
  list_user_sessions user [] = []
  list_user_sessions user (e ∷ d) =
      let rest = list_user_sessions user d in if str_eq e.1.user_id user then e.1 ∷ rest else rest

  unfoldable pub active_count : SessionManager → ℕ
  active_count m = length m.sessions

  -- What a cleanup drops: expired, or not active within the greatest age.
  unfoldable pub is_stale : ℕ → ℕ → Session I → Bool
  unfolding is_expired
  is_stale max_age now s = is_expired now s || ltb (s.last_activity_at + max_age * 1000) now

  unfoldable pub stale_ids : ℕ → ℕ → Dict (Session I) → List String
  unfolding is_stale
  stale_ids max_age now [] = []
  stale_ids max_age now (e ∷ d) =
      let rest = stale_ids max_age now d in if is_stale max_age now e.1 then e.0 ∷ rest else rest

  unfoldable pub end_each : List String → ℕ → SessionManager → SessionManager
  unfolding end_session
  end_each [] now m = m
  end_each (id ∷ ids) now m = end_each ids now (end_session id "timeout" now m).0

  -- `_cleanup_once`
  unfoldable pub cleanup_once : ℕ → SessionManager → SessionManager × ℕ
  unfolding stale_ids end_each
  cleanup_once now m =
      let ids = stale_ids m.max_age now m.sessions in (end_each ids now m, length ids)
