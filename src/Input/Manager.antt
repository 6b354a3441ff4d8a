-- ===== src/Input/Manager.antt =====
-- The input manager (managers/input_manager.py, `MultiModalInputManager.process`): the limiter, the
-- breaker of the type of input, the session, the cache, and the processor.
--
-- The processors, the object storage and the hash are a parameter, with a state that is threaded
-- through. The two clocks of the source are one: `start` is the time up to the call of the processor
-- and `done` the time from its return on. Metrics and log lines are left out.
pub mod Outcomes
pub mod Repeats
use haojie.Common.{
  ℕ, Bool, true, false, ◌&&◌, not, Option, none, some, String, List, [], ◌∷◌, append, if◌then◌else◌,
  str_eq, get_or,
}
use haojie.Input.Limiter
use haojie.Input.Limiter.{AsyncRateLimiter}
use haojie.Input.Breaker
use haojie.Input.Breaker.{CircuitBreaker}
use haojie.Input.Store.{Backend, CacheManager, cache_get, cache_set}
use haojie.Input.Sessions.{
  Session, Cached, a_session, a_payload, SessionManager, get_session, create_session, add_input,
}

pub data InputType : Type 0 where
  text image link voice : InputType

abbrev pub value_of : InputType → String
value_of text = "text"
value_of image = "image"
value_of link = "link"
value_of voice = "voice"

abbrev pub same_type : InputType → InputType → Bool
same_type text text = true
same_type image image = true
same_type link link = true
same_type voice voice = true
same_type _ _ = false

pub record ProcessingConfig : Type 0 where
  pub validate : Bool
  pub store_raw : Bool
  pub cache_result : Bool
  pub cache_ttl_seconds : Option ℕ
  pub language : Option String

pub record InputRequest (Data : Type 0) : Type 0 where
  pub input_data : Data
  pub input_type : InputType
  pub user_id : String
  pub session_id : Option String
  pub config : ProcessingConfig
  pub input_id : String

-- What a processor makes of an input, and what is cached of it.
pub record Payload (D : Type 0) : Type 0 where
  pub result : D
  pub warnings : List String
  pub summary : Option String

pub record InputItem (D : Type 0) : Type 0 where
  pub input_id : String
  pub session_id : String
  pub user_id : String
  pub input_type : InputType
  pub input_summary : String
  pub processed_data : D
  pub storage_key : Option String

pub record ProcessingResult (D : Type 0) : Type 0 where
  pub input_id : String
  pub session_id : String
  pub user_id : String
  pub input_type : InputType
  pub payload : Payload D
  pub cached : Bool
  pub storage_key : Option String

-- What goes wrong from the validation on: an input that is refused, the timeout, an error of the
-- program, and any other.
pub data Failure : Type 0 where
  invalid timed_out processor_error crashed : Failure

pub data Raised : Type 0 where
  unsupported_format rate_limit_exceeded circuit_open attribute_error : Raised
  failed : Failure → Raised

pub data Result {ℓ} (A : Type ℓ) : Type ℓ where
  ok : A → Result A
  raise : Raised → Result A

pub data Processed (D : Type 0) : Type 0 where
  processed : Payload D → Processed D
  broke : Failure → Processed D

-- Processors, storage and hash. A storage that fails answers `none`.
pub record World (D : Type 0) : Type 1 where
  pub Data : Type 0
  pub State : Type 0
  pub supported : InputType → Bool
  pub is_bytes : Data → Bool
  pub check : InputType → Data → Option Failure
  pub save : Data → State → State × Option String
  pub process : InputType → Data → State → State × Processed D
  pub hash_key : InputType → Data → Option String → String

-- `result.summary or input_type.value`
abbrev summary_of : Option String → String → String
summary_of none v = v
summary_of (some s) v = if str_eq s "" then v else s

module _ {D : Type 0} (W : World D) (b : Backend (Cached (InputItem D) (Payload D))) where
  open W use {Data, State, supported, is_bytes, check, save, hash_key}

  abbrev pub Sessions : Type 0
  Sessions = SessionManager {I = InputItem D} {D = Payload D} b

  pub record Manager : Type 0 where
    pub limiter : AsyncRateLimiter
    pub breakers : InputType → CircuitBreaker
    pub sessions : Sessions
    pub world : State

  -- `self._breakers[t]` is changed in place.
  unfoldable pub set_breaker : InputType → CircuitBreaker → Manager → Manager
  set_breaker t c m = record m { breakers = λ u. if same_type t u then c else m.breakers u }

  abbrev pub namespace_of : InputRequest Data → String
  namespace_of r = append "input:" (value_of r.input_type)

  abbrev pub key_of : InputRequest Data → String
  key_of r = hash_key r.input_type r.input_data r.config.language

  -- The session of the request, or a new one.
  pub or_create :
      String → InputRequest Data → ℕ → Sessions × Option (Session (InputItem D)) → Sessions × String
  unfolding create_session
  or_create fresh r start (s, some session) = (s, session.session_id)
  or_create fresh r start (s, none) =
      let (s', session) = create_session b fresh r.user_id start s in (s', session.session_id)

  unfoldable pub ensure_session : String → InputRequest Data → ℕ → Sessions → Sessions × String
  unfolding or_create
  ensure_session fresh r start s = elim r.session_id [
    | none ↦ or_create fresh r start (s, none)
    | some id ↦
        if str_eq id ""
        then or_create fresh r start (s, none)
        else or_create fresh r start (get_session b id start s)
  ]

  -- `processor.validate`, if it is asked for.
  unfoldable pub validated : InputRequest Data → Option Failure
  validated r = if r.config.validate then check r.input_type r.input_data else none

  unfoldable pub stored : InputRequest Data → State → State × Option String
  stored r w =
      if r.config.store_raw && is_bytes r.input_data then save r.input_data w else (w, none)

  -- Validate, store and process.
  unfoldable pub attempt : InputRequest Data → State → State × Option String × Processed D
  unfolding validated stored
  attempt r w = elim (validated r) [
    | some f ↦ (w, none, broke f)
    | none ↦
        let (w', key) = stored r w in
        let (w'', p) = W.process r.input_type r.input_data w' in (w'', key, p)
  ]

  -- What a failure does to the breaker.
  unfoldable pub after_failure : Failure → ℕ → CircuitBreaker → CircuitBreaker
  after_failure invalid done c = c
  after_failure timed_out done c = Breaker.record_failure done c
  after_failure processor_error done c = Breaker.record_failure done c
  after_failure crashed done c = Breaker.record_failure done c

  item_of : InputRequest Data → String → Option String → Payload D → InputItem D
  item_of r id key p = record {
    input_id = r.input_id;
    session_id = id;
    user_id = r.user_id;
    input_type = r.input_type;
    input_summary = summary_of p.summary (value_of r.input_type);
    processed_data = p.result;
    storage_key = key;
  }

  unfoldable pub result_of :
      InputRequest Data → String → Bool → Option String → Payload D → ProcessingResult D
  result_of r id cached key p = record {
    input_id = r.input_id;
    session_id = id;
    user_id = r.user_id;
    input_type = r.input_type;
    payload = p;
    cached = cached;
    storage_key = key;
  }

  unfoldable pub remember : InputRequest Data → Payload D → ℕ → Sessions → Sessions
  remember r p done s =
      if r.config.cache_result
      then record s {
        cache =
            cache_set b (key_of r) (a_payload p) (namespace_of r) r.config.cache_ttl_seconds done
              s.cache;
      }
      else s

  -- What comes after the processor: the breaker, and on success the session and the cache.
  unfoldable pub settle :
      InputRequest Data
      → String
      → ℕ
      → State × Option String × Processed D
      → Manager
      → Manager × Result (ProcessingResult D)
  unfolding set_breaker after_failure item_of result_of remember add_input
  settle r id done (w, key, broke f) m = (
    record (set_breaker r.input_type (after_failure f done (m.breakers r.input_type)) m) {
      world = w;
    },
    raise (failed f),
  )
  settle r id done (w, key, processed p) m =
      let added = (add_input b id (item_of r id key p) done m.sessions).0 in
      (
        record (set_breaker r.input_type (Breaker.record_success (m.breakers r.input_type)) m) {
          world = w;
          sessions = remember r p done added;
        },
        ok (result_of r id false key p),
      )

  -- The reply of the cache, if it was asked.
  unfoldable pub answer :
      InputRequest Data
      → String
      → ℕ
      → CacheManager b × Option (Cached (InputItem D) (Payload D))
      → Manager
      → Manager × Result (ProcessingResult D)
  unfolding settle attempt result_of
  answer r id done (c, some (a_payload p)) m =
      (record m { sessions = record m.sessions { cache = c } }, ok (result_of r id true none p))
  answer r id done (c, some (a_session s)) m =
      (record m { sessions = record m.sessions { cache = c } }, raise attribute_error)
  answer r id done (c, none) m =
      settle r id done (attempt r m.world) (record m { sessions = record m.sessions { cache = c } })

  unfoldable pub admitted :
      String → InputRequest Data → ℕ → ℕ → Manager → Manager × Result (ProcessingResult D)
  unfolding ensure_session answer settle attempt
  admitted fresh r start done m =
      let (s, id) = ensure_session fresh r start m.sessions in
      let m' : Manager = record m { sessions = s } in
      if r.config.cache_result
      then answer r id done (cache_get b (key_of r) (namespace_of r) start s.cache) m'
      else settle r id done (attempt r m'.world) m'

  -- `process`
  unfoldable pub process :
      String → InputRequest Data → ℕ → ℕ → Manager → Manager × Result (ProcessingResult D)
  unfolding admitted
  process fresh r start done m =
      if not (supported r.input_type)
      then (m, raise unsupported_format)
      else let (l, allowed) = Limiter.allow r.user_id start m.limiter in
        let m' : Manager = record m { limiter = l } in
        if not allowed
        then (m', raise rate_limit_exceeded)
        else if not (Breaker.allow start (m.breakers r.input_type))
        then (m', raise circuit_open)
        else admitted fresh r start done m'
