-- ===== src/Tests/Inputs.antt =====
-- Inputs through the manager of managers/input_manager.py, over the in-memory cache of
-- cache/manager.py and a processor that counts its calls.
use haojie.Common.{
  ◌-◌, ℕ, ◌+◌, ◌*◌, ◌≡◌, ◌≤◌, ◌<◌, refl, arith, true, false, none, some, String, List, [], ◌∷◌,
  lookup, insert, str_eq_iff, get_or, Distinct, leb,
}
use haojie.Input.Limiter
use haojie.Input.Limiter.Window.{count_within, granted, granted-window}
use haojie.Input.Breaker
use haojie.Input.Breaker.Reopening.{fail_at, time_of_nth, allow-failures}
use haojie.Input.Store
use haojie.Input.Store.{memory_backend, CacheManager, Backend}
use haojie.Input.Store.Entries.{memory_backend-IsLawful}
use haojie.Input.Sessions.{Session, Cached, SessionManager, active, end, end_session, get_session}
use haojie.Input.Sessions.Ended.{get_session-end_session}
use haojie.Input.Manager.{
  text, InputRequest, InputItem, Payload, ProcessingResult, World, processed, Manager, ok, process,
  result_of,
}
use haojie.Input.Manager.Outcomes.{Accounts, process-Accounts}
use haojie.Input.Manager.Repeats.{IsAdmitted, process-repeated}

abbrev calls : List (String × ℕ)
calls = ("ann", 0) ∷ ("ann", 10) ∷ ("bob", 20) ∷ ("ann", 30) ∷ ("ann", 60) ∷ []

-- Of two calls in 60, the third is refused, and one is let through when the first is over.
limiter_test : (Limiter.run calls (Limiter.init 2 60)).1 ≡ true ∷ true ∷ true ∷ false ∷ true ∷ []
unfolding Limiter.run Limiter.init lookup insert
limiter_test = refl

granted-window_example :
    count_within 60 60 (granted "ann" calls (Limiter.run calls (Limiter.init 2 60)).1) ≤ 2
granted-window_example = granted-window "ann" 60 2 60 calls (omega arith) (omega arith)

allow-failures_example :
    Breaker.allow 40 (fail_at (5 ∷ 7 ∷ 39 ∷ []) (Breaker.init 2 30))
    ≡ elim (time_of_nth 2 (5 ∷ 7 ∷ 39 ∷ [])) [ none ↦ true | some at ↦ leb 30 (40 - at) ]
allow-failures_example = allow-failures 2 30 40 (5 ∷ 7 ∷ 39 ∷ []) (omega arith)

abbrev D : Type 0
D = ℕ

abbrev V : Type 0
V = Cached (InputItem D) (Payload D)

abbrev memory : Backend V
memory = memory_backend

abbrev ann : Session (InputItem D)
ann = record {
  session_id = "s1";
  user_id = "ann";
  status = active;
  inputs = [];
  created_at = 0;
  last_activity_at = 1000;
  ended_at = none;
  end_reason = none;
}

abbrev sessions : SessionManager {I = InputItem D} {D = Payload D} memory
sessions = record {
  sessions = ("s1", ann) ∷ [];
  cache = record {
    service_name = "svc";
    cache_ttl = 60;
    backend = some (record { store = []; max_size = 10 });
  };
  max_age = 86400;
}

distinct : Distinct sessions.sessions
unfolding lookup
distinct = (refl, tt)

present : lookup "s1" sessions.sessions ≡ some ann
unfolding lookup
present = refl

get_session-end_session_example :
    let m' = (end_session memory "s1" "user_end" 2000 sessions).0 in
    (lookup "s1" m'.sessions ≡ none)
    × ((get_session memory "s1" 3000 m').1 ≡ some (end "user_end" 2000 ann))
    × (lookup "s1" (get_session memory "s1" 3000 m').0.sessions ≡ some (end "user_end" 2000 ann))
get_session-end_session_example =
    get_session-end_session memory memory_backend-IsLawful sessions
      (record { store = []; max_size = 10 }) refl "s1" "user_end" 2000 3000 ann present distinct
      (omega arith)

abbrev world : World D
world = record {
  Data = String;
  State = ℕ;
  supported = λ t. true;
  is_bytes = λ d. false;
  check = λ t d. none;
  save = λ d s. (s, none);
  process = λ t d s. (s + 1, processed (record { result = s; warnings = []; summary = none }));
  hash_key = λ t d l. d;
}

abbrev request : InputRequest String
request = record {
  input_data = "hello";
  input_type = text;
  user_id = "ann";
  session_id = some "s1";
  config = record {
    validate = true;
    store_raw = false;
    cache_result = true;
    cache_ttl_seconds = none;
    language = none;
  };
  input_id = "i1";
}

abbrev manager : Manager world memory
manager = record {
  limiter = Limiter.init 5 60000;
  breakers = λ t. Breaker.init 5 30000;
  sessions = sessions;
  world = 7;
}

process-Accounts_example :
    Accounts world memory request 2000 manager
      (process world memory "s2" request 1500 2000 manager).0
      (process world memory "s2" request 1500 2000 manager).1
process-Accounts_example = process-Accounts world memory "s2" request 1500 2000 manager

abbrev first : ProcessingResult D
first = record {
  input_id = "i1";
  session_id = "s1";
  user_id = "ann";
  input_type = text;
  payload = record { result = 7; warnings = []; summary = none };
  cached = false;
  storage_key = none;
}

abbrev after_first : Manager world memory
after_first = (process world memory "s2" request 1500 2000 manager).0

first_result : process world memory "s2" request 1500 2000 manager ≡ (after_first, ok first)
unfolding process Limiter.init Breaker.init lookup insert Limiter.allow Breaker.allow
    Store.cache_get Store.get
first_result = refl

abbrev after_first_store : Store.InMemoryCache V
after_first_store = get_or after_first.sessions.cache.backend (record { store = []; max_size = 0 })

enabled : after_first.sessions.cache.backend ≡ some after_first_store
unfolding process Limiter.init Breaker.init lookup insert Limiter.allow Breaker.allow
    Store.cache_get Store.get Store.cache_set
enabled = refl

lasting : after_first.sessions.cache.cache_ttl ≡ 60
unfolding process Limiter.init Breaker.init lookup insert Limiter.allow Breaker.allow
    Store.cache_get Store.get Store.cache_set
lasting = refl

in_time :
    7000
    < 2000 + get_or request.config.cache_ttl_seconds after_first.sessions.cache.cache_ttl * 1000
in_time = omega (arith, lasting)

-- The same input from another caller, in the same session, five seconds later.
abbrev again : InputRequest String
again = record request { user_id = "bob"; input_id = "i2" }

again-IsAdmitted : IsAdmitted world memory again 7000 "s1" after_first
unfolding process Limiter.init Breaker.init lookup insert Limiter.allow Breaker.allow
    Store.cache_get Store.get Breaker.record_success
again-IsAdmitted = record {
  supported = refl;
  within_limit = refl;
  breaker_allows = refl;
  names = refl;
  named = (λ e. absurd (ground (arith, str_eq_iff "s1" "", e)));
  session = record ann {
    inputs =
        record {
          input_id = "i1";
          session_id = "s1";
          user_id = "ann";
          input_type = text;
          input_summary = "text";
          processed_data = 7;
          storage_key = none;
        }
        ∷ [];
    last_activity_at = 2000;
  };
  present = refl;
  own_id = refl;
  live = refl;
}

process-repeated_example :
    let (m'', result') = process world memory "s3" again 7000 8000 after_first in
    (result' ≡ ok (result_of world memory again "s1" true none first.payload))
    × (m''.world ≡ after_first.world)
process-repeated_example =
    process-repeated world memory "s2" "s3" request again 1500 2000 7000 8000 "s1" first manager
      after_first after_first_store memory_backend-IsLawful first_result enabled refl refl refl
      (refl, refl, refl) again-IsAdmitted in_time
