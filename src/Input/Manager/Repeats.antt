-- ===== src/Input/Manager/Repeats.antt =====
-- An input that is sent again is answered from the cache (managers/input_manager.py).
use mathlib.Core.Path.{subst}
use haojie.Input.Store.Hits.{cache_get-cache_set, cache_set-cache_ttl}
use haojie.Input.Manager.Outcomes.{is_untouched, process-Accounts}
use haojie.Common.{
  ℕ, ◌+◌, ◌*◌, ◌<◌, ◌≡◌, ◌≢◌, refl, sym, ap, ◌∙◌, true, false, not, Option, none, some, String,
  arith, if◌then◌else◌, if_both, if_each, get_or, append, lookup, str_eq_iff,
}
use haojie.Input.Limiter
use haojie.Input.Breaker
use haojie.Input.Store.{Backend, IsLawful, CacheManager, cache_get, cache_set}
use haojie.Input.Sessions.{
  Session, Cached, a_session, a_payload, get_session, is_expired, SessionManager,
}
use haojie.Input.Manager.{
  InputRequest, InputItem, Payload, ProcessingResult, Result, ok, raise, Processed, processed,
  broke, World, Manager, value_of, key_of, namespace_of, attempt, ensure_session, or_create, settle,
  answer, admitted, process, remember, result_of,
}

module _ {D : Type 0} (W : World D) (b : Backend (Cached (InputItem D) (Payload D))) where
  abbrev Sessions : Type 0
  Sessions = SessionManager {I = InputItem D} {D = Payload D} b

  -- The last write to the cache is of the result.
  abbrev IsCached : InputRequest W.Data → ℕ → Payload D → CacheManager b → Type 0
  IsCached r done p cache =
      (c : CacheManager b) × (cache
        ≡ cache_set b (key_of W b r) (a_payload p) (namespace_of W b r) r.config.cache_ttl_seconds
            done c)

  abbrev Remembers : InputRequest W.Data → ℕ → Manager W b → Result (ProcessingResult D) → Type 0
  Remembers r done m' (raise e) = Unit
  Remembers r done m' (ok result) =
      r.config.cache_result ≡ true
      → result.cached ≡ false
      → IsCached r done result.payload m'.sessions.cache

  remember-IsCached :
      (r : InputRequest W.Data) (p : Payload D) (done : ℕ) (s : Sessions)
      → r.config.cache_result ≡ true
      → IsCached r done p (remember W b r p done s).cache
  unfolding remember
  remember-IsCached r p done s h =
      if_each (λ (x : Sessions). IsCached r done p x.cache) r.config.cache_result
        (record s {
          cache =
              cache_set b (key_of W b r) (a_payload p) (namespace_of W b r)
                r.config.cache_ttl_seconds done s.cache;
        })
        s (λ e. (s.cache, refl)) (λ e. absurd (ground (arith, h, e)))

  settle-Remembers :
      (r : InputRequest W.Data) (id : String) (done : ℕ) (w : W.State × Option String × Processed D)
      (m : Manager W b)
      → let (m', result) = settle W b r id done w m in Remembers r done m' result
  unfolding settle
  settle-Remembers r id done (w, key, broke f) m = tt
  settle-Remembers r id done (w, key, processed p) m = λ h fresh. remember-IsCached r p done _ h

  answer-Remembers :
      (r : InputRequest W.Data) (id : String) (done : ℕ)
      (reply : CacheManager b × Option (Cached (InputItem D) (Payload D))) (m : Manager W b)
      → let (m', result) = answer W b r id done reply m in Remembers r done m' result
  unfolding answer
  answer-Remembers r id done (c, some (a_payload p)) m = λ h fresh. absurd (ground (arith, fresh))
  answer-Remembers r id done (c, some (a_session s)) m = tt
  answer-Remembers r id done (c, none) m = settle-Remembers r id done (attempt W b r m.world) _

  pub process-Remembers :
      (fresh : String) (r : InputRequest W.Data) (start done : ℕ) (m : Manager W b)
      → let (m', result) = process W b fresh r start done m in Remembers r done m' result
  unfolding process admitted
  process-Remembers fresh r start done m =
      let (l, allowed) = Limiter.allow r.user_id start m.limiter in
      let (s, id) = ensure_session W b fresh r start m.sessions in
      let m' : Manager W b = record m { limiter = l; sessions = s } in
      let P = λ (x : Manager W b × Result (ProcessingResult D)). Remembers r done x.0 x.1 in
      if_both P (not (W.supported r.input_type)) _ _ tt (
        if_both P (not allowed) _ _ tt (
          if_both P (not (Breaker.allow start (m.breakers r.input_type))) _ _ tt (
            if_both P r.config.cache_result _ _
              (answer-Remembers r id done
                (cache_get b (key_of W b r) (namespace_of W b r) start s.cache) m')
              (settle-Remembers r id done (attempt W b r m.world) m'))))

  answer-hit :
      (r : InputRequest W.Data) (id : String) (done : ℕ) (p : Payload D) (m : Manager W b)
      (reply : CacheManager b × Option (Cached (InputItem D) (Payload D)))
      → reply.1 ≡ some (a_payload p)
      → (answer W b r id done reply m).1 ≡ ok (result_of W b r id true none p)
  unfolding answer
  answer-hit r id done p m (c, some (a_payload q)) h =
      ap (λ x. ok (result_of W b r id true none x)) (ground (arith, h))
  answer-hit r id done p m (c, some (a_session s)) h = absurd (ground (arith, h))
  answer-hit r id done p m (c, none) h = absurd (ground (arith, h))

  -- A request that the guards admit, in a session that is in memory and live.
  pub record IsAdmitted (r : InputRequest W.Data) (start : ℕ) (id : String) (m : Manager W b)
      : Type 0 where
    pub supported : W.supported r.input_type ≡ true
    pub within_limit : (Limiter.allow r.user_id start m.limiter).1 ≡ true
    pub breaker_allows : Breaker.allow start (m.breakers r.input_type) ≡ true
    pub names : r.session_id ≡ some id
    pub named : id ≢ ""
    pub session : Session (InputItem D)
    pub present : lookup id m.sessions.sessions ≡ some session
    pub own_id : session.session_id ≡ id
    pub live : is_expired start session ≡ false

  ensure_session-present :
      (fresh : String) (r : InputRequest W.Data) (start : ℕ) (id : String) (m : Manager W b)
      → IsAdmitted r start id m
      → ensure_session W b fresh r start m.sessions ≡ (m.sessions, id)
  unfolding ensure_session get_session or_create
  ensure_session-present fresh r start id m h =
      ground (arith, h.names, h.present, h.own_id, h.live, str_eq_iff id "", h.named)

  admitted-hit :
      (fresh : String) (r : InputRequest W.Data) (start done : ℕ) (id : String) (p : Payload D)
      (m : Manager W b)
      → ensure_session W b fresh r start m.sessions ≡ (m.sessions, id)
      → r.config.cache_result ≡ true
      → (cache_get b (key_of W b r) (namespace_of W b r) start m.sessions.cache).1
        ≡ some (a_payload p)
      → (admitted W b fresh r start done m).1 ≡ ok (result_of W b r id true none p)
  unfolding admitted
  admitted-hit fresh r start done id p m e asks hit =
      let go = λ (x : Sessions × String).
        if r.config.cache_result
        then answer W b r x.1 done (cache_get b (key_of W b r) (namespace_of W b r) start x.0.cache)
            (record m { sessions = x.0 })
        else settle W b r x.1 done (attempt W b r m.world) (record m { sessions = x.0 }) in
      let reply = cache_get b (key_of W b r) (namespace_of W b r) start m.sessions.cache in
      ap (λ x. (go x).1) e
      ∙ if_each
          (λ (x : Manager W b × Result (ProcessingResult D)).
            x.1 ≡ ok (result_of W b r id true none p))
          r.config.cache_result (answer W b r id done reply m)
          (settle W b r id done (attempt W b r m.world) m) (λ h. answer-hit r id done p m reply hit)
          (λ h. absurd (ground (arith, asks, h)))

  process-admitted :
      (fresh : String) (r : InputRequest W.Data) (start done : ℕ) (id : String) (m : Manager W b)
      → IsAdmitted r start id m
      → process W b fresh r start done m
        ≡ admitted W b fresh r start done
            (record m { limiter = (Limiter.allow r.user_id start m.limiter).0 })
  unfolding process
  process-admitted fresh r start done id m h =
      ground (arith, h.supported, h.within_limit, h.breaker_allows)

  cached-hit :
      (r r' : InputRequest W.Data) (done start' : ℕ) (p : Payload D) (cache c : CacheManager b)
      (store : b.State)
      → IsLawful b
      → cache
        ≡ cache_set b
            (key_of W b r)
            (a_payload p)
            (namespace_of W b r)
            r.config.cache_ttl_seconds
            done
            c
      → cache.backend ≡ some store
      → (r'.input_type ≡ r.input_type)
        × (r'.input_data ≡ r.input_data)
        × (r'.config.language ≡ r.config.language)
      → start' < done + get_or r.config.cache_ttl_seconds cache.cache_ttl * 1000
      → (cache_get b (key_of W b r') (namespace_of W b r') start' cache).1 ≡ some (a_payload p)
  cached-hit r r' done start' p cache c store law q enabled (t, d, l) lt =
      let key = key_of W b r in
      let namespace = namespace_of W b r in
      let ttl = r.config.cache_ttl_seconds in
      let same_ttl : cache.cache_ttl ≡ c.cache_ttl =
        ap (λ (x : CacheManager b). x.cache_ttl) q
        ∙ cache_set-cache_ttl b key namespace (a_payload p) ttl done c in
      ap
        (λ x.
          (cache_get b (W.hash_key x r'.input_data r'.config.language)
            (append "input:" (value_of x)) start' cache).1)
        t
      ∙ ap
          (λ x.
            (cache_get b (W.hash_key r.input_type x r'.config.language) namespace start' cache).1)
          d
      ∙ ap (λ x. (cache_get b (W.hash_key r.input_type r.input_data x) namespace start' cache).1) l
      ∙ ap (λ x. (cache_get b key namespace start' x).1) q
      ∙ cache_get-cache_set b key namespace (a_payload p) ttl done start' c store law
          (sym (ap (λ (x : CacheManager b). x.backend) q) ∙ enabled) (rw (← same_ttl) lt)

  -- With a lawful cache that is enabled: a new result that was asked to be cached is what a later
  -- request with the same type, input and language gets, if it asks the cache, is admitted into a
  -- session and comes before the lifetime ends. The processors and the storage are then left
  -- alone.
  pub process-repeated :
      (fresh fresh' : String) (r r' : InputRequest W.Data) (start done start' done' : ℕ)
      (id : String) (result : ProcessingResult D) (m m' : Manager W b) (store : b.State)
      → IsLawful b
      → process W b fresh r start done m ≡ (m', ok result)
      → m'.sessions.cache.backend ≡ some store
      → r.config.cache_result ≡ true
      → result.cached ≡ false
      → r'.config.cache_result ≡ true
      → (r'.input_type ≡ r.input_type)
        × (r'.input_data ≡ r.input_data)
        × (r'.config.language ≡ r.config.language)
      → IsAdmitted r' start' id m'
      → start' < done + get_or r.config.cache_ttl_seconds m'.sessions.cache.cache_ttl * 1000
      → let (m'', result') = process W b fresh' r' start' done' m' in
        (result' ≡ ok (result_of W b r' id true none result.payload)) × (m''.world ≡ m'.world)
  unfolding result_of
  process-repeated fresh fresh' r r' start done start' done' id result m m' store law first enabled
        asked new asks same admits lt =
      let remembers : Remembers r done m' (ok result) =
        subst (λ x. Remembers r done x.0 x.1) first (process-Remembers fresh r start done m) in
      let (c, q) = remembers asked new in
      let l = (Limiter.allow r'.user_id start' m'.limiter).0 in
      let hit : (cache_get b (key_of W b r') (namespace_of W b r') start' m'.sessions.cache).1
          ≡ some (a_payload result.payload) =
        cached-hit r r' done start' result.payload m'.sessions.cache c store law q enabled same
          lt in
      let m1 : Manager W b = record m' { limiter = l } in
      let answered =
        ap (λ (x : Manager W b × Result (ProcessingResult D)). x.1)
          (process-admitted fresh' r' start' done' id m' admits)
        ∙ admitted-hit fresh' r' start' done' id result.payload m1
            (ensure_session-present fresh' r' start' id m' admits) asks hit in
      let accounts = process-Accounts W b fresh' r' start' done' m' in
      (answered, accounts.idle (ap (is_untouched W b) answered))
