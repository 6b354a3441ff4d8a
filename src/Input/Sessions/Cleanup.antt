-- ===== src/Input/Sessions/Cleanup.antt =====
-- What a cleanup leaves in memory (managers/session_manager.py, `_cleanup_once`).
use haojie.Common.{
  ℕ, ◌≡◌, refl, ap, ◌∙◌, true, false, Option, none, some, String, List, [], ◌∷◌, arith, Dict,
  lookup, erase, Distinct, Distinct-erase, lookup-erase_self, lookup-erase_ne, str_eq, str_eq_iff,
  any, if◌then◌else◌, Bool-cases, Option-cases, inl, inr,
}
use haojie.Input.Store.{Backend, CacheManager, cache_get}
use haojie.Input.Sessions.{
  Session, Cached, a_session, a_payload, SessionManager, end_session, end_cached, finish, returned,
  is_stale, stale_ids, end_each, cleanup_once,
}

lookup-erase {ℓ} :
    {V : Type ℓ} (k j : String) (d : Dict V)
    → Distinct d
    → lookup j (erase k d) ≡ (if str_eq k j then none else lookup j d)
lookup-erase k j d h = elim (Bool-cases (str_eq k j)) [
  | inl same ↦
      let e : k ≡ j = (str_eq_iff k j).0 same in
      rw same (ap (λ i. lookup j (erase i d)) e ∙ lookup-erase_self j d h)
  | inr other ↦
      rw other (lookup-erase_ne k j d (λ e. absurd (ground (arith, str_eq_iff k j, e, other))))
]

module _ {I D : Type 0} (b : Backend (Cached I D)) where
  end_cached-sessions :
      (id reason : String) (now : ℕ) (m : SessionManager b)
      (answer : CacheManager b × Option (Cached I D))
      → ((end_cached b id reason now m answer).0.sessions ≡ m.sessions)
        × ((end_cached b id reason now m answer).0.max_age ≡ m.max_age)
  unfolding end_cached finish
  end_cached-sessions id reason now m (c, none) = (refl, refl)
  end_cached-sessions id reason now m (c, some (a_session s)) = (refl, refl)
  end_cached-sessions id reason now m (c, some (a_payload d)) = (refl, refl)

  pub end_session_present :
      (id reason : String) (now : ℕ) (m : SessionManager b) (s : Session I)
      → lookup id m.sessions ≡ some s
      → end_session b id reason now m
        ≡ (finish b id reason now s (record m { sessions = erase id m.sessions }), returned true)
  unfolding end_session
  end_session_present id reason now m s h = ground (arith, h)

  end_session_absent :
      (id reason : String) (now : ℕ) (m : SessionManager b)
      → lookup id m.sessions ≡ none
      → end_session b id reason now m
        ≡ end_cached b id reason now m (cache_get b id "session" now m.cache)
  unfolding end_session
  end_session_absent id reason now m h = ground (arith, h)

  -- An end takes the session out of memory, and no other.
  end_session-sessions :
      (id reason j : String) (now : ℕ) (m : SessionManager b)
      → Distinct m.sessions
      → let m' = (end_session b id reason now m).0 in
        (lookup j m'.sessions ≡ (if str_eq id j then none else lookup j m.sessions))
        × Distinct m'.sessions
        × (m'.max_age ≡ m.max_age)
  unfolding finish
  end_session-sessions id reason j now m h = elim (Option-cases (lookup id m.sessions)) [
    | inl absent ↦
        let (same, age) =
          end_cached-sessions id reason now m (cache_get b id "session" now m.cache) in
        let gone : lookup j m.sessions ≡ (if str_eq id j then none else lookup j m.sessions) =
          ground (arith, str_eq_iff id j, absent, ap (λ i. lookup i m.sessions)) in
        rw (end_session_absent id reason now m absent, same, age) (gone, h, refl)
    | inr (s, present) ↦
        rw (end_session_present id reason now m s present)
          (lookup-erase id j m.sessions h, Distinct-erase id m.sessions h, refl)
  ]

  end_each-sessions :
      (ids : List String) (j : String) (now : ℕ) (m : SessionManager b)
      → Distinct m.sessions
      → lookup j (end_each b ids now m).sessions
        ≡ (if any (λ i. str_eq i j) ids then none else lookup j m.sessions)
  unfolding end_each
  end_each-sessions [] j now m h = refl
  end_each-sessions (id ∷ ids) j now m h =
      let (here, distinct, age) = end_session-sessions id "timeout" j now m h in
      ground
        (arith, here, end_each-sessions ids j now (end_session b id "timeout" now m).0 distinct)

  stale_ids-lookup :
      (max_age now : ℕ) (j : String) (d : Dict (Session I))
      → Distinct d
      → any (λ i. str_eq i j) (stale_ids b max_age now d)
        ≡ elim (lookup j d) [ none ↦ false | some s ↦ is_stale b max_age now s ]
  unfolding stale_ids lookup
  stale_ids-lookup max_age now j [] h = refl
  stale_ids-lookup max_age now j ((k, s) ∷ d) h =
      ground
        (arith, stale_ids-lookup max_age now j d h.1, str_eq_iff k j, ap (λ i. lookup i d), h.0)

  -- A cleanup takes just the stale sessions out of memory, those that are expired or older than
  -- the maximal age, and leaves the others as they are.
  pub cleanup-lookup :
      (id : String) (now : ℕ) (m : SessionManager b)
      → Distinct m.sessions
      → lookup id (cleanup_once b now m).0.sessions ≡ elim (lookup id m.sessions) [
        | none ↦ none
        | some s ↦ if is_stale b m.max_age now s then none else some s
      ]
  unfolding cleanup_once
  cleanup-lookup id now m h =
      let ids = stale_ids b m.max_age now m.sessions in
      ground
        (arith, end_each-sessions ids id now m h, stale_ids-lookup m.max_age now id m.sessions h)
