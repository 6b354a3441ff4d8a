-- ===== src/WebSocket/Broadcast.antt =====
-- How many connections a broadcast reaches (gateway/websocket/manager.py, `broadcast_to_room`).
use haojie.Common.{
  ℕ, ◌+◌, ◌≡◌, ◌⊎◌, refl, Bool, true, false, ◌&&◌, String, List, [], ◌∷◌, arith, if◌then◌else◌,
  str_eq, str_eq_iff, str_eq_refl, All, lookup, is_some, lookup-erase_ne, Bool-cases, Option-cases,
  inl, inr,
}
use haojie.WebSocket.{
  elem, Manager, disconnect, Sockets, send_to_connection, send_each, except, broadcast_to_room,
}
use haojie.WebSocket.Rooms.{members}
use haojie.WebSocket.Consistency.{IsConsistent, rooms_of, disconnect_present, disconnect_absent}

module _ (w : Sockets) where
  -- The connection is open and takes the message.
  abbrev pub receives : String → Bool
  receives id = w.is_open id && w.takes id

  unfoldable pub count : List String → ℕ
  count [] = 0
  count (id ∷ ids) = (if receives id then 1 else 0) + count ids

  -- It is known to the manager, or would not take the message anyway.
  abbrev Ready : Manager → String → Type 0
  Ready m id = (is_some (lookup id m.connections) ≡ true) ⊎ (receives id ≡ false)

  lookup-disconnect :
      (k id : String) (m : Manager)
      → (str_eq k id ≡ true) ⊎ (lookup id (disconnect k m).connections ≡ lookup id m.connections)
  lookup-disconnect k id m = elim (Bool-cases (str_eq k id)) [
    | inl same ↦ inl same
    | inr other ↦ elim (Option-cases (lookup k m.connections)) [
      | inl absent ↦ inr (rw (disconnect_absent k m absent) refl)
      | inr (c, held) ↦ inr (
          rw (disconnect_present k c m held)
            (lookup-erase_ne k id m.connections (λ e. ground (arith, (str_eq_iff k id).1 e))))
    ]
  ]

  send_cases :
      (k : String) (m : Manager)
      → ((send_to_connection w k m).0 ≡ m)
        ⊎ (((send_to_connection w k m).0 ≡ disconnect k m) × (receives k ≡ false))
  unfolding send_to_connection
  send_cases k m = ground arith

  -- Dropping one that does not take the message leaves the others ready.
  Ready-send : (k id : String) (m : Manager) → Ready m id → Ready (send_to_connection w k m).0 id
  Ready-send k id m r = elim (send_cases k m) [
    | inl unchanged ↦ rw unchanged r
    | inr (dropped, refuses) ↦ elim (lookup-disconnect k id m) [
      | inl same ↦ inr (rw ((str_eq_iff k id).0 same) at refuses)
      | inr others ↦ rw (dropped, others) r
    ]
  ]

  sent-Ready :
      (id : String) (m : Manager) → Ready m id → (send_to_connection w id m).1 ≡ receives id
  unfolding send_to_connection
  sent-Ready id m r = ground arith

  All-Ready-send :
      (k : String) (ids : List String) (m : Manager)
      → All (Ready m) ids
      → All (Ready (send_to_connection w k m).0) ids
  All-Ready-send k [] m r = tt
  All-Ready-send k (id ∷ ids) m r = (Ready-send k id m r.0, All-Ready-send k ids m r.1)

  send_each-count :
      (ids : List String) (m : Manager) → All (Ready m) ids → (send_each w ids m).1 ≡ count ids
  unfolding send_each count
  send_each-count [] m r = refl
  send_each-count (id ∷ ids) m r =
      let rest = send_each-count ids (send_to_connection w id m).0 (All-Ready-send id ids m r.1) in
      rw (rest, sent-Ready id m r.0) refl

  -- A member of a room is known to a consistent manager.
  member-Ready :
      (id room : String) (m : Manager)
      → IsConsistent m
      → elem id (members room m.rooms) ≡ true
      → Ready m id
  unfolding rooms_of
  member-Ready id room m v h = ground (arith, v.agree id room)

  members-Ready :
      (room : String) (exclude ids : List String) (m : Manager)
      → IsConsistent m
      → ((id : String) → elem id ids ≡ true → elem id (members room m.rooms) ≡ true)
      → All (Ready m) (except exclude ids)
  unfolding except
  members-Ready room exclude [] m v sub = tt
  members-Ready room exclude (id ∷ ids) m v sub =
      let rest = members-Ready room exclude ids m v (λ k h. sub k (ground arith)) in
      let first = member-Ready id room m v (sub id (ground (arith, str_eq_refl id))) in ground arith

  -- In a consistent manager a broadcast to a room reports just as many as there are members that
  -- are not excluded, are open and take the message, whichever of the others are dropped on the
  -- way.
  pub broadcast-count :
      (room : String) (exclude : List String) (m : Manager)
      → IsConsistent m
      → (broadcast_to_room w room exclude m).1 ≡ count (except exclude (members room m.rooms))
  unfolding broadcast_to_room
  broadcast-count room exclude m v =
      send_each-count (except exclude (members room m.rooms)) m
        (members-Ready room exclude (members room m.rooms) m v (λ id h. h))
