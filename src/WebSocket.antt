-- ===== src/WebSocket.antt =====
-- The manager of websocket connections and rooms (gateway/websocket/manager.py, WebSocketManager).
--
-- A Python set is a list without repetitions. Each step is one stretch under the lock; what a socket
-- does outside is an argument: whether it is open, and whether it takes a message. The id of a new
-- connection is an argument, since it is drawn at random. Times, metadata, metrics and log lines are
-- left out.
pub mod Rooms
pub mod Consistency
pub mod Broadcast
use haojie.Common.{
  ℕ, suc, ◌+◌, Bool, true, false, ◌&&◌, not, Option, none, some, String, List, [], ◌∷◌, ◌++◌, leb,
  if◌then◌else◌, str_eq, any, Dict, lookup, insert, erase, length, map, get_or,
}

abbrev pub elem : String → List String → Bool
elem x = any (λ y. str_eq y x)

unfoldable pub add : String → List String → List String
add x s = if elem x s then s else s ++ x ∷ []

unfoldable pub discard : String → List String → List String
discard x [] = []
discard x (y ∷ s) = let rest = discard x s in if str_eq y x then rest else y ∷ rest

pub record Connection : Type 0 where
  pub user_id : String
  pub rooms : List String

pub record Manager : Type 0 where
  pub max : ℕ
  pub connections : Dict Connection
  pub rooms : Dict (List String)

-- `none` is the `RuntimeError` of a manager at its capacity.
unfoldable pub connect : String → String → Manager → Option Manager
connect id user m =
    if leb m.max (length m.connections)
    then none
    else some
        (record m { connections = insert id (record { user_id = user; rooms = [] }) m.connections })

-- A member less, and the room with it if it was the last.
unfoldable pub leave_one : String → String → Dict (List String) → Dict (List String)
leave_one id room rooms = elim (lookup room rooms) [
  | none ↦ rooms
  | some members ↦ elim (discard id members) [
    | [] ↦ erase room rooms
    | x ∷ xs ↦ insert room (x ∷ xs) rooms
  ]
]

unfoldable pub leave_each : String → List String → Dict (List String) → Dict (List String)
leave_each id [] rooms = rooms
leave_each id (r ∷ rs) rooms = leave_each id rs (leave_one id r rooms)

unfoldable pub disconnect : String → Manager → Manager
unfolding leave_each
disconnect id m = elim (lookup id m.connections) [
  | none ↦ m
  | some c ↦ record m {
    connections = erase id m.connections;
    rooms = leave_each id c.rooms m.rooms;
  }
]

unfoldable pub join_room : String → String → Manager → Manager × Bool
unfolding add
join_room id room m = elim (lookup id m.connections) [
  | none ↦ (m, false)
  | some c ↦ (
    record m {
      connections = insert id (record c { rooms = add room c.rooms }) m.connections;
      rooms = insert room (add id (get_or (lookup room m.rooms) [])) m.rooms;
    },
    true,
  )
]

unfoldable pub leave_room : String → String → Manager → Manager × Bool
unfolding discard leave_one
leave_room id room m = elim (lookup id m.connections) [
  | none ↦ (m, false)
  | some c ↦ (
    record m {
      connections = insert id (record c { rooms = discard room c.rooms }) m.connections;
      rooms = leave_one id room m.rooms;
    },
    true,
  )
]

-- What the sockets do when they are written to.
pub record Sockets : Type 0 where
  pub is_open : String → Bool
  pub takes : String → Bool

-- A connection that is open and does not take the message is dropped.
unfoldable pub send_to_connection : Sockets → String → Manager → Manager × Bool
unfolding disconnect
send_to_connection w id m = elim (lookup id m.connections) [
  | none ↦ (m, false)
  | some c ↦
      if not (w.is_open id)
      then (m, false)
      else if w.takes id
      then (m, true)
      else (disconnect id m, false)
]

-- The sends of a broadcast, to the targets found at its start: how many have arrived.
unfoldable pub send_each : Sockets → List String → Manager → Manager × ℕ
unfolding send_to_connection
send_each w [] m = (m, 0)
send_each w (id ∷ ids) m =
    let (m', arrived) = send_to_connection w id m in
    let (m'', n) = send_each w ids m' in (m'', (if arrived then 1 else 0) + n)

unfoldable pub except : List String → List String → List String
except exclude [] = []
except exclude (id ∷ ids) =
    let rest = except exclude ids in if elem id exclude then rest else id ∷ rest

unfoldable pub broadcast_to_room : Sockets → String → List String → Manager → Manager × ℕ
unfolding send_each except
broadcast_to_room w room exclude m =
    send_each w (except exclude (get_or (lookup room m.rooms) [])) m

of_user : String → Dict Connection → List String
of_user user [] = []
of_user user ((id, c) ∷ d) =
    let rest = of_user user d in if str_eq c.user_id user then id ∷ rest else rest

unfoldable pub broadcast_to_user : Sockets → String → Manager → Manager × ℕ
unfolding send_each of_user
broadcast_to_user w user m = send_each w (of_user user m.connections) m

unfoldable pub disconnect_each : List String → Manager → Manager
unfolding disconnect
disconnect_each [] m = m
disconnect_each (id ∷ ids) m = disconnect_each ids (disconnect id m)

unfoldable pub close_all : Manager → Manager
unfolding disconnect_each
close_all m = disconnect_each (map (λ (e : String × Connection). e.0) m.connections) m
