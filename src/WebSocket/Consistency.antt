-- ===== src/WebSocket/Consistency.antt =====
-- What holds between the connections and the rooms of gateway/websocket/manager.py.
use haojie.Common.{
  ℕ, ◌+◌, ◌≤◌, ◌<◌, ◌≡◌, ◌⊎◌, refl, true, false, none, some, String, List, [], ◌∷◌, arith,
  if◌then◌else◌, str_eq, str_eq_iff, Dict, lookup, insert, erase, Distinct, length, lookup-insert,
  lookup-erase_ne, lookup-erase_self, Distinct-erase, Bool-cases, Option-cases, inl, inr,
}
use haojie.WebSocket.{
  elem, add, discard, Connection, Manager, connect, leave_one, leave_each, disconnect, join_room,
  leave_room, Sockets, send_to_connection,
}
use haojie.WebSocket.Rooms.{
  members, IsTidy, elem-add, elem-discard, elem-leave_one, elem-leave_each, leave_one-IsTidy,
  leave_each-IsTidy, insert-add-IsTidy, elem-members-insert-add, Distinct-insert,
}

-- The rooms that a connection says it is in, none if there is no such connection.
unfoldable pub rooms_of : String → Dict Connection → List String
rooms_of id d = elim (lookup id d) [ none ↦ [] | some c ↦ c.rooms ]

-- A connection and a room agree on whether it is a member; no room is empty; nothing stands twice;
-- and there are at most `max` connections.
pub record IsConsistent (m : Manager) : Type 0 where
  pub bounded : length m.connections ≤ m.max
  pub distinct : Distinct m.connections
  pub tidy : IsTidy m.rooms
  pub agree : (id r : String) → elem id (members r m.rooms) ≡ elem r (rooms_of id m.connections)

length-insert-le :
    (k : String) (c : Connection) (d : Dict Connection) → length (insert k c d) ≤ length d + 1
unfolding insert
length-insert-le k c [] = omega arith
length-insert-le k c (e ∷ d) = ground (arith, length-insert-le k c d)

length-insert_present :
    (k : String) (c b : Connection) (d : Dict Connection)
    → lookup k d ≡ some b
    → length (insert k c d) ≡ length d
unfolding insert lookup
length-insert_present k c b [] h = cc
length-insert_present k c b (e ∷ d) h = ground (arith, length-insert_present k c b d)

length-erase-le : (k : String) (d : Dict Connection) → length (erase k d) ≤ length d
unfolding erase
length-erase-le k [] = omega arith
length-erase-le k (e ∷ d) = ground (arith, length-erase-le k d)

rooms_of-insert :
    (k id : String) (c : Connection) (d : Dict Connection)
    → rooms_of id (insert k c d) ≡ (if str_eq k id then c.rooms else rooms_of id d)
unfolding rooms_of
rooms_of-insert k id c d = ground (arith, lookup-insert k id c d)

rooms_of-erase :
    (k id : String) (d : Dict Connection)
    → Distinct d
    → rooms_of id (erase k d) ≡ (if str_eq k id then [] else rooms_of id d)
unfolding rooms_of
rooms_of-erase k id d h = elim (Bool-cases (str_eq k id)) [
  | inl same ↦
      let e : k ≡ id = (str_eq_iff k id).0 same in
      rw (same, ← e) (rw (lookup-erase_self k d h, rooms_of) refl)
  | inr other ↦
      rw (other, lookup-erase_ne k id d (λ e. ground (arith, (str_eq_iff k id).1 e)), rooms_of) refl
]

new_connection : String → Connection
new_connection user = record { user_id = user; rooms = [] }

rooms_of_absent : (id : String) (d : Dict Connection) → lookup id d ≡ none → rooms_of id d ≡ []
unfolding rooms_of
rooms_of_absent id d e = ground arith

rooms_of_held :
    (id : String) (c : Connection) (d : Dict Connection)
    → lookup id d ≡ some c
    → rooms_of id d ≡ c.rooms
unfolding rooms_of
rooms_of_held id c d e = ground arith

connect_room :
    (id user : String) (m m' : Manager)
    → connect id user m ≡ some m'
    → (length m.connections < m.max)
      × (m' ≡ record m { connections = insert id (new_connection user) m.connections })
unfolding connect new_connection
connect_room id user m m' e = (ground (arith, e), ground (arith, e))

-- A new connection is in no room.
connected-IsConsistent :
    (id user : String) (m : Manager)
    → IsConsistent m
    → lookup id m.connections ≡ none
    → length m.connections < m.max
    → IsConsistent (record m { connections = insert id (new_connection user) m.connections })
unfolding new_connection
connected-IsConsistent id user m v fresh room =
    let absent : rooms_of id m.connections ≡ [] = rooms_of_absent id m.connections fresh in
    record {
      bounded = omega (arith, length-insert-le id (new_connection user) m.connections);
      distinct = Distinct-insert id (new_connection user) m.connections v.distinct;
      tidy = v.tidy;
      agree = λ c r. elim (Bool-cases (str_eq id c)) [
        | inl same ↦
            let e : id ≡ c = (str_eq_iff id c).0 same in
            let none_of_c : rooms_of c m.connections ≡ [] = rw (← e) absent in
            ground (
              arith,
              v.agree c r,
              none_of_c,
              rooms_of-insert id c (new_connection user) m.connections,
            )
        | inr other ↦
            ground (arith, v.agree c r, rooms_of-insert id c (new_connection user) m.connections)
      ];
    }

connect-IsConsistent :
    (id user : String) (m m' : Manager)
    → IsConsistent m
    → lookup id m.connections ≡ none
    → connect id user m ≡ some m'
    → IsConsistent m'
connect-IsConsistent id user m m' v fresh e =
    let (room, q) = connect_room id user m m' e in
    rw q (connected-IsConsistent id user m v fresh room)

pub disconnect_present :
    (id : String) (c : Connection) (m : Manager)
    → lookup id m.connections ≡ some c
    → disconnect id m
      ≡ record m { connections = erase id m.connections; rooms = leave_each id c.rooms m.rooms }
unfolding disconnect
disconnect_present id c m held = ground arith

pub disconnect_absent :
    (id : String) (m : Manager) → lookup id m.connections ≡ none → disconnect id m ≡ m
unfolding disconnect
disconnect_absent id m absent = ground arith

disconnect-IsConsistent :
    (id : String) (m : Manager) → IsConsistent m → IsConsistent (disconnect id m)
disconnect-IsConsistent id m v = elim (Option-cases (lookup id m.connections)) [
  | inl absent ↦ rw (disconnect_absent id m absent) v
  | inr (c, held) ↦
      let mine : rooms_of id m.connections ≡ c.rooms = rooms_of_held id c m.connections held in
      rw (disconnect_present id c m held) (record {
        bounded = omega (arith, length-erase-le id m.connections, v.bounded);
        distinct = Distinct-erase id m.connections v.distinct;
        tidy = leave_each-IsTidy id c.rooms m.rooms v.tidy;
        agree = λ k r. elim (Bool-cases (str_eq id k)) [
          | inl same ↦
              let e : id ≡ k = (str_eq_iff id k).0 same in
              let his : rooms_of k m.connections ≡ c.rooms = rw (← e) mine in
              ground (
                arith,
                same,
                his,
                v.agree k r,
                elem-leave_each id r k c.rooms m.rooms v.tidy,
                rooms_of-erase id k m.connections v.distinct,
              )
          | inr other ↦ ground (
            arith,
            other,
            v.agree k r,
            elem-leave_each id r k c.rooms m.rooms v.tidy,
            rooms_of-erase id k m.connections v.distinct,
          )
        ];
      })
]

join_room_present :
    (id room : String) (c : Connection) (m : Manager)
    → lookup id m.connections ≡ some c
    → (join_room id room m).0 ≡ record m {
      connections = insert id (record c { rooms = add room c.rooms }) m.connections;
      rooms = insert room (add id (members room m.rooms)) m.rooms;
    }
unfolding join_room
join_room_present id room c m held = ground arith

join_room_absent :
    (id room : String) (m : Manager) → lookup id m.connections ≡ none → (join_room id room m).0 ≡ m
unfolding join_room
join_room_absent id room m absent = ground arith

leave_room_present :
    (id room : String) (c : Connection) (m : Manager)
    → lookup id m.connections ≡ some c
    → (leave_room id room m).0 ≡ record m {
      connections = insert id (record c { rooms = discard room c.rooms }) m.connections;
      rooms = leave_one id room m.rooms;
    }
unfolding leave_room
leave_room_present id room c m held = ground arith

leave_room_absent :
    (id room : String) (m : Manager) → lookup id m.connections ≡ none → (leave_room id room m).0 ≡ m
unfolding leave_room
leave_room_absent id room m absent = ground arith

-- The rooms of another connection, and of this one under its other name.
mine_or_other :
    (id k : String) (c : Connection) (d : Dict Connection)
    → lookup id d ≡ some c
    → (str_eq id k ≡ false) ⊎ ((str_eq id k ≡ true) × (rooms_of k d ≡ c.rooms))
mine_or_other id k c d held = elim (Bool-cases (str_eq id k)) [
  | inr other ↦ inl other
  | inl same ↦
      let e : id ≡ k = (str_eq_iff id k).0 same in inr (same, rw (← e) (rooms_of_held id c d held))
]

join_room-IsConsistent :
    (id room : String) (m : Manager) → IsConsistent m → IsConsistent (join_room id room m).0
join_room-IsConsistent id room m v = elim (Option-cases (lookup id m.connections)) [
  | inl absent ↦ rw (join_room_absent id room m absent) v
  | inr (c, held) ↦
      let c' : Connection = record c { rooms = add room c.rooms } in
      rw (join_room_present id room c m held) (record {
        bounded = omega (arith, length-insert_present id c' c m.connections held, v.bounded);
        distinct = Distinct-insert id c' m.connections v.distinct;
        tidy = insert-add-IsTidy room id (members room m.rooms) m.rooms v.tidy;
        agree = λ k r. ground (
          arith,
          mine_or_other id k c m.connections held,
          v.agree k r,
          elem-members-insert-add room id r k m.rooms,
          rooms_of-insert id k c' m.connections,
          elem-add r room c.rooms,
        );
      })
]

leave_room-IsConsistent :
    (id room : String) (m : Manager) → IsConsistent m → IsConsistent (leave_room id room m).0
leave_room-IsConsistent id room m v = elim (Option-cases (lookup id m.connections)) [
  | inl absent ↦ rw (leave_room_absent id room m absent) v
  | inr (c, held) ↦
      let c' : Connection = record c { rooms = discard room c.rooms } in
      rw (leave_room_present id room c m held) (record {
        bounded = omega (arith, length-insert_present id c' c m.connections held, v.bounded);
        distinct = Distinct-insert id c' m.connections v.distinct;
        tidy = leave_one-IsTidy id room m.rooms v.tidy;
        agree = λ k r. ground (
          arith,
          mine_or_other id k c m.connections held,
          v.agree k r,
          elem-leave_one id room r k m.rooms v.tidy.distinct,
          rooms_of-insert id k c' m.connections,
          elem-discard r room c.rooms,
        );
      })
]

-- What happens to a manager; a connection is made under an id that is not in use.
pub data Happens (m : Manager) : Manager → Type 0 where
  connects :
      {m' : Manager} (id user : String)
      → lookup id m.connections ≡ none
      → connect id user m ≡ some m'
      → Happens m m'
  disconnects : (id : String) → Happens m (disconnect id m)
  joins : (id room : String) → Happens m (join_room id room m).0
  leaves : (id room : String) → Happens m (leave_room id room m).0
  sends : (w : Sockets) (id : String) → Happens m (send_to_connection w id m).0

pub data Reaches (m : Manager) : Manager → Type 0 where
  here : Reaches m m
  later : {m' m'' : Manager} → Reaches m m' → Happens m' m'' → Reaches m m''

send_cases :
    (w : Sockets) (id : String) (m : Manager)
    → ((send_to_connection w id m).0 ≡ m) ⊎ ((send_to_connection w id m).0 ≡ disconnect id m)
unfolding send_to_connection
send_cases w id m = ground arith

send-IsConsistent :
    (w : Sockets) (id : String) (m : Manager)
    → IsConsistent m
    → IsConsistent (send_to_connection w id m).0
send-IsConsistent w id m v = elim (send_cases w id m) [
  | inl same ↦ rw same v
  | inr dropped ↦ rw dropped (disconnect-IsConsistent id m v)
]

Happens-IsConsistent : (m m' : Manager) → IsConsistent m → Happens m m' → IsConsistent m'
Happens-IsConsistent m m' v (connects id user fresh e) = connect-IsConsistent id user m m' v fresh e
Happens-IsConsistent m m' v (disconnects id) = disconnect-IsConsistent id m v
Happens-IsConsistent m m' v (joins id room) = join_room-IsConsistent id room m v
Happens-IsConsistent m m' v (leaves id room) = leave_room-IsConsistent id room m v
Happens-IsConsistent m m' v (sends w id) = send-IsConsistent w id m v

-- A manager as constructed.
abbrev pub empty : ℕ → Manager
empty max = record { max = max; connections = []; rooms = [] }

empty-IsConsistent : (max : ℕ) → IsConsistent (empty max)
unfolding lookup rooms_of
empty-IsConsistent max = record {
  bounded = omega arith;
  distinct = tt;
  tidy = record { distinct = tt; inhabited = λ r e. cc };
  agree = λ id r. refl;
}

Reaches-IsConsistent : (m m' : Manager) → IsConsistent m → Reaches m m' → IsConsistent m'
Reaches-IsConsistent m m' v here = v
Reaches-IsConsistent m m' v (later {m' = n} before last) =
    Happens-IsConsistent n m' (Reaches-IsConsistent m n v before) last

-- Whatever connects (under an id that is not in use), disconnects, joins, leaves or is sent to,
-- and in whatever order, a manager that was empty keeps its connections and rooms consistent: a
-- connection lists a room exactly when the room lists it, no room is empty, nothing stands twice,
-- and there are at most `max` connections.
pub reached-IsConsistent : (max : ℕ) (m : Manager) → Reaches (empty max) m → IsConsistent m
reached-IsConsistent max m r = Reaches-IsConsistent (empty max) m (empty-IsConsistent max) r
