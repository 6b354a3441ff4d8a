-- ===== src/Tests/Rooms.antt =====
-- Runs of the websocket manager: two connections in a room, one of which has gone.
use haojie.Common.{◌≡◌, refl, true, [], ◌∷◌, str_eq, not, lookup, insert, erase}
use haojie.WebSocket.{
  Manager, Sockets, connect, join_room, broadcast_to_room, except, disconnect, discard, add,
  leave_one,
}
use haojie.WebSocket.Rooms.{members}
use haojie.WebSocket.Consistency.{
  IsConsistent, Reaches, here, later, connects, joins, empty, reached-IsConsistent,
}
use haojie.WebSocket.Broadcast.{count, broadcast-count}

abbrev joined : Manager
joined = record {
  max = 2;
  connections =
      ("c1", record { user_id = "ann"; rooms = "r" ∷ [] })
      ∷ ("c2", record { user_id = "bob"; rooms = "r" ∷ [] })
      ∷ [];
  rooms = ("r", "c1" ∷ "c2" ∷ []) ∷ [];
}

abbrev one : Manager
one = record {
  max = 2;
  connections = ("c1", record { user_id = "ann"; rooms = [] }) ∷ [];
  rooms = [];
}

abbrev both : Manager
both = record one {
  connections =
      ("c1", record { user_id = "ann"; rooms = [] })
      ∷ ("c2", record { user_id = "bob"; rooms = [] })
      ∷ [];
}

Reaches-joined : Reaches (empty 2) (join_room "c2" "r" (join_room "c1" "r" both).0).0
unfolding connect insert lookup
Reaches-joined =
    later
      (later
        (later (later here (connects {m' = one} "c1" "ann" refl refl))
          (connects {m' = both} "c2" "bob" refl refl))
        (joins "c1" "r"))
      (joins "c2" "r")

joined_test : (join_room "c2" "r" (join_room "c1" "r" both).0).0 ≡ joined
unfolding join_room add insert lookup
joined_test = refl

reached-IsConsistent_example : IsConsistent (join_room "c2" "r" (join_room "c1" "r" both).0).0
reached-IsConsistent_example =
    reached-IsConsistent 2 (join_room "c2" "r" (join_room "c1" "r" both).0).0 Reaches-joined

joined-IsConsistent : IsConsistent joined
joined-IsConsistent =
    let m = (join_room "c2" "r" (join_room "c1" "r" both).0).0 in
    let v : IsConsistent m = reached-IsConsistent 2 m Reaches-joined in rw joined_test at v

-- The first connection is open and does not take anything.
abbrev sockets : Sockets
sockets = record { is_open = λ id. true; takes = λ id. not (str_eq id "c1") }

broadcast_test : broadcast_to_room sockets "r" [] joined ≡ (
  record {
    max = 2;
    connections = ("c2", record { user_id = "bob"; rooms = "r" ∷ [] }) ∷ [];
    rooms = ("r", "c2" ∷ []) ∷ [];
  },
  1,
)
unfolding broadcast_to_room disconnect lookup leave_one insert erase discard
broadcast_test = refl

broadcast-count_example :
    (broadcast_to_room sockets "r" [] joined).1
    ≡ count sockets (except [] (members "r" joined.rooms))
broadcast-count_example = broadcast-count sockets "r" [] joined joined-IsConsistent
