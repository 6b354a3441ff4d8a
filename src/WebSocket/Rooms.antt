-- ===== src/WebSocket/Rooms.antt =====
-- Sets of text and the rooms of gateway/websocket/manager.py: who is in a room after a change.
use haojie.Common.{
  ◌≡◌, ◌≢◌, refl, ap, ◌&&◌, ◌||◌, not, Option, none, some, String, List, [], ◌∷◌, ◌++◌, arith,
  if◌then◌else◌, str_eq, str_eq_iff, str_eq_refl, Dict, lookup, insert, erase, Distinct, get_or,
  lookup-insert, lookup-erase_ne, lookup-erase_self, Distinct-erase, Bool-cases, Option-cases, inl,
  inr,
}
use haojie.WebSocket.{elem, add, discard, leave_one, leave_each}

elem-append_one : (x y : String) (s : List String) → elem x (s ++ y ∷ []) ≡ (elem x s || str_eq y x)
elem-append_one x y [] = ground arith
elem-append_one x y (z ∷ s) = ground (arith, elem-append_one x y s)

pub elem-add : (x y : String) (s : List String) → elem x (add y s) ≡ (str_eq y x || elem x s)
unfolding add
elem-add x y s = elim (Bool-cases (str_eq y x)) [
  | inl same ↦
      let e : y ≡ x = (str_eq_iff y x).0 same in
      rw e (ground (arith, elem-append_one x x s, str_eq_refl x))
  | inr other ↦ ground (arith, elem-append_one x y s)
]

pub elem-discard :
    (x y : String) (s : List String) → elem x (discard y s) ≡ (not (str_eq y x) && elem x s)
unfolding discard
elem-discard x y [] = ground arith
elem-discard x y (z ∷ s) =
    ground (arith, str_eq_iff z y, str_eq_iff z x, str_eq_iff y x, elem-discard x y s)

-- The members of a room, none if there is no such room.
abbrev pub members : String → Dict (List String) → List String
members r rooms = get_or (lookup r rooms) []

pub Distinct-insert {ℓ} :
    {V : Type ℓ} (k : String) (v : V) (d : Dict V) → Distinct d → Distinct (insert k v d)
unfolding insert lookup
Distinct-insert k v [] h = ground arith
Distinct-insert k v ((j, w) ∷ d) h =
    ground (arith, str_eq_iff j k, str_eq_iff k j, Distinct-insert k v d h.1, lookup-insert k j v d)

-- No room is kept without members, and none twice.
pub record IsTidy (rooms : Dict (List String)) : Type 0 where
  pub distinct : Distinct rooms
  pub inhabited : (r : String) → lookup r rooms ≢ some []

lookup-erase :
    (k j : String) (d : Dict (List String))
    → Distinct d
    → lookup j (erase k d) ≡ (if str_eq k j then none else lookup j d)
lookup-erase k j d h = elim (Bool-cases (str_eq k j)) [
  | inl same ↦ let e : k ≡ j = (str_eq_iff k j).0 same in rw (same, ← e) (lookup-erase_self k d h)
  | inr other ↦ rw other (lookup-erase_ne k j d (λ e. ground (arith, (str_eq_iff k j).1 e)))
]

leave_one_absent :
    (id room : String) (rooms : Dict (List String))
    → lookup room rooms ≡ none
    → leave_one id room rooms ≡ rooms
unfolding leave_one
leave_one_absent id room rooms e = ground arith

leave_one_last :
    (id room : String) (ms : List String) (rooms : Dict (List String))
    → lookup room rooms ≡ some ms
    → discard id ms ≡ []
    → leave_one id room rooms ≡ erase room rooms
unfolding leave_one
leave_one_last id room ms rooms e last = ground arith

leave_one_more :
    (id room x : String) (ms xs : List String) (rooms : Dict (List String))
    → lookup room rooms ≡ some ms
    → discard id ms ≡ x ∷ xs
    → leave_one id room rooms ≡ insert room (x ∷ xs) rooms
unfolding leave_one
leave_one_more id room x ms xs rooms e more = ground arith

-- What is left of a room's entry.
abbrev kept : List String → Option (List String)
kept [] = none
kept (x ∷ xs) = some (x ∷ xs)

module _ (id room r : String) (rooms : Dict (List String)) (h : Distinct rooms) where
  abbrev Left : Type 0
  Left =
      lookup r (leave_one id room rooms)
      ≡ (if str_eq room r then kept (discard id (members r rooms)) else lookup r rooms)

  left_in : (ms d : List String) → lookup room rooms ≡ some ms → discard id ms ≡ d → Left
  left_in ms [] held last = elim (Bool-cases (str_eq room r)) [
    | inl same ↦
        let e : room ≡ r = (str_eq_iff room r).0 same in
        let found : lookup r rooms ≡ some ms = rw (← e) held in
        rw
          (
            leave_one_last id room ms rooms held last,
            lookup-erase room r rooms h,
            same,
            found,
            last,
          )
          refl
    | inr other ↦
        rw (leave_one_last id room ms rooms held last, lookup-erase room r rooms h, other) refl
  ]
  left_in ms (x ∷ xs) held more = elim (Bool-cases (str_eq room r)) [
    | inl same ↦
        let e : room ≡ r = (str_eq_iff room r).0 same in
        let found : lookup r rooms ≡ some ms = rw (← e) held in
        rw
          (
            leave_one_more id room x ms xs rooms held more,
            lookup-insert room r (x ∷ xs) rooms,
            same,
            found,
            more,
          )
          refl
    | inr other ↦
        rw
          (
            leave_one_more id room x ms xs rooms held more,
            lookup-insert room r (x ∷ xs) rooms,
            other,
          )
          refl
  ]

  left_out : lookup room rooms ≡ none → Left
  unfolding discard
  left_out absent = elim (Bool-cases (str_eq room r)) [
    | inl same ↦
        let e : room ≡ r = (str_eq_iff room r).0 same in
        let missing : lookup r rooms ≡ none = rw (← e) absent in
        rw (leave_one_absent id room rooms absent, same, missing) refl
    | inr other ↦ rw (leave_one_absent id room rooms absent, other) refl
  ]

  -- Who leaves a room goes from its entry, and the entry with the last.
  pub lookup-leave_one : Left
  lookup-leave_one = elim (Option-cases (lookup room rooms)) [
    | inl absent ↦ left_out absent
    | inr (ms, held) ↦ left_in ms (discard id ms) held refl
  ]

get_or-kept : (l : List String) → get_or (kept l) [] ≡ l
get_or-kept [] = refl
get_or-kept (x ∷ xs) = refl

pub elem-leave_one :
    (id room r c : String) (rooms : Dict (List String))
    → Distinct rooms
    → elem c (members r (leave_one id room rooms)) ≡ (
        if str_eq room r
        then not (str_eq id c) && elem c (members r rooms)
        else elem c (members r rooms))
elem-leave_one id room r c rooms h = elim (Bool-cases (str_eq room r)) [
  | inl same ↦
      rw (lookup-leave_one id room r rooms h, same, get_or-kept (discard id (members r rooms)))
        (elem-discard c id (members r rooms))
  | inr other ↦ rw (lookup-leave_one id room r rooms h, other) refl
]

kept_ne : (l : List String) → kept l ≢ some []
kept_ne [] e = cc
kept_ne (x ∷ xs) e = ground arith

leave_one-Distinct :
    (id room : String) (rooms : Dict (List String))
    → Distinct rooms
    → Distinct (leave_one id room rooms)
leave_one-Distinct id room rooms h = elim (Option-cases (lookup room rooms)) [
  | inl absent ↦ rw (leave_one_absent id room rooms absent) h
  | inr (ms, held) ↦ shrunk ms (discard id ms) held refl
]
  where
    shrunk :
        (ms d : List String)
        → lookup room rooms ≡ some ms
        → discard id ms ≡ d
        → Distinct (leave_one id room rooms)
    shrunk ms [] held last =
        rw (leave_one_last id room ms rooms held last) (Distinct-erase room rooms h)
    shrunk ms (x ∷ xs) held more =
        rw (leave_one_more id room x ms xs rooms held more) (Distinct-insert room (x ∷ xs) rooms h)

pub leave_one-IsTidy :
    (id room : String) (rooms : Dict (List String))
    → IsTidy rooms
    → IsTidy (leave_one id room rooms)
leave_one-IsTidy id room rooms t = record {
  distinct = leave_one-Distinct id room rooms t.distinct;
  inhabited = λ r e. ground (
    arith,
    lookup-leave_one id room r rooms t.distinct,
    e,
    kept_ne (discard id (members r rooms)),
    t.inhabited r,
  );
}

pub leave_each-IsTidy :
    (id : String) (rs : List String) (rooms : Dict (List String))
    → IsTidy rooms
    → IsTidy (leave_each id rs rooms)
unfolding leave_each
leave_each-IsTidy id [] rooms t = t
leave_each-IsTidy id (r ∷ rs) rooms t =
    leave_each-IsTidy id rs (leave_one id r rooms) (leave_one-IsTidy id r rooms t)

-- Who leaves several rooms is in none of them, and every other member stays.
pub elem-leave_each :
    (id r c : String) (rs : List String) (rooms : Dict (List String))
    → IsTidy rooms
    → elem c (members r (leave_each id rs rooms)) ≡ (
        if elem r rs
        then not (str_eq id c) && elem c (members r rooms)
        else elem c (members r rooms))
unfolding leave_each
elem-leave_each id r c [] rooms t = refl
elem-leave_each id r c (q ∷ rs) rooms t = ground (
  arith,
  elem-leave_each id r c rs (leave_one id q rooms) (leave_one-IsTidy id q rooms t),
  elem-leave_one id q r c rooms t.distinct,
)

pub insert-IsTidy :
    (room x : String) (xs : List String) (rooms : Dict (List String))
    → IsTidy rooms
    → IsTidy (insert room (x ∷ xs) rooms)
insert-IsTidy room x xs rooms t = record {
  distinct = Distinct-insert room (x ∷ xs) rooms t.distinct;
  inhabited = λ r e. ground (arith, lookup-insert room r (x ∷ xs) rooms, e, t.inhabited r);
}

add-cons : (x : String) (s : List String) → (y : String) × (ys : List String) × (add x s ≡ y ∷ ys)
unfolding add
add-cons x [] = (x, [], refl)
add-cons x (z ∷ s) = elim (Bool-cases (elem x (z ∷ s))) [
  | inl old ↦ rw old (z, s, refl)
  | inr new ↦ rw new (z, s ++ x ∷ [], refl)
]

pub insert-add-IsTidy :
    (room x : String) (s : List String) (rooms : Dict (List String))
    → IsTidy rooms
    → IsTidy (insert room (add x s) rooms)
insert-add-IsTidy room x s rooms t =
    let (y, ys, e) = add-cons x s in rw e (insert-IsTidy room y ys rooms t)

pub elem-members-insert-add :
    (room id r k : String) (rooms : Dict (List String))
    → elem k (members r (insert room (add id (members room rooms)) rooms))
      ≡ (str_eq room r && str_eq id k || elem k (members r rooms))
elem-members-insert-add room id r k rooms = elim (Bool-cases (str_eq room r)) [
  | inl same ↦
      let e : room ≡ r = (str_eq_iff room r).0 same in
      let q : members room rooms ≡ members r rooms = ap (λ i. members i rooms) e in
      ground (
        arith,
        q,
        lookup-insert room r (add id (members room rooms)) rooms,
        elem-add k id (members r rooms),
      )
  | inr other ↦ ground (arith, lookup-insert room r (add id (members room rooms)) rooms)
]
