-- ===== src/Manager/Cleanup/Sockets.antt =====
-- The sockets that the cleanup closes, and what it sends before.
use null_key.Base.{
  ℕ, ◌≡◌, ◌↔◌, ◌∙◌, append_assoc, ap, refl, sym, Bool, true, false, not, ◌&&◌, ◌||◌, List, [], ◌∷◌,
  Option, none, some, arith, inl, inr, Bool-cases, Option-cases,
}
use null_key.Value.{Value}
use null_key.JsMap.{Map, get, delete}
use null_key.JsMap.Laws.{get-delete}
use null_key.Config.{Config}
use null_key.Net.{Net, Effect, send, close, room_closed}
use null_key.Net.Emits.{Emits, Emits-refl, Emits-trans}
use null_key.Room.{Room, some_client, is_expired}
use null_key.Manager.{
  RoomManager, expired_rooms, dismiss, close_each, close_room, close_rooms, cleanup_expired_rooms,
}
use null_key.Manager.Invariant.{IsManager}
use null_key.Manager.Cleanup.{listed, listed-expired_rooms, found_expired}

close_each_open :
    (cs : List ℕ) (w : ℕ) (n : Net)
    → (close_each cs n).is_open w ≡ (n.is_open w && not (some_client w cs))
unfolding close_each dismiss some_client
close_each_open [] w n = ground arith
close_each_open (c ∷ cs) w n = ground (arith, close_each_open cs w (dismiss c n))

-- The members of a room that was found.
abbrev found_member : ℕ → Option Room → Bool
found_member w none = false
found_member w (some r) = some_client w r.clients

-- Whether a socket is a member of one of the rooms listed.
abbrev member_of_any : List Value → ℕ → Map Room → Bool
member_of_any [] w rooms = false
member_of_any (id ∷ ids) w rooms = found_member w (get id rooms) || member_of_any ids w rooms

member_of_any-delete :
    (id : Value) (ids : List Value) (w : ℕ) (rooms : Map Room)
    → (found_member w (get id rooms) || member_of_any ids w (delete id rooms))
      ≡ (found_member w (get id rooms) || member_of_any ids w rooms)
member_of_any-delete id [] w rooms = refl
member_of_any-delete id (j ∷ ids) w rooms =
    ground (arith, member_of_any-delete id ids w rooms, get-delete id j rooms)

close_room_open :
    (id : Value) (w : ℕ) (m : RoomManager) (n : Net)
    → (close_room id (m, n)).1.is_open w ≡ (n.is_open w && not (found_member w (get id m.rooms)))
unfolding close_room
close_room_open id w m n = elim (Option-cases (get id m.rooms)) [
  | inl e ↦ rw (e, close_room) (ground arith)
  | inr (r, e) ↦ rw (e, close_room) (close_each_open r.clients w n)
]

rooms-close_room :
    (id : Value) (m : RoomManager) (n : Net) → (close_room id (m, n)).0.rooms ≡ delete id m.rooms
unfolding close_room
rooms-close_room id m n = refl

close_rooms_open :
    (ids : List Value) (w : ℕ) (m : RoomManager) (n : Net)
    → (close_rooms ids (m, n)).1.is_open w ≡ (n.is_open w && not (member_of_any ids w m.rooms))
unfolding close_rooms
close_rooms_open [] w m n = ground arith
close_rooms_open (id ∷ ids) w m n =
    let s = close_room id (m, n) in
    rw (close_rooms_open ids w s.0 s.1, close_room_open id w m n, rooms-close_room id m n)
      (ground (arith, member_of_any-delete id ids w m.rooms))

room_of_member :
    (ids : List Value) (w : ℕ) (rooms : Map Room)
    → member_of_any ids w rooms ≡ true
    → (k : Value) × (listed k ids ≡ true) × (found_member w (get k rooms) ≡ true)
unfolding listed
room_of_member [] w rooms h = cc
room_of_member (id ∷ ids) w rooms h = elim (Bool-cases (found_member w (get id rooms))) [
  | inl e ↦ (id, ground arith, e)
  | inr e ↦ let (k, l, f) = room_of_member ids w rooms (ground arith) in (k, ground arith, f)
]

member_of_room :
    (ids : List Value) (w : ℕ) (rooms : Map Room) (k : Value)
    → listed k ids ≡ true
    → found_member w (get k rooms) ≡ true
    → member_of_any ids w rooms ≡ true
unfolding listed
member_of_room [] w rooms k l f = cc
member_of_room (id ∷ ids) w rooms k l f = ground (arith, member_of_room ids w rooms k)

-- The socket belongs to a room that has expired.
abbrev pub Evicted : Config → ℕ → ℕ → Map Room → Type 0
Evicted cfg now w rooms =
    (k : Value) × (r : Room) × (get k rooms ≡ some r)
    × (is_expired cfg now r ≡ true)
    × (some_client w r.clients ≡ true)

Evicted-room :
    (cfg : Config) (now w : ℕ) (rooms : Map Room) (k : Value)
    → found_expired cfg now (get k rooms) ≡ true
    → found_member w (get k rooms) ≡ true
    → Evicted cfg now w rooms
Evicted-room cfg now w rooms k x f = elim (Option-cases (get k rooms)) [
  | inl e ↦ absurd (ground arith)
  | inr (r, e) ↦ (k, r, e, ground arith, ground arith)
]

Evicted-of_member :
    (cfg : Config) (now w : ℕ) (m : RoomManager)
    → IsManager m
    → member_of_any (expired_rooms cfg now m.rooms) w m.rooms ≡ true
    → Evicted cfg now w m.rooms
Evicted-of_member cfg now w m v h =
    let (k, l, f) = room_of_member (expired_rooms cfg now m.rooms) w m.rooms h in
    Evicted-room cfg now w m.rooms k
      (sym (listed-expired_rooms cfg now k m.rooms v.unique_rooms) ∙ l) f

member_of_Evicted :
    (cfg : Config) (now w : ℕ) (m : RoomManager)
    → IsManager m
    → Evicted cfg now w m.rooms
    → member_of_any (expired_rooms cfg now m.rooms) w m.rooms ≡ true
member_of_Evicted cfg now w m v (k, r, e, x, c) =
    member_of_room (expired_rooms cfg now m.rooms) w m.rooms k
      (listed-expired_rooms cfg now k m.rooms v.unique_rooms ∙ rw e x) (rw e c)

-- After the cleanup a socket is open exactly if it was open before and is a member of no room that
-- has expired.
pub cleanup_sockets :
    (cfg : Config) (now w : ℕ) (m : RoomManager) (n : Net)
    → IsManager m
    → ((cleanup_expired_rooms cfg now (m, n)).1.is_open w ≡ true)
      ↔ ((n.is_open w ≡ true) × (¬ Evicted cfg now w m.rooms))
unfolding cleanup_expired_rooms
cleanup_sockets cfg now w m n v = (
  λ h. (ground (arith, shape), λ x. ground (arith, shape, member_of_Evicted cfg now w m v x)),
  λ h. elim (Bool-cases (member_of_any ids w m.rooms)) [
    | inl e ↦ absurd (h.1 (Evicted-of_member cfg now w m v e))
    | inr e ↦ ground (arith, shape)
  ],
)
  where
    ids : List Value
    ids = expired_rooms cfg now m.rooms

    shape :
        (close_rooms ids (m, n)).1.is_open w ≡ (n.is_open w && not (member_of_any ids w m.rooms))
    shape = close_rooms_open ids w m n

-- What the cleanup does to a socket: the notice, and the close with code 4001.
abbrev pub Farewell : (ℕ → Type 0) → Effect → Type 0
Farewell P (send w f) = (f ≡ room_closed) × P w
Farewell P (close w code) = (code ≡ 4001) × P w

dismiss-Emits : (P : ℕ → Type 0) (c : ℕ) (n : Net) → P c → Emits (Farewell P) n (dismiss c n)
unfolding dismiss
dismiss-Emits P c n p = elim (Bool-cases (n.is_open c)) [
  | inl e ↦
      rw (e, dismiss)
        (
          send c room_closed ∷ close c 4001 ∷ [],
          append_assoc n.log _ _,
          ((refl, p), ((refl, p), tt)),
        )
  | inr e ↦ rw (e, dismiss) (Emits-refl (Farewell P) n)
]

close_each-Emits :
    (P : ℕ → Type 0) (cs : List ℕ) (n : Net)
    → ((w : ℕ) → some_client w cs ≡ true → P w)
    → Emits (Farewell P) n (close_each cs n)
unfolding close_each some_client
close_each-Emits P [] n p = Emits-refl (Farewell P) n
close_each-Emits P (c ∷ cs) n p =
    Emits-trans (Farewell P) n (dismiss c n) (close_each cs (dismiss c n))
      (dismiss-Emits P c n (p c (ground arith)))
      (close_each-Emits P cs (dismiss c n) (λ w h. p w (ground arith)))

close_room-Emits :
    (P : ℕ → Type 0) (id : Value) (m : RoomManager) (n : Net)
    → ((w : ℕ) → found_member w (get id m.rooms) ≡ true → P w)
    → Emits (Farewell P) n (close_room id (m, n)).1
unfolding close_room
close_room-Emits P id m n p = elim (Option-cases (get id m.rooms)) [
  | inl e ↦ rw (e, close_room) (Emits-refl (Farewell P) n)
  | inr (r, e) ↦ rw (e, close_room) (close_each-Emits P r.clients n (λ w h. p w (rw e h)))
]

close_rooms-Emits :
    (P : ℕ → Type 0) (ids : List Value) (m : RoomManager) (n : Net)
    → ((w : ℕ) → member_of_any ids w m.rooms ≡ true → P w)
    → Emits (Farewell P) n (close_rooms ids (m, n)).1
unfolding close_rooms
close_rooms-Emits P [] m n p = Emits-refl (Farewell P) n
close_rooms-Emits P (id ∷ ids) m n p =
    let s = close_room id (m, n) in
    Emits-trans (Farewell P) n s.1 (close_rooms ids s).1
      (close_room-Emits P id m n (λ w h. p w (ground arith)))
      (close_rooms-Emits P ids s.0 s.1 (λ w h. p w (
        ground (
          arith,
          member_of_any-delete id ids w m.rooms,
          rooms-close_room id m n,
          ap (member_of_any ids w) (rooms-close_room id m n),
        ))))

-- The cleanup sends nothing but the notice and closes nothing but with 4001, and does either only
-- to members of rooms that have expired.
pub cleanup_Emits :
    (cfg : Config) (now : ℕ) (m : RoomManager) (n : Net)
    → IsManager m
    → Emits (Farewell (λ w. Evicted cfg now w m.rooms)) n (cleanup_expired_rooms cfg now (m, n)).1
unfolding cleanup_expired_rooms
cleanup_Emits cfg now m n v =
    close_rooms-Emits _ (expired_rooms cfg now m.rooms) m n (λ w. Evicted-of_member cfg now w m v)
