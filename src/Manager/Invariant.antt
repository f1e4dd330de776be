-- ===== src/Manager/Invariant.antt =====
-- The registry of rooms and tokens stays well formed under every method.
use null_key.Base.{
  ℕ, ◌≡◌, ◌≢◌, refl, [], ◌∷◌, List, Option, none, some, ◌∙◌, ◌==◌, Bool-cases, arith, Option-cases,
  inl, inr, if◌then◌else◌,
}
use null_key.Value.{Value, truthy, ◌===◌}
use null_key.JsMap.{Map, get, has, set, delete, size}
use null_key.JsMap.Laws.{Unique, get-set, get-delete, set-Unique, delete-Unique}
use null_key.Config.{Config}
use null_key.Net.{Net, Frame}
use null_key.Room.{Room, new_room, add_client, remove_client, update_last_activity}
use null_key.Room.Capacity.{
  IsRoom, new_room-IsRoom, add_client-IsRoom, remove_client-IsRoom, id-add_client, id-remove_client,
}
use null_key.Manager.{
  RoomManager, unused, or_unused, tokens_or_new, new_manager, add_room, add_client_to_room,
  remove_client_from_room, broadcast_to_room, bind_invite_token, invalidate_token, add_invite_token,
  close_room, close_rooms, cleanup_expired_rooms,
}

-- A room under its own id.
pub record IsRoomAt (id : Value) (r : Room) : Type 0 where
  pub room : IsRoom r
  pub named : r.id ≡ id

-- Each room is within its limit and listed under its id, tokens belong to rooms that exist, and no
-- key stands twice.
pub record IsManager (m : RoomManager) : Type 0 where
  pub rooms_ok : (id : Value) (r : Room) → get id m.rooms ≡ some r → IsRoomAt id r
  pub tokens_ok : (id : Value) → get id m.rooms ≡ none → get id m.invite_tokens ≡ none
  pub unique_rooms : Unique m.rooms
  pub unique_tokens : Unique m.invite_tokens

pub new_manager-IsManager : IsManager new_manager
unfolding new_manager get
new_manager-IsManager = record {
  rooms_ok = λ id r h. cc;
  tokens_ok = λ id h. refl;
  unique_rooms = tt;
  unique_tokens = tt;
}

set_room-IsManager :
    (id : Value) (r : Room) (m : RoomManager)
    → IsManager m
    → IsRoomAt id r
    → IsManager (record m { rooms = set id r m.rooms })
set_room-IsManager id r m v ok = record {
  rooms_ok = λ j s h. ground (arith, get-set id j r m.rooms, v.rooms_ok j s);
  tokens_ok = λ j h. ground (arith, get-set id j r m.rooms, v.tokens_ok j);
  unique_rooms = set-Unique id r m.rooms v.unique_rooms;
  unique_tokens = v.unique_tokens;
}

set_tokens-IsManager :
    (id : Value) (t : Map Value) (m : RoomManager)
    → IsManager m
    → get id m.rooms ≢ none
    → IsManager (record m { invite_tokens = set id t m.invite_tokens })
set_tokens-IsManager id t m v there = record {
  rooms_ok = v.rooms_ok;
  tokens_ok = λ j h. ground (arith, get-set id j t m.invite_tokens, v.tokens_ok j);
  unique_rooms = v.unique_rooms;
  unique_tokens = set-Unique id t m.invite_tokens v.unique_tokens;
}

delete_tokens-IsManager :
    (id : Value) (m : RoomManager)
    → IsManager m
    → IsManager (record m { invite_tokens = delete id m.invite_tokens })
delete_tokens-IsManager id m v = record {
  rooms_ok = v.rooms_ok;
  tokens_ok = λ j h. ground (arith, get-delete id j m.invite_tokens, v.tokens_ok j);
  unique_rooms = v.unique_rooms;
  unique_tokens = delete-Unique id m.invite_tokens v.unique_tokens;
}

pub add_room-IsManager :
    (cfg : Config) (now : ℕ) (id token : Value) (m : RoomManager)
    → IsManager m
    → IsManager (add_room cfg now id token m).0
unfolding add_room
add_room-IsManager cfg now id token m v = elim (Option-cases (get id m.rooms)) [
  | inr (r, e) ↦ rw (e, add_room, if◌then◌else◌) v
  | inl e ↦
      let fresh : IsManager (record m { rooms = set id (new_room cfg now id) m.rooms }) =
        set_room-IsManager id (new_room cfg now id) m v
          (record { room = new_room-IsRoom cfg now id; named = unfold new_room in refl }) in
      elim (Bool-cases (truthy token)) [
        | inl t ↦
            rw (e, add_room, if◌then◌else◌)
              (rw t (
                set_tokens-IsManager id ((token, unused) ∷ []) _ fresh
                  (ground (arith, get-set id id (new_room cfg now id) m.rooms))))
        | inr f ↦ rw (e, add_room, if◌then◌else◌) (rw f fresh)
      ]
]

pub add_client_to_room-IsManager :
    (now ws : ℕ) (id : Value) (m : RoomManager)
    → IsManager m
    → IsManager (add_client_to_room now id ws m).0
unfolding add_client_to_room
add_client_to_room-IsManager now ws id m v = elim (Option-cases (get id m.rooms)) [
  | inl e ↦ rw (e, add_client_to_room) v
  | inr (r, e) ↦
      let ok = v.rooms_ok id r e in
      rw (e, add_client_to_room)
        (set_room-IsManager id (add_client now ws r).0 m v (record {
          room = add_client-IsRoom now ws r ok.room;
          named = id-add_client now ws r ∙ ok.named;
        }))
]

pub remove_client_from_room-IsManager :
    (now ws : ℕ) (id : Value) (m : RoomManager)
    → IsManager m
    → IsManager (remove_client_from_room now id ws m).0
unfolding remove_client_from_room
remove_client_from_room-IsManager now ws id m v = elim (Option-cases (get id m.rooms)) [
  | inl e ↦ rw (e, remove_client_from_room) v
  | inr (r, e) ↦
      let ok = v.rooms_ok id r e in
      rw (e, remove_client_from_room)
        (set_room-IsManager id (remove_client now ws r).0 m v (record {
          room = remove_client-IsRoom now ws r ok.room;
          named = id-remove_client now ws r ∙ ok.named;
        }))
]

touch-IsRoomAt :
    (now : ℕ) (id : Value) (r : Room) → IsRoomAt id r → IsRoomAt id (update_last_activity now r)
unfolding update_last_activity
touch-IsRoomAt now id r ok = record {
  room = record { fits = ok.room.fits; distinct = ok.room.distinct };
  named = ok.named;
}

pub broadcast_to_room-IsManager :
    (now : ℕ) (id : Value) (f : Frame) (sender : Option ℕ) (m : RoomManager) (n : Net)
    → IsManager m
    → IsManager (broadcast_to_room now id f sender (m, n)).0
unfolding broadcast_to_room
broadcast_to_room-IsManager now id f sender m n v = elim (Option-cases (get id m.rooms)) [
  | inl e ↦ rw (e, broadcast_to_room) v
  | inr (r, e) ↦
      rw (e, broadcast_to_room)
        (set_room-IsManager id (update_last_activity now r) m v
          (touch-IsRoomAt now id r (v.rooms_ok id r e)))
]

-- A room that has tokens is there.
room_of_tokens :
    (id : Value) (m : RoomManager) {t : Map Value}
    → IsManager m
    → get id m.invite_tokens ≡ some t
    → get id m.rooms ≢ none
room_of_tokens id m v e h = ground (arith, v.tokens_ok id h)

pub bind_invite_token-IsManager :
    (id token fingerprint : Value) (m : RoomManager)
    → IsManager m
    → IsManager (bind_invite_token id token fingerprint m).0
unfolding bind_invite_token
bind_invite_token-IsManager id token fp m v = elim (Option-cases (get id m.invite_tokens)) [
  | inl e ↦ rw (e, bind_invite_token) v
  | inr (t, e) ↦ elim (Option-cases (get token t)) [
    | inl f ↦ rw (e, f, bind_invite_token) v
    | inr (b, f) ↦ elim (Bool-cases (b === unused)) [
      | inl g ↦
          rw (e, f, g, bind_invite_token)
            (set_tokens-IsManager id (set token (or_unused fp) t) m v (room_of_tokens id m v e))
      | inr g ↦ rw (e, f, g, bind_invite_token) v
    ]
  ]
]

pub invalidate_token-IsManager :
    (id token : Value) (m : RoomManager) → IsManager m → IsManager (invalidate_token id token m)
unfolding invalidate_token
invalidate_token-IsManager id token m v = elim (Option-cases (get id m.invite_tokens)) [
  | inl e ↦ rw (e, invalidate_token) v
  | inr (t, e) ↦ elim (Bool-cases (size (delete token t) == 0)) [
    | inl g ↦ rw (e, invalidate_token) (rw g (delete_tokens-IsManager id m v))
    | inr g ↦
        rw (e, invalidate_token)
          (rw g (set_tokens-IsManager id (delete token t) m v (room_of_tokens id m v e)))
  ]
]

pub add_invite_token-IsManager :
    (id token : Value) (m : RoomManager) → IsManager m → IsManager (add_invite_token id token m).0
unfolding add_invite_token
add_invite_token-IsManager id token m v = elim (Option-cases (get id m.rooms)) [
  | inl e ↦ rw (e, add_invite_token, if◌then◌else◌) v
  | inr (r, e) ↦
      let tokens = tokens_or_new (get id m.invite_tokens) in
      let there : get id m.rooms ≢ none = ground arith in
      elim (Bool-cases (has token tokens)) [
        | inl g ↦
            rw (e, add_invite_token, if◌then◌else◌)
              (rw (g, if◌then◌else◌) (set_tokens-IsManager id tokens m v there))
        | inr g ↦
            rw (e, add_invite_token, if◌then◌else◌)
              (rw (g, if◌then◌else◌) (set_tokens-IsManager id (set token unused tokens) m v there))
      ]
]

pub close_room-IsManager :
    (id : Value) (m : RoomManager) (n : Net) → IsManager m → IsManager (close_room id (m, n)).0
unfolding close_room
close_room-IsManager id m n v = record {
  rooms_ok = λ j r h. ground (arith, get-delete id j m.rooms, v.rooms_ok j r);
  tokens_ok = λ j h.
      ground (arith, get-delete id j m.rooms, get-delete id j m.invite_tokens, v.tokens_ok j);
  unique_rooms = delete-Unique id m.rooms v.unique_rooms;
  unique_tokens = delete-Unique id m.invite_tokens v.unique_tokens;
}

close_rooms-IsManager :
    (ids : List Value) (m : RoomManager) (n : Net)
    → IsManager m
    → IsManager (close_rooms ids (m, n)).0
unfolding close_rooms
close_rooms-IsManager [] m n v = v
close_rooms-IsManager (id ∷ ids) m n v =
    let s = close_room id (m, n) in
    close_rooms-IsManager ids s.0 s.1 (close_room-IsManager id m n v)

pub cleanup_expired_rooms-IsManager :
    (cfg : Config) (now : ℕ) (m : RoomManager) (n : Net)
    → IsManager m
    → IsManager (cleanup_expired_rooms cfg now (m, n)).0
unfolding cleanup_expired_rooms
cleanup_expired_rooms-IsManager cfg now m n v = close_rooms-IsManager _ m n v
