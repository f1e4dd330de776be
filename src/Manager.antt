-- ===== src/Manager.antt =====
-- backend/src/rooms/manager.ts: RoomManager. Methods that send return the sockets' new state beside
-- the manager's.
pub mod Invariant
pub mod TokenLife
pub mod Tokens
pub mod Broadcast
pub mod Step
pub mod Members
pub mod Cleanup
use null_key.Base.{
  ℕ, Bool, true, false, not, ◌||◌, List, [], ◌∷◌, Option, none, some, ◌==◌, if◌then◌else◌,
}
use null_key.Value.{Value, undefined, text, truthy, ◌===◌}
use null_key.JsMap.{Map, get, has, set, delete, size, keys}
use null_key.Config.{Config}
use null_key.Net.{Net, Frame, room_closed, net_send, net_close}
use null_key.Room.{
  Room, new_room, add_client, remove_client, client_count, update_last_activity, is_expired,
}

pub record RoomManager : Type 0 where
  pub rooms : Map Room
  -- room → (token → bound fingerprint; '' means still unused)
  pub invite_tokens : Map (Map Value)

unfoldable pub new_manager : RoomManager
new_manager = record { rooms = []; invite_tokens = [] }

-- The mark of a token that nobody has used.
abbrev pub unused : Value
unused = text ""

unfoldable pub add_room : Config → ℕ → Value → Value → RoomManager → RoomManager × Bool
add_room cfg now room_id invite_token m = if has room_id m.rooms then (m, false) else (
  record {
    rooms = set room_id (new_room cfg now room_id) m.rooms;
    invite_tokens =
        if truthy invite_token
        then set room_id ((invite_token, unused) ∷ []) m.invite_tokens
        else m.invite_tokens;
  },
  true,
)

unfoldable pub add_client_to_room : ℕ → Value → ℕ → RoomManager → RoomManager × Bool
add_client_to_room now room_id ws m = elim (get room_id m.rooms) [
  | none ↦ (m, false)
  | some room ↦
      let (room', added) = add_client now ws room in
      (record m { rooms = set room_id room' m.rooms }, added)
]

unfoldable pub remove_client_from_room : ℕ → Value → ℕ → RoomManager → RoomManager × Bool
remove_client_from_room now room_id ws m = elim (get room_id m.rooms) [
  | none ↦ (m, false)
  | some room ↦
      let (room', removed) = remove_client now ws room in
      (record m { rooms = set room_id room' m.rooms }, removed)
]

unfoldable pub get_client_count : Value → RoomManager → ℕ
get_client_count room_id m = elim (get room_id m.rooms) [ none ↦ 0 | some room ↦ client_count room ]

-- !senderWs || client.ws !== senderWs
abbrev pub not_sender : Option ℕ → ℕ → Bool
not_sender none ws = true
not_sender (some s) ws = not (ws == s)

-- The body of the loop of `broadcastToRoom`.
unfoldable pub deliver : Frame → Option ℕ → ℕ → Net → Net
deliver frame sender ws n =
    if not_sender sender ws then (if n.is_open ws then net_send ws frame n else n) else n

unfoldable pub broadcast_each : Frame → Option ℕ → List ℕ → Net → Net
broadcast_each frame sender [] n = n
broadcast_each frame sender (ws ∷ rest) n =
    broadcast_each frame sender rest (deliver frame sender ws n)

unfoldable pub broadcast_to_room :
    ℕ → Value → Frame → Option ℕ → RoomManager × Net → RoomManager × Net
broadcast_to_room now room_id frame sender (m, n) = elim (get room_id m.rooms) [
  | none ↦ (m, n)
  | some room ↦ (
    record m { rooms = set room_id (update_last_activity now room) m.rooms },
    broadcast_each frame sender room.clients n,
  )
]

abbrev pub get_room : Value → RoomManager → Option Room
get_room room_id m = get room_id m.rooms

abbrev pub has_room : Value → RoomManager → Bool
has_room room_id m = has room_id m.rooms

unfoldable pub verify_invite_token : Value → Value → Value → RoomManager → Bool
verify_invite_token room_id token fingerprint m = elim (get room_id m.invite_tokens) [
  | none ↦ false
  | some tokens ↦ elim (get token tokens) [
    | none ↦ false
    | some bound ↦ bound === unused || bound === fingerprint
  ]
]

-- fingerprint ?? ''
abbrev pub or_unused : Value → Value
or_unused undefined = unused
or_unused Value.null = unused
or_unused fingerprint = fingerprint

unfoldable pub bind_invite_token : Value → Value → Value → RoomManager → RoomManager × Bool
bind_invite_token room_id token fingerprint m = elim (get room_id m.invite_tokens) [
  | none ↦ (m, false)
  | some tokens ↦ elim (get token tokens) [
    | none ↦ (m, false)
    | some bound ↦
        if bound === unused
        then (
          record m {
            invite_tokens = set room_id (set token (or_unused fingerprint) tokens) m.invite_tokens;
          },
          true,
        )
        else (m, false)
  ]
]

unfoldable pub invalidate_token : Value → Value → RoomManager → RoomManager
invalidate_token room_id token m = elim (get room_id m.invite_tokens) [
  | none ↦ m
  | some tokens ↦
      let rest = delete token tokens in
      if size rest == 0
      then record m { invite_tokens = delete room_id m.invite_tokens }
      else record m { invite_tokens = set room_id rest m.invite_tokens }
]

-- The token map of a room, or a new one.
abbrev tokens_or_new : Option (Map Value) → Map Value
tokens_or_new none = []
tokens_or_new (some tokens) = tokens

unfoldable pub add_invite_token : Value → Value → RoomManager → RoomManager × Bool
add_invite_token room_id token m =
    if has room_id m.rooms
    then (let tokens = tokens_or_new (get room_id m.invite_tokens) in
        if has token tokens
        then (record m { invite_tokens = set room_id tokens m.invite_tokens }, false)
        else (
          record m { invite_tokens = set room_id (set token unused tokens) m.invite_tokens },
          true,
        ))
    else (m, false)

-- The ids of the rooms that have expired, in the map's order.
unfoldable pub expired_rooms : Config → ℕ → Map Room → List Value
expired_rooms cfg now [] = []
expired_rooms cfg now ((id, room) ∷ rest) =
    let later = expired_rooms cfg now rest in if is_expired cfg now room then id ∷ later else later

-- The notice to a client of an expired room. What a socket throws there is swallowed.
unfoldable pub dismiss : ℕ → Net → Net
dismiss ws n = if n.is_open ws then net_close ws 4001 (net_send ws room_closed n) else n

unfoldable pub close_each : List ℕ → Net → Net
close_each [] n = n
close_each (ws ∷ rest) n = close_each rest (dismiss ws n)

unfoldable pub close_room : Value → RoomManager × Net → RoomManager × Net
close_room room_id (m, n) = (
  record { rooms = delete room_id m.rooms; invite_tokens = delete room_id m.invite_tokens },
  elim (get room_id m.rooms) [ none ↦ n | some room ↦ close_each room.clients n ],
)

unfoldable pub close_rooms : List Value → RoomManager × Net → RoomManager × Net
close_rooms [] s = s
close_rooms (id ∷ ids) s = close_rooms ids (close_room id s)

unfoldable pub cleanup_expired_rooms : Config → ℕ → RoomManager × Net → RoomManager × Net
cleanup_expired_rooms cfg now s = close_rooms (expired_rooms cfg now s.0.rooms) s

abbrev pub get_all_room_ids : RoomManager → List Value
get_all_room_ids m = keys m.rooms

abbrev pub get_room_count : RoomManager → ℕ
get_room_count m = size m.rooms
