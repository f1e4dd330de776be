-- ===== src/Manager/Step.antt =====
-- The calls that one connection's events make on the registry, as a step relation, and what every
-- sequence of them keeps.
use null_key.Base.{ℕ, Option}
use null_key.Value.{Value}
use null_key.Config.{Config}
use null_key.Net.{Net, Frame}
use null_key.Manager.{
  RoomManager, add_room, add_client_to_room, remove_client_from_room, broadcast_to_room,
  bind_invite_token, add_invite_token,
}
use null_key.Manager.Invariant.{
  IsManager, add_room-IsManager, add_client_to_room-IsManager, remove_client_from_room-IsManager,
  broadcast_to_room-IsManager, bind_invite_token-IsManager, add_invite_token-IsManager,
}
use null_key.Manager.Tokens.{
  KeepsOwners, KeepsOwners-bind, KeepsOwners-add_invite_token, KeepsOwners-add_room,
  KeepsOwners-of_tokens, add_client_to_room_tokens, remove_client_from_room_tokens,
  broadcast_to_room_tokens,
}

-- A method called on behalf of the connection `ws`: it adds and removes that client only, and adds
-- it only to rooms that meet `J`.
pub data Step (cfg : Config) (ws : ℕ) (J : Value → Type 0) (m : RoomManager)
    : RoomManager → Type 0 where
  adds_room : (now : ℕ) (id token : Value) → Step cfg ws J m (add_room cfg now id token m).0
  adds_client : (now : ℕ) (id : Value) → J id → Step cfg ws J m (add_client_to_room now id ws m).0
  removes_client : (now : ℕ) (id : Value) → Step cfg ws J m (remove_client_from_room now id ws m).0
  broadcasts :
      (now : ℕ) (id : Value) (f : Frame) (sender : Option ℕ) (n : Net)
      → Step cfg ws J m (broadcast_to_room now id f sender (m, n)).0
  binds :
      (id token fingerprint : Value) → Step cfg ws J m (bind_invite_token id token fingerprint m).0
  adds_token : (id token : Value) → Step cfg ws J m (add_invite_token id token m).0

pub data Steps (cfg : Config) (ws : ℕ) (J : Value → Type 0) (m : RoomManager)
    : RoomManager → Type 0 where
  here : Steps cfg ws J m m
  next : {k l : RoomManager} → Steps cfg ws J m k → Step cfg ws J k l → Steps cfg ws J m l

pub Steps-trans :
    {cfg : Config} {ws : ℕ} {J : Value → Type 0} {a b c : RoomManager}
    → Steps cfg ws J a b
    → Steps cfg ws J b c
    → Steps cfg ws J a c
Steps-trans p here = p
Steps-trans p (next q s) = next (Steps-trans p q) s

Step-IsManager :
    {cfg : Config} {ws : ℕ} {J : Value → Type 0} {m k : RoomManager}
    → Step cfg ws J m k
    → IsManager m
    → IsManager k
Step-IsManager {cfg} {ws} {m} (adds_room now id token) v = add_room-IsManager cfg now id token m v
Step-IsManager {cfg} {ws} {m} (adds_client now id j) v = add_client_to_room-IsManager now ws id m v
Step-IsManager {cfg} {ws} {m} (removes_client now id) v =
    remove_client_from_room-IsManager now ws id m v
Step-IsManager {cfg} {ws} {m} (broadcasts now id f sender n) v =
    broadcast_to_room-IsManager now id f sender m n v
Step-IsManager {cfg} {ws} {m} (binds id token f) v = bind_invite_token-IsManager id token f m v
Step-IsManager {cfg} {ws} {m} (adds_token id token) v = add_invite_token-IsManager id token m v

pub Steps-IsManager :
    {cfg : Config} {ws : ℕ} {J : Value → Type 0} {m k : RoomManager}
    → Steps cfg ws J m k
    → IsManager m
    → IsManager k
Steps-IsManager here v = v
Steps-IsManager (next p s) v = Step-IsManager s (Steps-IsManager p v)

Step-KeepsOwners :
    {cfg : Config} {ws : ℕ} {J : Value → Type 0} {m k : RoomManager}
    → Step cfg ws J m k
    → IsManager m
    → KeepsOwners m k
Step-KeepsOwners {cfg} {ws} {m} (adds_room now id token) v =
    KeepsOwners-add_room cfg now id token m v
Step-KeepsOwners {cfg} {ws} {m} (adds_client now id j) v =
    KeepsOwners-of_tokens m _ (add_client_to_room_tokens now ws id m)
Step-KeepsOwners {cfg} {ws} {m} (removes_client now id) v =
    KeepsOwners-of_tokens m _ (remove_client_from_room_tokens now ws id m)
Step-KeepsOwners {cfg} {ws} {m} (broadcasts now id f sender n) v =
    KeepsOwners-of_tokens m _ (broadcast_to_room_tokens now id f sender m n)
Step-KeepsOwners {cfg} {ws} {m} (binds id token f) v = KeepsOwners-bind id token f m
Step-KeepsOwners {cfg} {ws} {m} (adds_token id token) v = KeepsOwners-add_invite_token id token m

pub Steps-KeepsOwners :
    {cfg : Config} {ws : ℕ} {J : Value → Type 0} {m k : RoomManager}
    → Steps cfg ws J m k
    → IsManager m
    → KeepsOwners m k
Steps-KeepsOwners here v j t b h u = h
Steps-KeepsOwners (next p s) v j t b h u =
    Step-KeepsOwners s (Steps-IsManager p v) j t b (Steps-KeepsOwners p v j t b h u) u
