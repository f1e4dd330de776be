-- ===== src/Manager/Members.antt =====
-- Who is in which room, through the calls of one connection.
use null_key.Base.{
  ℕ, ◌≡◌, ◌≢◌, ◌⊎◌, sym, subst, ◌∙◌, refl, Bool, true, false, ◌&&◌, Option, none, some, arith,
  Option-cases, inl, inr, if◌then◌else◌, ◌==◌,
}
use null_key.Value.{Value, value_discrete, ◌===◌}
use null_key.JsMap.{get}
use null_key.JsMap.Laws.{get-set}
use null_key.Config.{Config}
use null_key.Net.{Net, Frame}
use null_key.Room.{Room, new_room, some_client, add_client, remove_client, update_last_activity}
use null_key.Room.Capacity.{add_client_members, remove_client_members}
use null_key.Manager.{
  RoomManager, add_room, add_client_to_room, remove_client_from_room, broadcast_to_room,
  bind_invite_token, add_invite_token,
}
use null_key.Manager.Step.{
  Step, adds_room, adds_client, removes_client, broadcasts, binds, adds_token, Steps, here, next,
}

-- The members of a room that was found.
abbrev pub found_member : ℕ → Option Room → Bool
found_member w none = false
found_member w (some r) = some_client w r.clients

-- Whether a socket is listed in a room.
unfoldable pub member : ℕ → Value → RoomManager → Bool
member w k m = found_member w (get k m.rooms)

pub member-add_room :
    (cfg : Config) (now w : ℕ) (id token k : Value) (m : RoomManager)
    → member w k (add_room cfg now id token m).0 ≡ member w k m
unfolding member add_room new_room some_client
member-add_room cfg now w id token k m = ground (arith, get-set id k (new_room cfg now id) m.rooms)

-- After `addClientToRoom` the members are the old ones, and the client if it was added.
pub member-add_client_to_room :
    (now ws w : ℕ) (id k : Value) (m : RoomManager)
    → let (m', added) = add_client_to_room now id ws m in
      member w k m'
      ≡ (if member w k m then true else if ws == w then added && (id === k) else false)
unfolding member add_client_to_room
member-add_client_to_room now ws w id k m = elim (Option-cases (get id m.rooms)) [
  | inl e ↦ ground arith
  | inr (r, e) ↦
      ground (arith, get-set id k (add_client now ws r).0 m.rooms, add_client_members now ws w r)
]

-- After `removeClientFromRoom` the client is not in that room, and every other membership is as it
-- was.
pub member-remove_client_from_room :
    (now ws w : ℕ) (id k : Value) (m : RoomManager)
    → member w k (remove_client_from_room now id ws m).0
      ≡ (if ws == w && (id === k) then false else member w k m)
unfolding member remove_client_from_room
member-remove_client_from_room now ws w id k m = elim (Option-cases (get id m.rooms)) [
  | inl e ↦ ground arith
  | inr (r, e) ↦
      ground
        (arith, get-set id k (remove_client now ws r).0 m.rooms, remove_client_members now ws w r)
]

pub member-broadcast_to_room :
    (now w : ℕ) (id k : Value) (f : Frame) (sender : Option ℕ) (m : RoomManager) (n : Net)
    → member w k (broadcast_to_room now id f sender (m, n)).0 ≡ member w k m
unfolding member broadcast_to_room update_last_activity
member-broadcast_to_room now w id k f sender m n = elim (Option-cases (get id m.rooms)) [
  | inl e ↦ ground arith
  | inr (r, e) ↦ ground (arith, get-set id k (update_last_activity now r) m.rooms)
]

rooms-bind :
    (id token f : Value) (m : RoomManager) → (bind_invite_token id token f m).0.rooms ≡ m.rooms
unfolding bind_invite_token
rooms-bind id token f m = ground arith

rooms-add_invite_token :
    (id token : Value) (m : RoomManager) → (add_invite_token id token m).0.rooms ≡ m.rooms
unfolding add_invite_token
rooms-add_invite_token id token m = ground arith

Step-member :
    {cfg : Config} {ws : ℕ} {J : Value → Type 0} {m m' : RoomManager} (w : ℕ) (k : Value)
    → w ≢ ws
    → Step cfg ws J m m'
    → member w k m' ≡ member w k m
Step-member {cfg} {m} w k d (adds_room now id token) = member-add_room cfg now w id token k m
Step-member {ws} {m} w k d (adds_client now id j) =
    ground (arith, member-add_client_to_room now ws w id k m)
Step-member {ws} {m} w k d (removes_client now id) =
    ground (arith, member-remove_client_from_room now ws w id k m)
Step-member {m} w k d (broadcasts now id f sender n) =
    member-broadcast_to_room now w id k f sender m n
Step-member {m} w k d (binds id token f) = unfold member in rw (rooms-bind id token f m)
Step-member {m} w k d (adds_token id token) =
    unfold member in rw (rooms-add_invite_token id token m)

-- The calls for one connection leave every other client where it is.
pub Steps-member :
    {cfg : Config} {ws : ℕ} {J : Value → Type 0} {m m' : RoomManager} (w : ℕ) (k : Value)
    → w ≢ ws
    → Steps cfg ws J m m'
    → member w k m' ≡ member w k m
Steps-member w k d here = refl
Steps-member w k d (next p s) = Step-member w k d s ∙ Steps-member w k d p

Step-joins :
    {cfg : Config} {ws : ℕ} {J : Value → Type 0} {m m' : RoomManager} (k : Value)
    → Step cfg ws J m m'
    → member ws k m' ≡ true
    → (member ws k m ≡ true) ⊎ J k
Step-joins {cfg} {ws} {m} k (adds_room now id token) h =
    inl (sym (member-add_room cfg now ws id token k m) ∙ h)
Step-joins {ws} {J} {m} k (adds_client now id j) h = elim (value_discrete id k) [
  | yes e ↦ inr (subst J e j)
  | no d ↦ inl (ground (arith, member-add_client_to_room now ws ws id k m))
]
Step-joins {ws} {m} k (removes_client now id) h =
    inl (ground (arith, member-remove_client_from_room now ws ws id k m))
Step-joins {ws} {m} k (broadcasts now id f sender n) h =
    inl (sym (member-broadcast_to_room now ws id k f sender m n) ∙ h)
Step-joins {m} k (binds id token f) h = inl (unfold member in rw (rooms-bind id token f m) at h)
Step-joins {m} k (adds_token id token) h =
    inl (unfold member in rw (rooms-add_invite_token id token m) at h)

-- The connection is in a room that it was in before, or in one that it was let into.
pub Steps-joins :
    {cfg : Config} {ws : ℕ} {J : Value → Type 0} {m m' : RoomManager} (k : Value)
    → Steps cfg ws J m m'
    → member ws k m' ≡ true
    → (member ws k m ≡ true) ⊎ J k
Steps-joins k here h = inl h
Steps-joins k (next p s) h = elim (Step-joins k s h) [ inl e ↦ Steps-joins k p e | inr j ↦ inr j ]
