-- ===== src/Manager/Tokens.antt =====
-- Invite tokens: who may use one, and that a token keeps its owner.
use null_key.Base.{
  ℕ, ◌≡◌, ◌≢◌, ◌↔◌, ◌⊎◌, true, ◌&&◌, [], ◌∷◌, Option, none, some, arith, Option-cases, inl, inr,
  if◌then◌else◌,
}
use null_key.Value.{Value, undefined, truthy, ◌===◌}
use null_key.JsMap.{Map, get, set}
use null_key.JsMap.Laws.{get-set}
use null_key.Config.{Config}
use null_key.Net.{Net, Frame}
use null_key.Manager.{
  RoomManager, unused, or_unused, tokens_or_new, add_room, add_client_to_room,
  remove_client_from_room, broadcast_to_room, verify_invite_token, bind_invite_token,
  add_invite_token,
}
use null_key.Manager.Invariant.{IsManager}

abbrev entry : Value → Option (Map Value) → Option Value
entry token none = none
entry token (some tokens) = get token tokens

-- The fingerprint that a token of a room is bound to, if the token is registered.
unfoldable pub token_owner : Value → Value → RoomManager → Option Value
token_owner id token m = entry token (get id m.invite_tokens)

-- A fingerprint that can own a token: one that passes as a condition.
pub truthy-or_unused : (f : Value) → truthy f ≡ true → (or_unused f ≡ f) × (f ≢ unused)
unfolding truthy
truthy-or_unused f h = ground arith

-- A token admits a fingerprint exactly if it is registered and nobody has used it, or that
-- fingerprint owns it.
pub verify_invite_token_iff :
    (id token fingerprint : Value) (m : RoomManager)
    → (verify_invite_token id token fingerprint m ≡ true)
      ↔ ((token_owner id token m ≡ some unused) ⊎ (token_owner id token m ≡ some fingerprint))
unfolding verify_invite_token token_owner
verify_invite_token_iff id token f m = ground arith

-- Binding changes the owner of an unused token, and nothing else.
pub token_owner-bind :
    (id token f j t : Value) (m : RoomManager)
    → token_owner j t (bind_invite_token id token f m).0 ≡ (
        if (bind_invite_token id token f m).1 && (id === j) && (token === t)
        then some (or_unused f)
        else token_owner j t m)
unfolding bind_invite_token token_owner
token_owner-bind id token f j t m = elim (Option-cases (get id m.invite_tokens)) [
  | inl e ↦ ground arith
  | inr (ts, e) ↦ ground (
    arith,
    get-set id j (set token (or_unused f) ts) m.invite_tokens,
    get-set token t (or_unused f) ts,
  )
]

-- Binding succeeds exactly on a registered token that nobody has used.
pub bind_invite_token_iff :
    (id token f : Value) (m : RoomManager)
    → ((bind_invite_token id token f m).1 ≡ true) ↔ (token_owner id token m ≡ some unused)
unfolding bind_invite_token token_owner
bind_invite_token_iff id token f m = ground arith

-- Once a token is bound to a fingerprint, it admits exactly that fingerprint.
pub verify-bind :
    (id token f g : Value) (m : RoomManager)
    → token_owner id token m ≡ some unused
    → truthy f ≡ true
    → (verify_invite_token id token g (bind_invite_token id token f m).0 ≡ true) ↔ (g ≡ f)
verify-bind id token f g m h t = grind (
  arith,
  verify_invite_token_iff id token g (bind_invite_token id token f m).0,
  token_owner-bind id token f id token m,
  bind_invite_token_iff id token f m,
  truthy-or_unused f t,
)

-- A bind of an unused token with no fingerprint reports success, and afterwards the token still passes
-- the check for everyone, with any fingerprint or none, and every token is as it was.
pub bind_undefined :
    (id token g j t : Value) (m : RoomManager)
    → token_owner id token m ≡ some unused
    → let (n, bound) = bind_invite_token id token undefined m in
      (bound ≡ true)
      × (verify_invite_token id token g n ≡ true)
      × (token_owner j t n ≡ token_owner j t m)
bind_undefined id token g j t m h = (
  ground (arith, h, bind_invite_token_iff id token undefined m),
  ground (
    arith,
    h,
    verify_invite_token_iff id token g (bind_invite_token id token undefined m).0,
    token_owner-bind id token undefined id token m,
    bind_invite_token_iff id token undefined m,
  ),
  ground (
    arith,
    token_owner-bind id token undefined j t m,
    bind_invite_token_iff id token undefined m,
  ),
)

-- Every token that is bound in `m` is bound to the same fingerprint in `m'`.
abbrev pub KeepsOwners : RoomManager → RoomManager → Type 0
KeepsOwners m m' =
    (j t b : Value) → token_owner j t m ≡ some b → b ≢ unused → token_owner j t m' ≡ some b

pub KeepsOwners-bind :
    (id token f : Value) (m : RoomManager) → KeepsOwners m (bind_invite_token id token f m).0
KeepsOwners-bind id token f m j t b h u =
    ground (arith, token_owner-bind id token f j t m, bind_invite_token_iff id token f m)

pub KeepsOwners-add_invite_token :
    (id token : Value) (m : RoomManager) → KeepsOwners m (add_invite_token id token m).0
unfolding add_invite_token token_owner
KeepsOwners-add_invite_token id token m j t b h u =
    let ts = tokens_or_new (get id m.invite_tokens) in
    ground (
      arith,
      get-set id j ts m.invite_tokens,
      get-set id j (set token unused ts) m.invite_tokens,
      get-set token t unused ts,
    )

pub KeepsOwners-add_room :
    (cfg : Config) (now : ℕ) (id token : Value) (m : RoomManager)
    → IsManager m
    → KeepsOwners m (add_room cfg now id token m).0
unfolding add_room token_owner
KeepsOwners-add_room cfg now id token m v j t b h u =
    ground (arith, get-set id j ((token, unused) ∷ []) m.invite_tokens, v.tokens_ok id)

-- The methods on clients leave the tokens alone.
pub add_client_to_room_tokens :
    (now ws : ℕ) (id : Value) (m : RoomManager)
    → (add_client_to_room now id ws m).0.invite_tokens ≡ m.invite_tokens
unfolding add_client_to_room
add_client_to_room_tokens now ws id m = ground arith

pub remove_client_from_room_tokens :
    (now ws : ℕ) (id : Value) (m : RoomManager)
    → (remove_client_from_room now id ws m).0.invite_tokens ≡ m.invite_tokens
unfolding remove_client_from_room
remove_client_from_room_tokens now ws id m = ground arith

pub broadcast_to_room_tokens :
    (now : ℕ) (id : Value) (f : Frame) (sender : Option ℕ) (m : RoomManager) (n : Net)
    → (broadcast_to_room now id f sender (m, n)).0.invite_tokens ≡ m.invite_tokens
unfolding broadcast_to_room
broadcast_to_room_tokens now id f sender m n = ground arith

pub KeepsOwners-of_tokens :
    (m m' : RoomManager) → m'.invite_tokens ≡ m.invite_tokens → KeepsOwners m m'
unfolding token_owner
KeepsOwners-of_tokens m m' e j t b h u = rw e h
