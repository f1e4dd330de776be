-- ===== src/Events/Safety.antt =====
-- What every message from a connection keeps, whatever it holds.
use null_key.Base.{ℕ, ◌≡◌, ◌≢◌, ◌⊎◌, inl, inr, refl, sym, ◌∙◌, some, arith, if◌then◌else◌}
use null_key.Value.{Value, truthy}
use null_key.Config.{Config}
use null_key.Protocol.{Payload, Body, fields, Env}
use null_key.Manager.Step.{Steps, Steps-trans, here, next, broadcasts}
use null_key.ReplayGuard.Window.{IsSeen}
use null_key.Relay.{Client, Relay, broadcast}
use null_key.Handler.{identify}
use null_key.Events.{
  Event, room_create, room_join, key_exchange, message_send, typing_starts, typing_stops,
  room_leave, invite_create, unknown, handle_event,
}
use null_key.Events.Actions.{
  Act, Acts, done, then_act, tells, closes, updates, calls, forwards, remembers, counts,
  Acts-send_error,
}
use null_key.Events.Actions
use null_key.Events.Handlers.{
  MayEnter, handle_room_create-Acts, handle_room_join-Acts, handle_key_exchange-Acts,
}
use null_key.Events.Messages.{
  handle_send_message-Acts, handle_invite_create-Acts, handle_typing_event-Acts,
  handle_room_leave-Acts,
}

-- The room of the connection before the event, or its room after it.
abbrev pub RoomOf : ℕ → Relay → Relay → Value → Type 0
RoomOf ws s t k = (k ≡ (s.clients ws).room_id) ⊎ (k ≡ (t.clients ws).room_id)

-- The fingerprint that a message offers with its token: `room:join` takes the payload's alone,
-- `room:create` falls back on the connection's.
abbrev pub presented : Event → Payload → Client → Value
presented room_join p c = p.sender_fingerprint
presented _ p c = if truthy p.sender_fingerprint then p.sender_fingerprint else c.fingerprint

-- The message is a `room:create` or a `room:join` for the room, which is new, or for which the
-- message holds a token that is good for the fingerprint that it offers.
abbrev pub MayJoin : ℕ → Event → Body → Relay → Value → Type 0
MayJoin ws e b s k =
    (p : Payload) × (b ≡ fields p)
    × (k ≡ p.room_id)
    × ((e ≡ room_create) ⊎ (e ≡ room_join))
    × MayEnter p (presented e p (s.clients ws)) s

fingerprint-identify :
    (ws : ℕ) (p : Payload) (s : Relay)
    → ((identify ws p s).clients ws).fingerprint ≡ presented room_create p (s.clients ws)
unfolding identify
fingerprint-identify ws p s = ground arith

manager-identify : (ws : ℕ) (p : Payload) (s : Relay) → (identify ws p s).manager ≡ s.manager
unfolding identify
manager-identify ws p s = refl

identified :
    (ws : ℕ) (p : Payload) (s : Relay)
    → MayEnter p ((identify ws p s).clients ws).fingerprint (identify ws p s)
    → MayEnter p (presented room_create p (s.clients ws)) s
identified ws p s h = rw (fingerprint-identify ws p s, manager-identify ws p s) at h

pub handle_event-Acts :
    (env : Env) (now ws : ℕ) (e : Event) (b : Body) (s : Relay)
    → Acts env.config ws
        (MayJoin ws e b s)
        (RoomOf ws s (handle_event env now ws e b s))
        s
        (handle_event env now ws e b s)
unfolding handle_event
handle_event-Acts env now ws room_create b s =
    handle_room_create-Acts env now ws _ _ b s (λ k h. inr (sym h))
      (λ p e h. (p, e, refl, inl refl, identified ws p s h))
handle_event-Acts env now ws room_join b s =
    handle_room_join-Acts env now ws _ _ b s (λ k h. inr (sym h))
      (λ p e h. (p, e, refl, inr refl, h))
handle_event-Acts env now ws key_exchange b s =
    handle_key_exchange-Acts env now ws _ _ b s (inl refl)
handle_event-Acts env now ws message_send b s =
    handle_send_message-Acts env now ws _ _ b s (inl refl)
handle_event-Acts env now ws typing_starts b s =
    handle_typing_event-Acts env now ws _ _ _ s (inl refl)
handle_event-Acts env now ws typing_stops b s =
    handle_typing_event-Acts env now ws _ _ _ s (inl refl)
handle_event-Acts env now ws room_leave b s = handle_room_leave-Acts env now ws _ _ s (inl refl)
handle_event-Acts env now ws invite_create b s = handle_invite_create-Acts env now ws _ _ b s
handle_event-Acts env now ws unknown b s = Acts-send_error done env.config _

module _ {cfg : Config} {ws : ℕ} {J K : Value → Type 0} where
  Act-Steps : {s t : Relay} → Act cfg ws J K s t → Steps cfg ws J s.manager t.manager
  unfolding broadcast
  Act-Steps (tells f) = here
  Act-Steps (closes code) = here
  Act-Steps (updates c) = here
  Act-Steps (calls m p) = next here p
  Act-Steps {s} (Actions.Act.broadcasts now k f h) = next here (broadcasts now k f (some ws) s.net)
  Act-Steps (forwards w k f h m) = here
  Act-Steps (remembers seen h) = here
  Act-Steps (counts buckets) = here

  pub Acts-Steps : {s t : Relay} → Acts cfg ws J K s t → Steps cfg ws J s.manager t.manager
  Acts-Steps done = here
  Acts-Steps (then_act p a) = Steps-trans (Acts-Steps p) (Act-Steps a)

  Act-clients : {s t : Relay} (w : ℕ) → w ≢ ws → Act cfg ws J K s t → t.clients w ≡ s.clients w
  unfolding broadcast
  Act-clients w d (tells f) = refl
  Act-clients w d (closes code) = refl
  Act-clients w d (updates c) = ground arith
  Act-clients w d (calls m p) = refl
  Act-clients w d (Actions.Act.broadcasts now k f h) = refl
  Act-clients w d (forwards v k f h m) = refl
  Act-clients w d (remembers seen h) = refl
  Act-clients w d (counts buckets) = refl

  pub Acts-clients :
      {s t : Relay} (w : ℕ) → w ≢ ws → Acts cfg ws J K s t → t.clients w ≡ s.clients w
  Acts-clients w d done = refl
  Acts-clients w d (then_act p a) = Act-clients w d a ∙ Acts-clients w d p

  Act-IsSeen : {s t : Relay} → Act cfg ws J K s t → IsSeen s.seen → IsSeen t.seen
  unfolding broadcast
  Act-IsSeen (tells f) v = v
  Act-IsSeen (closes code) v = v
  Act-IsSeen (updates c) v = v
  Act-IsSeen (calls m p) v = v
  Act-IsSeen (Actions.Act.broadcasts now k f h) v = v
  Act-IsSeen (forwards w k f h m) v = v
  Act-IsSeen (remembers seen h) v = h v
  Act-IsSeen (counts buckets) v = v

  pub Acts-IsSeen : {s t : Relay} → Acts cfg ws J K s t → IsSeen s.seen → IsSeen t.seen
  Acts-IsSeen done v = v
  Acts-IsSeen (then_act p a) v = Act-IsSeen a (Acts-IsSeen p v)
