-- ===== src/Events/Isolation.antt =====
-- Where a message's effects can reach: the connection itself, and members of its own room.
use null_key.Base.{
  ℕ, ◌≡◌, ◌⊎◌, inl, inr, refl, sym, ◌∙◌, true, List, [], ◌∷◌, map, some, Option, Option-cases, All,
  arith, ℕ_discrete,
}
use null_key.Value.{Value}
use null_key.Config.{Config}
use null_key.JsMap.{get}
use null_key.Net.{Net, Frame, Effect, send, close}
use null_key.Net.Emits.{Emits, Emits-refl, Emits-trans, Emits-map}
use null_key.Protocol.{Message, Env}
use null_key.Room.{some_client}
use null_key.Manager.{RoomManager, broadcast_to_room}
use null_key.Manager.Members.{member, Steps-member}
use null_key.Manager.Broadcast.{broadcast_each_log, recipients, some_client-recipients}
use null_key.Relay.{Relay, broadcast}
use null_key.Events.{event_of, handle_client_message}
use null_key.Events.Actions.{
  Act, Acts, done, then_act, tells, closes, updates, calls, broadcasts, forwards, remembers, counts,
}
use null_key.Events.Safety.{RoomOf, handle_event-Acts, Acts-Steps}

-- An effect on the connection itself, or a frame to a member of a room that meets `K`.
abbrev pub Reaches : ℕ → (Value → Type 0) → RoomManager → Effect → Type 0
Reaches ws K m (send w f) = (w ≡ ws) ⊎ ((k : Value) × K k × (member w k m ≡ true))
Reaches ws K m (close w code) = w ≡ ws

All-sends :
    (P : Effect → Type 0) (f : Frame) (cs : List ℕ)
    → ((w : ℕ) → some_client w cs ≡ true → P (send w f))
    → All P (map (λ w. send w f) cs)
unfolding some_client
All-sends P f [] h = tt
All-sends P f (c ∷ cs) h = (h c (ground arith), All-sends P f cs (λ w m. h w (ground arith)))

broadcast_to_room-Emits :
    (P : Effect → Type 0) (now : ℕ) (k : Value) (f : Frame) (sender : Option ℕ) (m : RoomManager)
    (n : Net)
    → ((w : ℕ) → member w k m ≡ true → P (send w f))
    → Emits P n (broadcast_to_room now k f sender (m, n)).1
unfolding broadcast_to_room member
broadcast_to_room-Emits P now k f sender m n h = elim (Option-cases (get k m.rooms)) [
  | inl e ↦ rw (e, broadcast_to_room) (Emits-refl P n)
  | inr (r, e) ↦
      rw (e, broadcast_to_room)
        (
          map (λ w. send w f) (recipients n.is_open sender r.clients),
          broadcast_each_log f sender r.clients n,
          All-sends P f (recipients n.is_open sender r.clients) (λ w i.
              h w (rw e (ground (arith, some_client-recipients n.is_open sender w r.clients)))),
        )
]

module _ {cfg : Config} {ws : ℕ} {J K : Value → Type 0} where
  Act-Emits : {s t : Relay} → Act cfg ws J K s t → Emits (Reaches ws K s.manager) s.net t.net
  unfolding broadcast
  Act-Emits {s} (tells f) = (send ws f ∷ [], refl, (inl refl, tt))
  Act-Emits {s} (closes code) = (close ws code ∷ [], refl, (refl, tt))
  Act-Emits {s} (updates c) = Emits-refl _ s.net
  Act-Emits {s} (calls m p) = Emits-refl _ s.net
  Act-Emits {s} (broadcasts now k f h) =
      broadcast_to_room-Emits _ now k f (some ws) s.manager s.net (λ w m. inr (k, h, m))
  Act-Emits {s} (forwards w k f h m) = (send w f ∷ [], refl, (inr (k, h, m), tt))
  Act-Emits {s} (remembers seen h) = Emits-refl _ s.net
  Act-Emits {s} (counts buckets) = Emits-refl _ s.net

  -- Others were in the room before the actions, too.
  Reaches-before :
      {s t : Relay}
      → Acts cfg ws J K s t
      → (e : Effect) → Reaches ws K t.manager e
      → Reaches ws K s.manager e
  Reaches-before p (send w f) (inl h) = inl h
  Reaches-before p (send w f) (inr (k, h, m)) = elim (ℕ_discrete w ws) [
    | yes q ↦ inl q
    | no q ↦ inr (k, h, sym (Steps-member w k q (Acts-Steps p)) ∙ m)
  ]
  Reaches-before p (close w code) h = h

  pub Acts-Emits : {s t : Relay} → Acts cfg ws J K s t → Emits (Reaches ws K s.manager) s.net t.net
  Acts-Emits {s} done = Emits-refl _ s.net
  Acts-Emits {s} (then_act {t} {u} p a) =
      Emits-trans _ s.net t.net u.net (Acts-Emits p)
        (Emits-map _ _ t.net u.net (Reaches-before p) (Act-Emits a))

-- Whatever a client sends, the frames go to itself or to clients that were in its room: the room
-- that it was in, or the one that the message brought it to. No socket but its own is closed, and
-- nothing that was sent before is lost.
pub handle_client_message-Emits :
    (env : Env) (now ws : ℕ) (msg : Message) (s : Relay)
    → let t = handle_client_message env now ws msg s in
      Emits (Reaches ws (RoomOf ws s t) s.manager) s.net t.net
unfolding handle_client_message
handle_client_message-Emits env now ws msg s =
    Acts-Emits (handle_event-Acts env now ws (event_of msg.event) msg.payload s)
