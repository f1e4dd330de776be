-- ===== src/Events/Messages.antt =====
-- `message:send` and the handlers of Events.antt are sequences of actions, too, and reach only the
-- room that the connection is in.
use null_key.Base.{
  ℕ, ◌≡◌, true, not, ◌&&◌, ◌||◌, ◌*◌, some, ◌∷◌, [], List, Option-cases, Bool-cases, inl, inr,
  arith,
}
use null_key.Value.{Value, undefined, text, truthy, is_number, ◌===◌}
use null_key.Net.{
  Frame, not_in_a_room, missing_message_fields, room_id_mismatch, invalid_recipient,
  rate_limit_exceeded, missing_file_size, file_too_large, duplicate_message, missing_invite_fields,
  not_in_this_room, failed_to_register, invite_registered, left_room,
}
use null_key.Protocol.{Payload, Body, falsy, scalar, fields, Env}
use null_key.Validation.{validate_message, validate_invite_creation}
use null_key.JsMap.{get}
use null_key.Room.{some_client}
use null_key.Manager.{add_invite_token, remove_client_from_room}
use null_key.Manager.Step.{removes_client, adds_token}
use null_key.Manager.Members.{member}
use null_key.ReplayGuard.{check_and_mark}
use null_key.RateLimit.{check_message_rate_limit}
use null_key.Relay.{Client, Relay, set_manager, announce_left}
use null_key.Handler.{enter, forward_message_to_client, find_client}
use null_key.Sending.{
  forward, forward_if_fresh, exceeds, forward_file_checked, forward_rate_limited, send_in_room,
  send_validated, handle_send_message, outgoing, recipient_of,
}
use null_key.Events.{
  register_invite, handle_invite_create, handle_typing_event, handle_room_leave,
  handle_client_disconnect,
}
use null_key.ReplayGuard.Window.{check_and_mark-IsSeen, purge-IsSeen}
use null_key.Events.Actions.{
  Acts, done, then_act, updates, calls, broadcasts, forwards, remembers, counts, Acts-trans,
  Acts-if, Acts-send_success, Acts-send_error, Acts-announce_left,
}

find_client-some_client :
    (clients : ℕ → Client) (target : Value) (cs : List ℕ) {w : ℕ}
    → find_client clients target cs ≡ some w
    → some_client w cs ≡ true
unfolding find_client some_client
find_client-some_client clients target [] h = cc
find_client-some_client clients target (c ∷ cs) {w} h =
    ground (arith, find_client-some_client clients target cs {w = w})

module _ (env : Env) (now ws : ℕ) (J K : Value → Type 0) where
  forward_message_to_client-Acts :
      (k : Value) (f : Frame) (target : Value) (s : Relay)
      → K k
      → Acts env.config ws J K s (forward_message_to_client k f target s).0
  unfolding forward_message_to_client
  forward_message_to_client-Acts k f target s h = elim (Option-cases (get k s.manager.rooms)) [
    | inl e ↦ rw (e, forward_message_to_client) done
    | inr (r, e) ↦ elim (Option-cases (find_client s.clients target r.clients)) [
      | inl g ↦ rw (e, g, forward_message_to_client) done
      | inr (w, g) ↦ elim (Bool-cases (s.net.is_open w)) [
        | inl o ↦
            rw (e, g, o, forward_message_to_client)
              (then_act done (
                forwards w k f h
                  (unfold member in rw e (find_client-some_client s.clients target r.clients g))))
        | inr o ↦ rw (e, g, o, forward_message_to_client) done
      ]
    ]
  ]

  module _ (p : Payload) where
    forward-Acts :
        (s : Relay) → K (s.clients ws).room_id → Acts env.config ws J K s (forward now ws p s)
    unfolding forward
    forward-Acts s k =
        Acts-if (truthy (recipient_of p))
          (λ _.
            forward_message_to_client-Acts (s.clients ws).room_id (outgoing p) (recipient_of p) s k)
          (λ _. then_act done (broadcasts now (s.clients ws).room_id (outgoing p) k))

    forward_if_fresh-Acts :
        (s : Relay)
        → K (s.clients ws).room_id
        → Acts env.config ws J K s (forward_if_fresh env now ws p s)
    unfolding forward_if_fresh
    forward_if_fresh-Acts s k =
        let r =
          check_and_mark env.config p.sender_fingerprint p.nonce now
            (env.config.message_ttl_minutes * 60 * 1000) s.seen in
        let marked : Acts env.config ws J K s (record s { seen = r.0 }) = then_act done (
          remembers r.0 (
            check_and_mark-IsSeen env.config p.sender_fingerprint p.nonce now
              (env.config.message_ttl_minutes * 60 * 1000) s.seen)) in
        Acts-if env.config.replay_protection_enabled
          (λ _.
            Acts-if r.1 (λ _. Acts-trans marked (forward-Acts (record s { seen = r.0 }) k))
              (λ _. Acts-send_error marked env.config duplicate_message))
          (λ _. forward-Acts s k)

    forward_file_checked-Acts :
        (s : Relay)
        → K (s.clients ws).room_id
        → Acts env.config ws J K s (forward_file_checked env now ws p s)
    unfolding forward_file_checked
    forward_file_checked-Acts s k =
        Acts-if (p.message_type === text "file")
          (λ _.
            Acts-if (not (truthy p.file_size) || not (is_number p.file_size))
              (λ _. Acts-send_error done env.config missing_file_size)
              (λ _.
                Acts-if (exceeds p.file_size env.config.max_file_size_bytes)
                  (λ _. Acts-send_error done env.config file_too_large)
                  (λ _. forward_if_fresh-Acts s k)))
          (λ _. forward_if_fresh-Acts s k)

    forward_rate_limited-Acts :
        (s : Relay)
        → K (s.clients ws).room_id
        → Acts env.config ws J K s (forward_rate_limited env now ws p s)
    unfolding forward_rate_limited
    forward_rate_limited-Acts s k =
        let r =
          check_message_rate_limit env.config now (s.clients ws).fingerprint
            s.message_rate_buckets in
        let s' = record s { message_rate_buckets = r.0 } in
        let counted : Acts env.config ws J K s s' = then_act done (counts r.0) in
        Acts-if (not r.1) (λ _. Acts-send_error counted env.config rate_limit_exceeded)
          (λ _. Acts-trans counted (forward_file_checked-Acts s' k))

    send_in_room-Acts :
        (s : Relay)
        → K (s.clients ws).room_id
        → Acts env.config ws J K s (send_in_room env now ws p s)
    unfolding send_in_room
    send_in_room-Acts s k =
        Acts-if (not (p.room_id === (s.clients ws).room_id))
          (λ _. Acts-send_error done env.config room_id_mismatch)
          (λ _.
            Acts-if (not (p.recipient_fingerprint === undefined) && not (truthy (recipient_of p)))
              (λ _. Acts-send_error done env.config invalid_recipient)
              (λ _. forward_rate_limited-Acts s k))

  send_validated-Acts :
      (b : Body) (s : Relay)
      → K (s.clients ws).room_id
      → Acts env.config ws J K s (send_validated env now ws b s)
  unfolding send_validated
  send_validated-Acts falsy s k = Acts-send_error done env.config missing_message_fields
  send_validated-Acts scalar s k = Acts-send_error done env.config missing_message_fields
  send_validated-Acts (fields p) s k =
      Acts-if (not (validate_message env (fields p)))
        (λ _. Acts-send_error done env.config missing_message_fields) (λ _. send_in_room-Acts p s k)

  pub handle_send_message-Acts :
      (b : Body) (s : Relay)
      → K (s.clients ws).room_id
      → Acts env.config ws J K s (handle_send_message env now ws b s)
  unfolding handle_send_message
  handle_send_message-Acts b s k =
      Acts-if (not (truthy (s.clients ws).room_id))
        (λ _. Acts-send_error done env.config not_in_a_room) (λ _. send_validated-Acts b s k)

  register_invite-Acts :
      (p : Payload) (s : Relay) → Acts env.config ws J K s (register_invite env ws p s)
  unfolding register_invite
  register_invite-Acts p s =
      let r = add_invite_token p.room_id p.invite_token s.manager in
      let added : Acts env.config ws J K s (set_manager r.0 s) =
        then_act done (calls r.0 (adds_token p.room_id p.invite_token)) in
      Acts-if (not (truthy (s.clients ws).room_id) || not ((s.clients ws).room_id === p.room_id))
        (λ _. Acts-send_error done env.config not_in_this_room)
        (λ _.
          Acts-if r.1 (λ _. Acts-send_success added invite_registered)
            (λ _. Acts-send_error added env.config failed_to_register))

  pub handle_invite_create-Acts :
      (b : Body) (s : Relay) → Acts env.config ws J K s (handle_invite_create env ws b s)
  unfolding handle_invite_create
  handle_invite_create-Acts falsy s = Acts-send_error done env.config missing_invite_fields
  handle_invite_create-Acts scalar s = Acts-send_error done env.config missing_invite_fields
  handle_invite_create-Acts (fields p) s =
      Acts-if (not (validate_invite_creation env (fields p)))
        (λ _. Acts-send_error done env.config missing_invite_fields) (λ _. register_invite-Acts p s)

  pub handle_typing_event-Acts :
      (f : Value → Value → Frame) (s : Relay)
      → K (s.clients ws).room_id
      → Acts env.config ws J K s (handle_typing_event now ws f s)
  unfolding handle_typing_event
  handle_typing_event-Acts f s k =
      Acts-if (not (truthy (s.clients ws).room_id)) (λ _. done)
        (λ _. then_act done (broadcasts now (s.clients ws).room_id _ k))

  pub handle_room_leave-Acts :
      (s : Relay) → K (s.clients ws).room_id → Acts env.config ws J K s (handle_room_leave now ws s)
  unfolding handle_room_leave
  handle_room_leave-Acts s k =
      let c = s.clients ws in
      let told = announce_left now c.room_id ws s in
      let m = (remove_client_from_room now c.room_id ws told.manager).0 in
      let gone : Acts env.config ws J K s (enter ws undefined (set_manager m told)) =
        then_act
          (then_act (Acts-announce_left done now c.room_id k)
            (calls m (removes_client now c.room_id)))
          (updates _) in
      Acts-if (truthy c.room_id)
        (λ _.
          Acts-send_success
            (Acts-if (truthy c.fingerprint)
              (λ _. then_act gone (remembers _ (purge-IsSeen c.fingerprint _))) (λ _. gone))
            left_room)
        (λ _. done)

  pub handle_client_disconnect-Acts :
      (s : Relay)
      → K (s.clients ws).room_id
      → Acts env.config ws J K s (handle_client_disconnect now ws s)
  unfolding handle_client_disconnect
  handle_client_disconnect-Acts s k =
      let c = s.clients ws in
      let m = (remove_client_from_room now c.room_id ws s.manager).0 in
      let told =
        Acts-announce_left (then_act done (calls m (removes_client now c.room_id))) now c.room_id
          k in
      Acts-if (truthy c.room_id)
        (λ _.
          Acts-if (truthy c.fingerprint)
            (λ _. then_act (then_act told (remembers _ (purge-IsSeen c.fingerprint _))) (counts _))
            (λ _. told))
        (λ _. done)
