-- ===== src/Events/Handlers.antt =====
-- Every handler is a sequence of actions for its own connection. `K` holds of the rooms that the
-- handler reaches.
use null_key.Base.{
  not-false, ℕ, ◌≡◌, true, false, not, ◌&&◌, ◌⊎◌, leb, refl, none, Bool-cases, inl, inr, arith,
}
use null_key.Value.{Value, truthy, ◌===◌}
use null_key.Validation.{validate_room_creation, validate_room_join, validate_key_exchange}
use null_key.Net.{
  missing_room_or_token, missing_key_exchange_fields, room_not_found, invalid_invite_token,
  room_full, room_id_mismatch, key_exchange,
}
use null_key.Protocol.{Payload, Body, falsy, scalar, fields, Env}
use null_key.JsMap.{get}
use null_key.Manager.{add_room, has_room, get_client_count, add_client_to_room, verify_invite_token}
use null_key.Manager.Step.{adds_room, adds_client, binds}
use null_key.Relay.{Relay, set_manager, send_success, announce_joined}
use null_key.Handler.{
  identify, rejoin_room, create_room, handle_room_create, admit, join_room, handle_room_join,
  exchange_key, handle_key_exchange,
}
use null_key.Events.Actions.{
  Acts, done, then_act, updates, calls, broadcasts, Acts-trans, Acts-if, Acts-send_success,
  Acts-send_error, Acts-announce_joined,
}

-- The client may be let in: the room is new, or the token is good for the fingerprint.
abbrev pub MayEnter : Payload → Value → Relay → Type 0
MayEnter p fingerprint s =
    (get p.room_id s.manager.rooms ≡ none)
    ⊎ (verify_invite_token p.room_id p.invite_token fingerprint s.manager ≡ true)

-- The registry lets the client in.
abbrev Added : ℕ → ℕ → Payload → Relay → Type 0
Added now ws p s = (add_client_to_room now p.room_id ws s.manager).1 ≡ true

module _ (env : Env) (now ws : ℕ) (J K : Value → Type 0) where
  module _ (p : Payload) where
    rejoin_room_enters :
        (s : Relay)
        → verify_invite_token p.room_id p.invite_token (s.clients ws).fingerprint s.manager ≡ true
        → Added now ws p s
        → ((rejoin_room env now ws p s).clients ws).room_id ≡ p.room_id
    unfolding rejoin_room announce_joined send_success
    rejoin_room_enters s v a = ground arith

    admit_enters :
        (s : Relay) → Added now ws p s → ((admit env now ws p s).clients ws).room_id ≡ p.room_id
    unfolding admit announce_joined send_success
    admit_enters s a = ground arith

    rejoin_room-Acts :
        (s : Relay)
        → (((rejoin_room env now ws p s).clients ws).room_id ≡ p.room_id → K p.room_id)
        → (verify_invite_token p.room_id p.invite_token (s.clients ws).fingerprint s.manager ≡ true
            → J p.room_id)
        → Acts env.config ws J K s (rejoin_room env now ws p s)
    unfolding rejoin_room
    rejoin_room-Acts s k j =
        let r = add_client_to_room now p.room_id ws s.manager in
        let valid =
          verify_invite_token p.room_id p.invite_token (s.clients ws).fingerprint s.manager in
        elim (Bool-cases valid) [
          | inl e ↦
              let came : Acts env.config ws J K s (set_manager r.0 s) =
                then_act done (calls r.0 (adds_client now p.room_id (j e))) in
              elim (Bool-cases r.1) [
                | inl a ↦
                    rw (e, a, rejoin_room)
                      (Acts-announce_joined (Acts-send_success (then_act came (updates _)) _) now
                        p.room_id (k (rejoin_room_enters s e a)))
                | inr a ↦ rw (e, a, rejoin_room) (Acts-send_error came env.config _)
              ]
          | inr e ↦ rw (e, rejoin_room) (Acts-send_error done env.config _)
        ]

    add_room_new :
        (s : Relay)
        → (add_room env.config now p.room_id p.invite_token s.manager).1 ≡ true
        → get p.room_id s.manager.rooms ≡ none
    unfolding add_room
    add_room_new s h = ground arith

    add_room_old :
        (s : Relay)
        → (add_room env.config now p.room_id p.invite_token s.manager).1 ≡ false
        → (add_room env.config now p.room_id p.invite_token s.manager).0 ≡ s.manager
    unfolding add_room
    add_room_old s h = ground arith

    create_room-Acts :
        (s : Relay)
        → (((create_room env now ws p s).clients ws).room_id ≡ p.room_id → K p.room_id)
        → (MayEnter p (s.clients ws).fingerprint s → J p.room_id)
        → Acts env.config ws J K s (create_room env now ws p s)
    unfolding create_room
    create_room-Acts s k j =
        let r = add_room env.config now p.room_id p.invite_token s.manager in
        let made : Acts env.config ws J K s (set_manager r.0 s) =
          then_act done (calls r.0 (adds_room now p.room_id p.invite_token)) in
        elim (Bool-cases r.1) [
          | inl e ↦
              rw (e, create_room)
                (Acts-send_success
                  (then_act
                    (then_act made
                      (calls _ (adds_client now p.room_id (j (inl (add_room_new s e))))))
                    (updates _))
                  _)
          | inr e ↦
              rw (e, create_room)
                (Acts-trans made (
                  rejoin_room-Acts (set_manager r.0 s) (λ h. k (rw (e, create_room) h))
                    (λ v. j (inr (rw (add_room_old s e) at v)))))
        ]

    admit-Acts :
        (s : Relay)
        → (((admit env now ws p s).clients ws).room_id ≡ p.room_id → K p.room_id)
        → J p.room_id
        → Acts env.config ws J K s (admit env now ws p s)
    unfolding admit
    admit-Acts s k j =
        let r = add_client_to_room now p.room_id ws s.manager in
        let came : Acts env.config ws J K s (set_manager r.0 s) =
          then_act done (calls r.0 (adds_client now p.room_id j)) in
        elim (Bool-cases r.1) [
          | inl a ↦
              rw (a, admit)
                (Acts-announce_joined
                  (Acts-send_success
                    (then_act
                      (then_act came
                        (calls _ (binds p.room_id p.invite_token p.sender_fingerprint)))
                      (updates _))
                    _)
                  now p.room_id (k (admit_enters s a)))
          | inr a ↦ rw (a, admit) (Acts-send_error came env.config _)
        ]

    join_room-Acts :
        (s : Relay)
        → (((join_room env now ws p s).clients ws).room_id ≡ p.room_id → K p.room_id)
        → (MayEnter p p.sender_fingerprint s → J p.room_id)
        → Acts env.config ws J K s (join_room env now ws p s)
    unfolding join_room
    join_room-Acts s k j =
        Acts-if (not (has_room p.room_id s.manager))
          (λ _. Acts-send_error done env.config room_not_found)
          (λ there.
            Acts-if
              (not (verify_invite_token p.room_id p.invite_token p.sender_fingerprint s.manager))
              (λ _. Acts-send_error done env.config invalid_invite_token)
              (λ valid.
                Acts-if
                  (leb env.config.max_participants_per_room (get_client_count p.room_id s.manager))
                  (λ _.
                    Acts-send_error done env.config
                      (room_full env.config.max_participants_per_room))
                  (λ full.
                    admit-Acts s (λ h. k (rw (there, valid, full, join_room) h))
                      (j (inr (not-false valid))))))

    exchange_key-Acts :
        (s : Relay)
        → K (s.clients ws).room_id
        → Acts env.config ws J K s (exchange_key env now ws p s)
    unfolding exchange_key
    exchange_key-Acts s k =
        let c = s.clients ws in
        let named = then_act done (
          updates
            (record c { fingerprint = p.sender_fingerprint; username = p.sender_username })) in
        Acts-if (truthy c.room_id && not (c.room_id === p.room_id))
          (λ _. Acts-send_error done env.config room_id_mismatch)
          (λ _.
            Acts-if (truthy c.room_id)
              (λ _. then_act named (
                broadcasts now c.room_id
                  (key_exchange p.sender_fingerprint p.sender_public_key p.sender_username) k))
              (λ _. named))

  pub handle_room_create-Acts :
      (b : Body) (s : Relay)
      → ((k : Value) → ((handle_room_create env now ws b s).clients ws).room_id ≡ k → K k)
      → ((p : Payload)
          → b ≡ fields p
          → MayEnter p ((identify ws p s).clients ws).fingerprint (identify ws p s)
          → J p.room_id)
      → Acts env.config ws J K s (handle_room_create env now ws b s)
  unfolding handle_room_create
  handle_room_create-Acts falsy s k j = Acts-send_error done env.config missing_room_or_token
  handle_room_create-Acts scalar s k j = Acts-send_error done env.config missing_room_or_token
  handle_room_create-Acts (fields p) s k j =
      Acts-if (not (validate_room_creation (fields p)))
        (λ _. Acts-send_error done env.config missing_room_or_token)
        (λ ok. Acts-trans (then_act done (updates _)) (
          create_room-Acts p (identify ws p s) (λ h. k p.room_id (rw (ok, handle_room_create) h))
            (j p refl)))

  pub handle_room_join-Acts :
      (b : Body) (s : Relay)
      → ((k : Value) → ((handle_room_join env now ws b s).clients ws).room_id ≡ k → K k)
      → ((p : Payload) → b ≡ fields p → MayEnter p p.sender_fingerprint s → J p.room_id)
      → Acts env.config ws J K s (handle_room_join env now ws b s)
  unfolding handle_room_join
  handle_room_join-Acts falsy s k j = Acts-send_error done env.config missing_room_or_token
  handle_room_join-Acts scalar s k j = Acts-send_error done env.config missing_room_or_token
  handle_room_join-Acts (fields p) s k j =
      Acts-if (not (validate_room_join (fields p)))
        (λ _. Acts-send_error done env.config missing_room_or_token)
        (λ ok. Acts-trans (then_act done (updates _)) (
          join_room-Acts p (identify ws p s) (λ h. k p.room_id (rw (ok, handle_room_join) h))
            (j p refl)))

  pub handle_key_exchange-Acts :
      (b : Body) (s : Relay)
      → K (s.clients ws).room_id
      → Acts env.config ws J K s (handle_key_exchange env now ws b s)
  unfolding handle_key_exchange
  handle_key_exchange-Acts falsy s k = Acts-send_error done env.config missing_key_exchange_fields
  handle_key_exchange-Acts scalar s k = Acts-send_error done env.config missing_key_exchange_fields
  handle_key_exchange-Acts (fields p) s k =
      Acts-if (not (validate_key_exchange (fields p)))
        (λ _. Acts-send_error done env.config missing_key_exchange_fields)
        (λ _. exchange_key-Acts p s k)
