-- ===== src/Events/Invariant.antt =====
-- The relay as a state machine: its events, the states that it reaches, and what holds in them.
use null_key.Base.{ℕ, ◌≡◌, ◌≢◌, true, false, some, inl, inr, arith, not, Bool, if◌then◌else◌}
use null_key.Value.{Value}
use null_key.Protocol.{Message, Incoming, malformed, no_object, message, Env}
use null_key.Manager.{unused}
use null_key.Manager.Invariant.{IsManager, new_manager-IsManager, cleanup_expired_rooms-IsManager}
use null_key.Manager.Tokens.{token_owner}
use null_key.Manager.Step.{Steps-IsManager, Steps-KeepsOwners}
use null_key.Manager.Members.{member, Steps-joins, Steps-member}
use null_key.ReplayGuard.Window.{IsSeen}
use null_key.Validation.{validate_message_format, validate_payload_size}
use null_key.JsMap.{get}
use null_key.Relay.{Relay, new_relay, send_error_uncounted}
use null_key.Events.{
  event_of, handle_client_message, handle_data, handle_connection, handle_close, mark_closed,
  perform_cleanup,
}
use null_key.Events.Messages.{handle_client_disconnect-Acts}
use null_key.Events.Safety.{MayJoin, handle_event-Acts, Acts-Steps, Acts-clients, Acts-IsSeen}

pub handle_client_message-IsManager :
    (env : Env) (now ws : ℕ) (msg : Message) (s : Relay)
    → IsManager s.manager
    → IsManager (handle_client_message env now ws msg s).manager
unfolding handle_client_message
handle_client_message-IsManager env now ws msg s =
    Steps-IsManager (Acts-Steps (handle_event-Acts env now ws (event_of msg.event) msg.payload s))

-- A token that is bound to a fingerprint stays bound to it, whatever message a client sends.
pub handle_client_message_owner :
    (env : Env) (now ws : ℕ) (msg : Message) (s : Relay) (id token owner : Value)
    → IsManager s.manager
    → token_owner id token s.manager ≡ some owner
    → owner ≢ unused
    → token_owner id token (handle_client_message env now ws msg s).manager ≡ some owner
unfolding handle_client_message
handle_client_message_owner env now ws msg s id token owner v =
    Steps-KeepsOwners (Acts-Steps (handle_event-Acts env now ws (event_of msg.event) msg.payload s))
      v id token owner

-- A message changes the connection object of its own socket alone, and which rooms list another
-- socket does not change.
pub handle_client_message_others :
    (env : Env) (now ws w : ℕ) (msg : Message) (s : Relay) (k : Value)
    → w ≢ ws
    → ((handle_client_message env now ws msg s).clients w ≡ s.clients w)
      × (member w k (handle_client_message env now ws msg s).manager ≡ member w k s.manager)
unfolding handle_client_message
handle_client_message_others env now ws w msg s k d =
    let p = handle_event-Acts env now ws (event_of msg.event) msg.payload s in
    (Acts-clients w d p, Steps-member w k d (Acts-Steps p))

-- A client comes into a room by a `room:create` or a `room:join` for that room alone, and only if
-- the room is new or the message holds a token of it that nobody has used or that belongs to the
-- fingerprint offered.
pub handle_client_message_joins :
    (env : Env) (now ws : ℕ) (msg : Message) (s : Relay) (k : Value)
    → member ws k (handle_client_message env now ws msg s).manager ≡ true
    → member ws k s.manager ≡ false
    → MayJoin ws (event_of msg.event) msg.payload s k
unfolding handle_client_message
handle_client_message_joins env now ws msg s k h old =
    let p = handle_event-Acts env now ws (event_of msg.event) msg.payload s in
    elim (Steps-joins k (Acts-Steps p) h) [ inl e ↦ cc (e, old) | inr j ↦ j ]

-- What can happen to the relay at a time.
pub data Happens (env : Env) (s : Relay) : Relay → Type 0 where
  connects : (ws : ℕ) (ip : Value) → Happens env s (handle_connection ws ip s)
  receives : (now ws : ℕ) (d : Incoming) → Happens env s (handle_data env now ws d s)
  disconnects : (now ws : ℕ) → Happens env s (handle_close now ws s)
  cleans_up : (now : ℕ) → Happens env s (perform_cleanup env now s)

pub data Reachable (env : Env) : Relay → Type 0 where
  starts : Reachable env new_relay
  goes_on : {s t : Relay} → Reachable env s → Happens env s t → Reachable env t

handle_data-IsManager :
    (env : Env) (now ws : ℕ) (d : Incoming) (s : Relay)
    → IsManager s.manager
    → IsManager (handle_data env now ws d s).manager
unfolding handle_data send_error_uncounted
handle_data-IsManager env now ws malformed s v = v
handle_data-IsManager env now ws no_object s v = v
handle_data-IsManager env now ws (message m) s v =
    ground (arith, handle_client_message-IsManager env now ws m s v)

Happens-IsManager :
    {env : Env} {s t : Relay} → Happens env s t → IsManager s.manager → IsManager t.manager
unfolding handle_connection handle_close perform_cleanup
Happens-IsManager (connects ws ip) v = v
Happens-IsManager {env} {s} (receives now ws d) v = handle_data-IsManager env now ws d s v
Happens-IsManager {env} {s} (disconnects now ws) v =
    let t : Relay = mark_closed ws s in
    Steps-IsManager
      (Acts-Steps {s = t} (handle_client_disconnect-Acts env now ws (λ k. ⊥) (λ k. Unit) t tt)) v
Happens-IsManager {env} {s} (cleans_up now) v =
    cleanup_expired_rooms-IsManager env.config now s.manager s.net v

-- In every state that the relay can reach, whatever clients send, each room is within its limit,
-- lists no socket twice and stands under its id, and tokens belong to rooms that exist.
pub Reachable-IsManager : {env : Env} {s : Relay} → Reachable env s → IsManager s.manager
unfolding new_relay
Reachable-IsManager starts = new_manager-IsManager
Reachable-IsManager (goes_on r h) = Happens-IsManager h (Reachable-IsManager r)

if_both : (b : Bool) (P : Relay → Type 0) {x y : Relay} → P x → P y → P (if b then x else y)
if_both true P p q = p
if_both false P p q = q

handle_data-IsSeen :
    (env : Env) (now ws : ℕ) (d : Incoming) (s : Relay)
    → IsSeen s.seen
    → IsSeen (handle_data env now ws d s).seen
unfolding handle_data send_error_uncounted handle_client_message
handle_data-IsSeen env now ws malformed s v = v
handle_data-IsSeen env now ws no_object s v = v
handle_data-IsSeen env now ws (message m) s v =
    let p = handle_event-Acts env now ws (event_of m.event) m.payload s in
    if_both (not (validate_message_format (message m))) (λ t. IsSeen t.seen) v
      (if_both (not (validate_payload_size env m.payload)) (λ t. IsSeen t.seen) v (Acts-IsSeen p v))

Happens-IsSeen : {env : Env} {s t : Relay} → Happens env s t → IsSeen s.seen → IsSeen t.seen
unfolding handle_connection handle_close perform_cleanup
Happens-IsSeen (connects ws ip) v = v
Happens-IsSeen {env} {s} (receives now ws d) v = handle_data-IsSeen env now ws d s v
Happens-IsSeen {env} {s} (disconnects now ws) v =
    let t : Relay = mark_closed ws s in
    Acts-IsSeen {s = t} (handle_client_disconnect-Acts env now ws (λ k. ⊥) (λ k. Unit) t tt) v
Happens-IsSeen (cleans_up now) v = v

-- So the lemmas on the window of the replay guard apply to every state that the relay can reach.
Reachable-IsSeen : {env : Env} {s : Relay} → Reachable env s → IsSeen s.seen
unfolding new_relay get
Reachable-IsSeen starts = record { unique = λ f m h. cc }
Reachable-IsSeen (goes_on r h) = Happens-IsSeen h (Reachable-IsSeen r)
