-- ===== src/Events/Lifecycle.antt =====
-- The relay implements the life of an invite token.
use null_key.Base.{ℕ}
use null_key.Value.{Value}
use null_key.Protocol.{Message, Env}
use null_key.Manager.Invariant.{IsManager}
use null_key.Manager.Tokens.{token_owner}
use null_key.Manager.TokenLife.{TokenSteps, Steps-TokenSteps}
use null_key.Relay.{Relay}
use null_key.Events.{event_of, handle_client_message}
use null_key.Events.Safety.{handle_event-Acts, Acts-Steps}

-- In a well-formed registry, whatever message a client sends moves each token along its life alone:
-- an unknown token may be registered as unused, an unused one may be bound to a fingerprint, and
-- nothing else happens to a token.
pub handle_client_message-TokenSteps :
    (env : Env) (now ws : ℕ) (msg : Message) (s : Relay) (id token : Value)
    → IsManager s.manager
    → TokenSteps
        (token_owner id token s.manager)
        (token_owner id token (handle_client_message env now ws msg s).manager)
unfolding handle_client_message
handle_client_message-TokenSteps env now ws msg s id token =
    Steps-TokenSteps id token
      (Acts-Steps (handle_event-Acts env now ws (event_of msg.event) msg.payload s))
