-- ===== src/Hooks/Relayed.antt =====
-- What comes of the texts that frontend/hooks/useChat.ts encrypts for one peer: they name no recipient.
use null_key.Base.{ℕ, String}
use null_key.Value.{Value, undefined, text}
use null_key.Encoding.{to_hex}
use null_key.Net.{Outgoing}
use null_key.Room.{Room}
use null_key.Crypto.{Bytes, of_text, encrypt_message}
use null_key.Relay.{Relay}
use null_key.Page.{Browser, now_value}
use null_key.Hooks.{HookState}

-- What the relay sends on of such a text.
abbrev relayed : Browser → ℕ → (ℕ → Bytes) → HookState → String → Bytes → ℕ → Bytes → Outgoing
relayed b now random s t salt i secret =
    let e = encrypt_message b.crypto (random i) (of_text t) secret salt in
    record {
      room_id = s.active_room_id;
      sender_fingerprint = s.session.fingerprint;
      sender_username = s.username;
      ciphertext = text (to_hex e.ciphertext);
      nonce = text (to_hex e.nonce);
      timestamp = now_value now;
      message_type = undefined;
      recipient_fingerprint = undefined;
      file_size = undefined;
    }
