-- ===== src/Page/Start.antt =====
-- The start of frontend/app/page.tsx, and of frontend/hooks/useNullKey.ts: the keys, and the address of
-- the server.
use null_key.Base.{
  ◌≡◌, ◌≢◌, refl, ap, sym, ◌∙◌, Bool, [], String, Option, none, some, Option-cases, inl, inr,
  if◌then◌else◌,
}
use null_key.Value.{text, truthy}
use null_key.SocketService.{get_default_ws_url}
use null_key.JsMap.{Map}
use null_key.Encoding.Hex.{AreBytes}
use null_key.Crypto.{Primitives}
use null_key.Crypto.Session.{KeyPair, SessionManager, create}
use null_key.KeyStorage.{save_key_pair, load_key_pair}
use null_key.KeyStorage.Persistence.{load_key_pair-save_key_pair}

-- The session and the key store after `init`; `generated` is the pair that `generateKeyPair` would make.
unfoldable pub start_session : Primitives → KeyPair → Map String → SessionManager × Map String
start_session c generated store = elim (load_key_pair store) as (λ _. SessionManager × Map String) [
  | some keys ↦ (create c (some keys) generated, store)
  | none ↦
      let s = create c none generated in
      (s, save_key_pair (record { private_key = s.private_key; public_key = s.public_key }) store)
]

-- `setting` is the build's NEXT_PUBLIC_WS_URL, `location` says whether the window's protocol is https,
-- and its host.
unfoldable pub ws_url : Option String → Option (Bool × String) → String
ws_url setting location = elim setting [
  | none ↦ get_default_ws_url location
  | some url ↦ if truthy (text url) then url else get_default_ws_url location
]

start_session_fresh :
    (c : Primitives) (generated : KeyPair) (store : Map String)
    → load_key_pair store ≡ none
    → start_session c generated store ≡ (create c none generated, save_key_pair generated store)
unfolding start_session create
start_session_fresh c generated store e = rw (e, start_session) refl

start_session_stored :
    (c : Primitives) (generated keys : KeyPair) (store : Map String)
    → load_key_pair store ≡ some keys
    → start_session c generated store ≡ (create c (some keys) generated, store)
unfolding start_session
start_session_stored c generated keys store e = rw (e, start_session) refl

-- A browser that starts twice, with keys that are bytes and not empty whenever it makes some: whatever
-- was stored, the second start has the keys and the fingerprint of the first, and changes nothing in
-- the store.
pub start_session-start_session :
    (c : Primitives) (first second : KeyPair) (store : Map String)
    → AreBytes first.private_key
    → AreBytes first.public_key
    → first.private_key ≢ []
    → first.public_key ≢ []
    → start_session c second (start_session c first store).1 ≡ start_session c first store
unfolding create
start_session-start_session c first second store bp bq np nq =
    elim (Option-cases (load_key_pair store)) [
      | inr (keys, e) ↦
          ap (λ p. start_session c second p.1) (start_session_stored c first keys store e)
          ∙ start_session_stored c second keys store e
          ∙ sym (start_session_stored c first keys store e)
      | inl e ↦
          ap (λ p. start_session c second p.1) (start_session_fresh c first store e)
          ∙ start_session_stored c second first (save_key_pair first store)
              (load_key_pair-save_key_pair first store bp bq np nq)
          ∙ sym (start_session_fresh c first store e)
    ]
