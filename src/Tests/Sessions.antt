-- ===== src/Tests/Sessions.antt =====
-- Examples on peer sessions.
use null_key.Base.{
  ℕ, ◌+◌, ◌≡◌, refl, true, String, List, [], ◌∷◌, Option, none, some, if◌then◌else◌,
}
use null_key.Value.{Value, ◌===◌, value_discrete}
use null_key.PeerSession.{PeerSessionManager, is_ready, new_sessions, set_send_key_exchange}
use null_key.PeerSession.Handshake.{
  peer_joins, key_comes, derives_secret, run, IsSessions, run-new_sessions-IsSessions,
}
use null_key.PeerSession.Progress.{handshake}
use null_key.Tests.{alice, bob}

-- A decoder that knows one text.
abbrev decode : String → Option (List ℕ)
decode key = if Value.text key === Value.text "AQI=" then some (1 ∷ 2 ∷ []) else none

abbrev page : PeerSessionManager
page = set_send_key_exchange new_sessions

run-new_sessions-IsSessions_example :
    IsSessions (run decode (peer_joins alice bob ∷ key_comes alice "AQI=" bob ∷ []) new_sessions)
run-new_sessions-IsSessions_example =
    run-new_sessions-IsSessions decode (peer_joins alice bob ∷ key_comes alice "AQI=" bob ∷ [])

handshake_example :
    let t =
      run decode
        (peer_joins alice bob ∷ key_comes alice "AQI=" bob ∷ derives_secret alice ∷ [])
        page in
    (is_ready alice t ≡ true) × (t.calls ≡ page.calls + 1)
unfolding set_send_key_exchange value_discrete
handshake_example = handshake decode alice bob "AQI=" (1 ∷ 2 ∷ []) page refl refl
