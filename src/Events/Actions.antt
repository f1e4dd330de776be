-- ===== src/Events/Actions.antt =====
-- What the handlers may do, as a relation on states: one action of a connection, and sequences.
use null_key.Base.{ℕ, ◌+◌, ◌≡◌, Bool, true, false, refl, if◌then◌else◌}
use null_key.Value.{Value}
use null_key.JsMap.{Map}
use null_key.Config.{Config}
use null_key.Net.{Frame, Notice, success, error, net_send, net_close}
use null_key.Manager.{RoomManager}
use null_key.Manager.Members.{member}
use null_key.Manager.Step.{Step}
use null_key.ReplayGuard.{Seen}
use null_key.ReplayGuard.Window.{IsSeen}
use null_key.RateLimit.{RateBucket}
use null_key.Relay.{
  Client, Relay, set_client, set_manager, send_success, send_error, broadcast, announce_joined,
  announce_left,
}

-- An action for the connection `ws` that reaches other clients only in rooms that meet `K`, and
-- adds it only to rooms that meet `J`.
pub data Act (cfg : Config) (ws : ℕ) (J K : Value → Type 0) (s : Relay) : Relay → Type 0 where
  tells : (f : Frame) → Act cfg ws J K s (record s { net = net_send ws f s.net })
  closes : (code : ℕ) → Act cfg ws J K s (record s { net = net_close ws code s.net })
  updates : (c : Client) → Act cfg ws J K s (set_client ws c s)
  calls : (m : RoomManager) → Step cfg ws J s.manager m → Act cfg ws J K s (set_manager m s)
  broadcasts : (now : ℕ) (k : Value) (f : Frame) → K k → Act cfg ws J K s (broadcast now k f ws s)
  forwards :
      (w : ℕ) (k : Value) (f : Frame)
      → K k
      → member w k s.manager ≡ true
      → Act cfg ws J K s (record s { net = net_send w f s.net })
  remembers :
      (seen : Seen) → (IsSeen s.seen → IsSeen seen) → Act cfg ws J K s (record s { seen = seen })
  counts :
      (buckets : Map RateBucket) → Act cfg ws J K s (record s { message_rate_buckets = buckets })

pub data Acts (cfg : Config) (ws : ℕ) (J K : Value → Type 0) (s : Relay) : Relay → Type 0 where
  done : Acts cfg ws J K s s
  then_act : {t u : Relay} → Acts cfg ws J K s t → Act cfg ws J K t u → Acts cfg ws J K s u

pub Acts-trans :
    {cfg : Config} {ws : ℕ} {J K : Value → Type 0} {s t u : Relay}
    → Acts cfg ws J K s t
    → Acts cfg ws J K t u
    → Acts cfg ws J K s u
Acts-trans p done = p
Acts-trans p (then_act q a) = then_act (Acts-trans p q) a

pub Acts-if :
    {cfg : Config} {ws : ℕ} {J K : Value → Type 0} {s t u : Relay} (b : Bool)
    → (b ≡ true → Acts cfg ws J K s t)
    → (b ≡ false → Acts cfg ws J K s u)
    → Acts cfg ws J K s (if b then t else u)
Acts-if true p q = p refl
Acts-if false p q = q refl

module _ {cfg : Config} {ws : ℕ} {J K : Value → Type 0} {s t : Relay}
    (p : Acts cfg ws J K s t) where
  pub Acts-send_success : (k : Notice) → Acts cfg ws J K s (send_success ws k t)
  unfolding send_success
  Acts-send_success k = then_act p (tells (success k))

  pub Acts-send_error : (c : Config) (k : Notice) → Acts cfg ws J K s (send_error c ws k t)
  unfolding send_error
  Acts-send_error c k =
      let cl = t.clients ws in
      let more = record cl { violations = cl.violations + 1 } in
      Acts-if c.disconnect_on_repeated_violations
        (λ _.
          Acts-if _ (λ _. then_act (then_act p (updates more)) (closes 4000))
            (λ _. then_act (then_act p (updates more)) (tells (error k))))
        (λ _. then_act p (tells (error k)))

  pub Acts-announce_joined :
      (now : ℕ) (k : Value) → K k → Acts cfg ws J K s (announce_joined now k ws t)
  unfolding announce_joined
  Acts-announce_joined now k h = then_act p (broadcasts now k _ h)

  pub Acts-announce_left :
      (now : ℕ) (k : Value) → K k → Acts cfg ws J K s (announce_left now k ws t)
  unfolding announce_left
  Acts-announce_left now k h = then_act p (broadcasts now k _ h)
