-- ===== src/Manager/Broadcast.antt =====
-- Who receives a broadcast.
use null_key.Base.{
  ℕ, ◌≡◌, refl, sym, Bool, ◌&&◌, ◌∙◌, List, [], ◌∷◌, ◌++◌, map, append-nil, append_assoc, Option,
  none, some, arith, if◌then◌else◌, Bool-cases, inl, inr,
}
use null_key.Value.{Value}
use null_key.JsMap.{get, set}
use null_key.Net.{Net, Frame, send}
use null_key.Room.{Room, some_client, update_last_activity}
use null_key.Room.Capacity.{Distinct}
use null_key.Manager.{RoomManager, not_sender, deliver, broadcast_each, broadcast_to_room}
use null_key.Manager.Invariant.{IsManager}

-- The clients whose socket is open, without the sender.
pub recipients : (ℕ → Bool) → Option ℕ → List ℕ → List ℕ
recipients is_open sender [] = []
recipients is_open sender (ws ∷ rest) =
    let later = recipients is_open sender rest in
    if not_sender sender ws && is_open ws then ws ∷ later else later

pub some_client-recipients :
    (is_open : ℕ → Bool) (sender : Option ℕ) (w : ℕ) (cs : List ℕ)
    → some_client w (recipients is_open sender cs)
      ≡ (some_client w cs && (not_sender sender w && is_open w))
unfolding some_client recipients
some_client-recipients is_open sender w [] = refl
some_client-recipients is_open sender w (c ∷ cs) =
    ground (arith, some_client-recipients is_open sender w cs)

Distinct-recipients :
    (is_open : ℕ → Bool) (sender : Option ℕ) (cs : List ℕ)
    → Distinct cs
    → Distinct (recipients is_open sender cs)
unfolding recipients
Distinct-recipients is_open sender [] d = tt
Distinct-recipients is_open sender (c ∷ cs) d =
    ground
      (arith, Distinct-recipients is_open sender cs d.1, some_client-recipients is_open sender c cs)

deliver_open :
    (f : Frame) (sender : Option ℕ) (ws : ℕ) (n : Net) → (deliver f sender ws n).is_open ≡ n.is_open
unfolding deliver
deliver_open f sender ws n = ground arith

deliver_log :
    (f : Frame) (sender : Option ℕ) (ws : ℕ) (n : Net)
    → (deliver f sender ws n).log
      ≡ n.log ++ (if not_sender sender ws && n.is_open ws then send ws f ∷ [] else [])
unfolding deliver
deliver_log f sender ws n = ground (arith, append-nil n.log)

pub broadcast_each_open :
    (f : Frame) (sender : Option ℕ) (cs : List ℕ) (n : Net)
    → (broadcast_each f sender cs n).is_open ≡ n.is_open
unfolding broadcast_each
broadcast_each_open f sender [] n = refl
broadcast_each_open f sender (c ∷ cs) n =
    broadcast_each_open f sender cs (deliver f sender c n) ∙ deliver_open f sender c n

-- The loop appends one frame for each recipient, in the order of the clients.
pub broadcast_each_log :
    (f : Frame) (sender : Option ℕ) (cs : List ℕ) (n : Net)
    → (broadcast_each f sender cs n).log
      ≡ n.log ++ map (λ ws. send ws f) (recipients n.is_open sender cs)
unfolding broadcast_each recipients
broadcast_each_log f sender [] n = sym (append-nil n.log)
broadcast_each_log f sender (c ∷ cs) n =
    rw
      (
        broadcast_each_log f sender cs (deliver f sender c n),
        deliver_open f sender c n,
        deliver_log f sender c n,
      )
      (elim (Bool-cases (not_sender sender c && n.is_open c)) [
        | inl e ↦ rw e (append_assoc n.log (send c f ∷ []) _)
        | inr e ↦ rw e (append_assoc n.log [] _)
      ])

-- Every member of the room whose socket is open, the sender apart, is sent the frame exactly once;
-- nobody else is sent anything, no socket is closed, and the room's activity is refreshed.
pub broadcast_to_room_lem :
    (now : ℕ) (id : Value) (f : Frame) (sender : Option ℕ) (m : RoomManager) (n : Net) (r : Room)
    → IsManager m
    → get id m.rooms ≡ some r
    → let s = broadcast_to_room now id f sender (m, n) in
      (to : List ℕ) × (s.1.log ≡ n.log ++ map (λ ws. send ws f) to)
      × Distinct to
      × ((w : ℕ)
          → some_client w to ≡ (some_client w r.clients && (not_sender sender w && n.is_open w)))
      × (s.1.is_open ≡ n.is_open)
      × (s.0 ≡ record m { rooms = set id (update_last_activity now r) m.rooms })
unfolding broadcast_to_room
broadcast_to_room_lem now id f sender m n r v e = (
  recipients n.is_open sender r.clients,
  rw (e, broadcast_to_room) (broadcast_each_log f sender r.clients n),
  Distinct-recipients n.is_open sender r.clients (v.rooms_ok id r e).room.distinct,
  λ w. some_client-recipients n.is_open sender w r.clients,
  rw (e, broadcast_to_room) (broadcast_each_open f sender r.clients n),
  rw (e, broadcast_to_room),
)

-- A broadcast to a room that is not there does nothing.
pub broadcast_to_room_missing :
    (now : ℕ) (id : Value) (f : Frame) (sender : Option ℕ) (m : RoomManager) (n : Net)
    → get id m.rooms ≡ none
    → broadcast_to_room now id f sender (m, n) ≡ (m, n)
unfolding broadcast_to_room
broadcast_to_room_missing now id f sender m n e = rw (e, broadcast_to_room)
