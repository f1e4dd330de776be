-- ===== src/ClientSocket/Outbox.antt =====
-- The queue: its bound, and that messages are sent in order, each once.
use null_key.Base.{
  ℕ, ◌+◌, ◌≤◌, ◌≡◌, refl, sym, ◌∙◌, ap, Bool, true, false, List, [], ◌∷◌, ◌++◌, ◌||◌, ◌==◌,
  append-nil, append_assoc, Option, none, some, arith, length, length-append, ltb, if◌then◌else◌,
  Bool-cases, inl, inr,
}
use null_key.Value.{Value}
use null_key.ClientSocket.{
  ReadyState, QueuedMessage, ClientSocket, connecting, new_socket, is_connected, teardown, connect,
  resume, clear_timeout, notify_status, flush_queue, clear_queue, onopen, onerror, onclose,
  time_out, disconnect, send_message, enter_room, leave_room,
}

-- What happens to the socket without the queue being cleared.
pub data Event : Type 0 where
  connects resumes opens fails closes : Event
  times_out : ℕ → Event
  sends : QueuedMessage → Event

-- What clears the queue.
pub data Call : Type 0 where
  happens : Event → Call
  disconnects leaves : Call
  enters : Value → Value → Value → Value → Value → Call

abbrev is_connecting : Option ReadyState → Bool
is_connecting (some connecting) = true
is_connecting _ = false

abbrev has_socket : Option ReadyState → Bool
has_socket (some _) = true
has_socket none = false

-- Whether the timeout of an attempt is pending.
unfoldable pub pending : ℕ → List ℕ → Bool
pending n [] = false
pending n (k ∷ ks) = k == n || pending n ks

-- An attempt that is under way opens; a socket that has listeners fails or closes; a timeout that is
-- pending fires.
unfoldable pub react : Event → ClientSocket → ClientSocket
react connects s = connect s
react resumes s = resume s
react opens s = if is_connecting s.ws then onopen s else s
react fails s = if has_socket s.ws then onerror s else s
react closes s = if has_socket s.ws then onclose s else s
react (times_out n) s = if pending n s.timeouts then time_out n s else s
react (sends m) s = send_message m s

unfoldable pub call : Call → ClientSocket → ClientSocket
call (happens e) s = react e s
call disconnects s = disconnect s
call leaves s = leave_room s
call (enters event room_id token fingerprint username) s =
    enter_room event room_id token fingerprint username s

unfoldable pub react_all : List Event → ClientSocket → ClientSocket
react_all [] s = s
react_all (e ∷ es) s = react_all es (react e s)

unfoldable pub call_all : List Call → ClientSocket → ClientSocket
call_all [] s = s
call_all (c ∷ cs) s = call_all cs (call c s)

-- The messages among the events.
unfoldable pub messages : List Event → List QueuedMessage
messages [] = []
messages (sends m ∷ es) = m ∷ messages es
messages (connects ∷ es) = messages es
messages (resumes ∷ es) = messages es
messages (opens ∷ es) = messages es
messages (fails ∷ es) = messages es
messages (closes ∷ es) = messages es
messages (times_out n ∷ es) = messages es

-- The queue is within its bound, and empty while the socket is open.
pub record IsOutbox (s : ClientSocket) : Type 0 where
  pub fits : length s.message_queue ≤ 100
  pub drained : is_connected s ≡ true → s.message_queue ≡ []

react-IsOutbox : (e : Event) (s : ClientSocket) → IsOutbox s → IsOutbox (react e s)
unfolding react connect resume onopen onerror onclose time_out send_message is_connected teardown
    clear_timeout notify_status flush_queue
react-IsOutbox connects s v = record {
  fits = ground (arith, v.fits);
  drained = λ h. ground (arith, v.drained);
}
react-IsOutbox resumes s v = record {
  fits = ground (arith, v.fits);
  drained = λ h. ground (arith, v.drained);
}
react-IsOutbox opens s v = record {
  fits = ground (arith, v.fits);
  drained = λ h. ground (arith, v.drained);
}
react-IsOutbox fails s v = record {
  fits = ground (arith, v.fits);
  drained = λ h. ground (arith, v.drained);
}
react-IsOutbox closes s v = record {
  fits = ground (arith, v.fits);
  drained = λ h. ground (arith, v.drained);
}
react-IsOutbox (times_out n) s v = record {
  fits = ground (arith, v.fits);
  drained = λ h. ground (arith, v.drained);
}
react-IsOutbox (sends m) s v = record {
  fits = ground (arith, v.fits, length-append s.message_queue (m ∷ []));
  drained = λ h. ground (arith, v.drained);
}

react_all-IsOutbox : (es : List Event) (s : ClientSocket) → IsOutbox s → IsOutbox (react_all es s)
unfolding react_all
react_all-IsOutbox [] s v = v
react_all-IsOutbox (e ∷ es) s v = react_all-IsOutbox es (react e s) (react-IsOutbox e s v)

call-IsOutbox : (c : Call) (s : ClientSocket) → IsOutbox s → IsOutbox (call c s)
unfolding call disconnect leave_room enter_room send_message is_connected teardown clear_queue
call-IsOutbox (happens e) s v = react-IsOutbox e s v
call-IsOutbox disconnects s v = record { fits = ground arith; drained = λ h. refl }
call-IsOutbox leaves s v = record { fits = ground arith; drained = λ h. ground arith }
call-IsOutbox (enters event room_id token fingerprint username) s v = record {
  fits = ground arith;
  drained = λ h. ground arith;
}

call_all-IsOutbox : (cs : List Call) (s : ClientSocket) → IsOutbox s → IsOutbox (call_all cs s)
unfolding call_all
call_all-IsOutbox [] s v = v
call_all-IsOutbox (c ∷ cs) s v = call_all-IsOutbox cs (call c s) (call-IsOutbox c s v)

-- From the start, whatever the page calls and the socket does: at most 100 messages are queued, and
-- none while the socket is open.
pub new_socket-IsOutbox : (cs : List Call) → IsOutbox (call_all cs new_socket)
unfolding new_socket is_connected
new_socket-IsOutbox cs =
    call_all-IsOutbox cs new_socket (record { fits = omega arith; drained = λ h. refl })

-- What was sent and what is still to be sent, in order.
abbrev pub outbox : ClientSocket → List QueuedMessage
outbox s = s.sent ++ s.message_queue

-- The socket passed a list of messages on, or kept them in the queue.
abbrev Takes : List QueuedMessage → ClientSocket → ClientSocket → Type 0
Takes ms s t =
    (outbox t ≡ outbox s ++ ms) × (length t.message_queue ≤ length s.message_queue + length ms)

keeps : (s t : ClientSocket) → t.sent ≡ s.sent → t.message_queue ≡ s.message_queue → Takes [] s t
keeps s t e f = (rw (e, f) (sym (append-nil (outbox s))), rw f (omega arith))

opens_outbox : (s : ClientSocket) → Takes [] s (onopen s)
unfolding onopen is_connected clear_timeout notify_status flush_queue
opens_outbox s = (refl, omega arith)

send_message_outbox :
    (m : QueuedMessage) (s : ClientSocket)
    → IsOutbox s
    → length s.message_queue + 1 ≤ 100
    → Takes (m ∷ []) s (send_message m s)
unfolding send_message
send_message_outbox m s v h = elim (Bool-cases (is_connected s)) [
  | inl e ↦
      rw (e, send_message, if◌then◌else◌, v.drained e)
        (append-nil _ ∙ ap (λ l. l ++ m ∷ []) (sym (append-nil s.sent)), omega arith)
  | inr e ↦
      let room : ltb (length s.message_queue) 100 ≡ true = ground arith in
      rw (e, send_message, if◌then◌else◌, room)
        (
          sym (append_assoc s.sent s.message_queue (m ∷ [])),
          ground (arith, length-append s.message_queue (m ∷ [])),
        )
]

react_outbox :
    (e : Event) (s : ClientSocket)
    → IsOutbox s
    → length s.message_queue + length (messages (e ∷ [])) ≤ 100
    → Takes (messages (e ∷ [])) s (react e s)
unfolding react connect resume onerror onclose time_out is_connected teardown clear_timeout
    notify_status messages
react_outbox connects s v h = keeps s (connect s) (ground arith) (ground arith)
react_outbox resumes s v h = keeps s (resume s) (ground arith) (ground arith)
react_outbox opens s v h = elim (Bool-cases (is_connecting s.ws)) [
  | inl e ↦ rw (e, react, if◌then◌else◌) (opens_outbox s)
  | inr e ↦ rw (e, react, if◌then◌else◌) (keeps s s refl refl)
]
react_outbox fails s v h = keeps s (react fails s) (ground arith) (ground arith)
react_outbox closes s v h = keeps s (react closes s) (ground arith) (ground arith)
react_outbox (times_out n) s v h = keeps s (react (times_out n) s) (ground arith) (ground arith)
react_outbox (sends m) s v h = send_message_outbox m s v h

messages_cons : (e : Event) (es : List Event) → messages (e ∷ es) ≡ messages (e ∷ []) ++ messages es
unfolding messages
messages_cons connects es = refl
messages_cons resumes es = refl
messages_cons opens es = refl
messages_cons fails es = refl
messages_cons closes es = refl
messages_cons (times_out n) es = refl
messages_cons (sends m) es = refl

react_all-outbox :
    (es : List Event) (s : ClientSocket)
    → IsOutbox s
    → length s.message_queue + length (messages es) ≤ 100
    → outbox (react_all es s) ≡ outbox s ++ messages es
unfolding react_all messages
react_all-outbox [] s v h = sym (append-nil (outbox s))
react_all-outbox (e ∷ es) s v h =
    let now : List QueuedMessage = messages (e ∷ []) in
    let both : length (messages (e ∷ es)) ≡ length now + length (messages es) =
      rw (messages_cons e es) (length-append now (messages es)) in
    let (taken, kept) = react_outbox e s v (ground (arith, both)) in
    react_all-outbox es (react e s) (react-IsOutbox e s v) (ground (arith, both, kept))
    ∙ ap (λ l. l ++ messages es) taken
    ∙ append_assoc (outbox s) now (messages es)
    ∙ ap (λ l. outbox s ++ l) (sym (messages_cons e es))

-- If no call clears the queue, at most 100 messages are queued and sent, and the socket is open in
-- the end: whatever the connection did meanwhile, what was passed on is what had been, then the
-- queue, then the new messages, each once and in order.
pub sent-react_all :
    (es : List Event) (s : ClientSocket)
    → IsOutbox s
    → length s.message_queue + length (messages es) ≤ 100
    → is_connected (react_all es s) ≡ true
    → (react_all es s).sent ≡ s.sent ++ s.message_queue ++ messages es
sent-react_all es s v h c =
    let t = react_all es s in
    sym (append-nil t.sent)
    ∙ ap (λ q. t.sent ++ q) (sym ((react_all-IsOutbox es s v).drained c))
    ∙ react_all-outbox es s v h
