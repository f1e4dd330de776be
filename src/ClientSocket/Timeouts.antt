-- ===== src/ClientSocket/Timeouts.antt =====
-- The timeout of an attempt that was given up.
use null_key.Base.{
  ℕ, ◌+◌, ◌≡◌, ◌||◌, ◌==◌, true, false, List, [], ◌∷◌, ◌++◌, arith, refl, if◌then◌else◌,
}
use null_key.ClientSocket.{
  ClientSocket, is_connected, connect, teardown, disconnect, clear_queue, without_attempt,
  clear_timeout, notify_status, flush_queue, onopen, time_out,
}
use null_key.ClientSocket.Outbox.{
  pending, connects, opens, times_out, happens, disconnects, react, call, call_all,
}

pending-append : (n k : ℕ) (ks : List ℕ) → pending n (ks ++ k ∷ []) ≡ (pending n ks || k == n)
unfolding pending
pending-append n k [] = ground arith
pending-append n k (j ∷ ks) = ground (arith, pending-append n k ks)

pending-without_attempt :
    (n k : ℕ) (ks : List ℕ)
    → pending n (without_attempt k ks) ≡ (if k == n then false else pending n ks)
unfolding pending without_attempt
pending-without_attempt n k [] = ground arith
pending-without_attempt n k (j ∷ ks) = ground (arith, pending-without_attempt n k ks)

-- From a state without a connection: after an attempt, a disconnect and a second attempt that opens,
-- the socket is connected, and the timeout of the first attempt, which is still pending, tears that connection down.
pub dropped_by_old_timeout :
    (s : ClientSocket)
    → is_connected s ≡ false
    → let t = call_all (happens connects ∷ disconnects ∷ happens connects ∷ happens opens ∷ []) s in
      (is_connected t ≡ true)
      × (pending (s.attempt + 1) t.timeouts ≡ true)
      × (is_connected (react (times_out (s.attempt + 1)) t) ≡ false)
unfolding call_all call react is_connected connect teardown disconnect clear_queue clear_timeout
    notify_status flush_queue onopen time_out
dropped_by_old_timeout s h =
    let first : List ℕ = s.timeouts ++ (s.attempt + 1) ∷ [] in
    let second : List ℕ = first ++ (s.attempt + 1 + 1) ∷ [] in
    let still : pending (s.attempt + 1) (without_attempt (s.attempt + 1 + 1) second) ≡ true =
      ground (
        arith,
        pending-without_attempt (s.attempt + 1) (s.attempt + 1 + 1) second,
        pending-append (s.attempt + 1) (s.attempt + 1 + 1) first,
        pending-append (s.attempt + 1) (s.attempt + 1) s.timeouts,
      ) in
    rw (h, connect, if◌then◌else◌) (refl, still, rw (still, if◌then◌else◌) refl)
