-- ===== src/Room/Participants.antt =====
-- What a room promises: its participants, without their order, which only the search for the recipient
-- of a message reads. The operations on them are the library's, not the room's.
use mathlib.Core.Quot
use mathlib.Core.Quot.{Quot, Quot-set}
use native.Mathlib.Nat.{ℕ_set}
use null_key.Base.{
  ℕ, suc, ◌+◌, ◌≡◌, ◌≢◌, refl, sym, filter, ℕ_discrete, ap, ◌∙◌, Bool, true, false, not, ◌||◌, List,
  [], ◌∷◌, ◌++◌, arith, leb, ◌==◌, length, length-append, Bool-cases, inl, inr, if◌then◌else◌,
}
use null_key.Room.{Room, some_client, add_client, without, remove_client, update_last_activity}

-- How often a client is listed.
unfoldable pub times : ℕ → List ℕ → ℕ
times ws [] = 0
times ws (c ∷ cs) = let rest = times ws cs in if c == ws then suc rest else rest

-- Two lists hold the same clients.
abbrev pub SameClients : List ℕ → List ℕ → Type 0
SameClients xs ys = ((ws : ℕ) → times ws xs ≡ times ws ys) × (length xs ≡ length ys)

abbrev pub Participants : Type 0
Participants = Quot SameClients

unfoldable pub size : Participants → ℕ
size = Quot.lift ℕ_set length (λ xs ys h. h.1)

unfoldable pub presence : ℕ → Participants → ℕ
presence ws = Quot.lift ℕ_set (times ws) (λ xs ys h. h.0 ws)

times-append : (w ws : ℕ) (cs : List ℕ) → times w (cs ++ ws ∷ []) ≡ times w cs + times w (ws ∷ [])
unfolding times
times-append w ws [] = ground arith
times-append w ws (c ∷ cs) = ground (arith, times-append w ws cs)

times-without :
    (w ws : ℕ) (cs : List ℕ) → times w (without ws cs) ≡ (if ws == w then 0 else times w cs)
unfolding times without
times-without w ws [] = ground arith
times-without w ws (c ∷ cs) = ground (arith, times-without w ws cs)

length-without : (ws : ℕ) (cs : List ℕ) → length (without ws cs) + times ws cs ≡ length cs
unfolding times without
length-without ws [] = refl
length-without ws (c ∷ cs) = ground (arith, length-without ws cs)

some_client-times : (ws : ℕ) (cs : List ℕ) → some_client ws cs ≡ not (times ws cs == 0)
unfolding some_client times
some_client-times ws [] = ground arith
some_client-times ws (c ∷ cs) = ground (arith, some_client-times ws cs)

abbrev pub differs : (ws c : ℕ) → Dec (c ≢ ws)
differs ws c = elim (ℕ_discrete c ws) [ yes e ↦ no (λ d. d e) | no d ↦ yes d ]

-- The other clients of a list, by the library's filter.
abbrev pub others : ℕ → List ℕ → List ℕ
others ws = filter (differs ws)

pub same-front : (ws : ℕ) (xs ys : List ℕ) → SameClients xs ys → SameClients (ws ∷ xs) (ws ∷ ys)
unfolding times
same-front ws xs ys h = (λ w. ground (arith, h.0 w), omega (arith, h.1))

times-others :
    (w ws : ℕ) (cs : List ℕ) → times w (others ws cs) ≡ (if ws == w then 0 else times w cs)
unfolding times
times-others w ws [] = ground arith
times-others w ws (c ∷ cs) = ground (arith, times-others w ws cs)

length-others : (ws : ℕ) (cs : List ℕ) → length (others ws cs) + times ws cs ≡ length cs
unfolding times
length-others ws [] = refl
length-others ws (c ∷ cs) = ground (arith, length-others ws cs)

pub same-others :
    (ws : ℕ) (xs ys : List ℕ) → SameClients xs ys → SameClients (others ws xs) (others ws ys)
same-others ws xs ys h = (
  λ w. ground (arith, times-others w ws xs, times-others w ws ys, h.0 w),
  omega (arith, h.1, h.0 ws, length-others ws xs, length-others ws ys),
)

-- The abstract operations: one client more, in front, and all others.
unfoldable pub insert : ℕ → Participants → Participants
insert ws =
    Quot.lift Quot-set (λ xs. Quot.mk (ws ∷ xs)) (λ xs ys h. Quot.sound (same-front ws xs ys h))

unfoldable pub erase : ℕ → Participants → Participants
erase ws =
    Quot.lift Quot-set (λ xs. Quot.mk (others ws xs))
      (λ xs ys h. Quot.sound (same-others ws xs ys h))

-- What the room does to its list is the same.
same-append : (ws : ℕ) (cs : List ℕ) → SameClients (cs ++ ws ∷ []) (ws ∷ cs)
unfolding times
same-append ws cs =
    (λ w. ground (arith, times-append w ws cs), omega (arith, length-append cs (ws ∷ [])))

same-without : (ws : ℕ) (cs : List ℕ) → SameClients (without ws cs) (others ws cs)
same-without ws cs = (
  λ w. times-without w ws cs ∙ sym (times-others w ws cs),
  omega (arith, length-without ws cs, length-others ws cs),
)

unfoldable pub participants : Room → Participants
participants r = Quot.mk r.clients

-- Joining a room of at most `max` participants, and leaving it, with the answers.
unfoldable pub join_view : ℕ → ℕ → Participants → Participants × Bool
join_view max ws p =
    if leb max (size p) || not (presence ws p == 0) then (p, false) else (insert ws p, true)

unfoldable pub leave_view : ℕ → Participants → Participants × Bool
leave_view ws p = (erase ws p, not (presence ws p == 0))

pub data RoomCall : Type 0 where
  joins leaves : ℕ → ℕ → RoomCall

abbrev pub call_room : RoomCall → Room → Room × Bool
call_room (joins now ws) r = add_client now ws r
call_room (leaves now ws) r = remove_client now ws r

abbrev pub call_view : ℕ → RoomCall → Participants → Participants × Bool
call_view max (joins now ws) p = join_view max ws p
call_view max (leaves now ws) p = leave_view ws p

-- The state after some calls, and their answers.
unfoldable pub run_room : List RoomCall → Room → Room × List Bool
run_room [] r = (r, [])
run_room (c ∷ cs) r =
    let (q, answer) = call_room c r in
    let (last, answers) = run_room cs q in (last, answer ∷ answers)

unfoldable pub run_view : ℕ → List RoomCall → Participants → Participants × List Bool
run_view max [] p = (p, [])
run_view max (c ∷ cs) p =
    let (q, answer) = call_view max c p in
    let (last, answers) = run_view max cs q in (last, answer ∷ answers)

participants-add_client :
    (now ws : ℕ) (r : Room)
    → let (q, answer) = add_client now ws r in
      ((participants q, answer) ≡ join_view r.max_participants ws (participants r))
      × (q.max_participants ≡ r.max_participants)
unfolding add_client join_view participants size presence insert update_last_activity
participants-add_client now ws r = (
  elim (Bool-cases (leb r.max_participants (length r.clients))) [
    | inl full ↦ rw (full, add_client, if◌then◌else◌) refl
    | inr room ↦ elim (Bool-cases (times ws r.clients == 0)) [
      | inl new ↦
          rw (room, some_client-times ws r.clients, new, add_client, if◌then◌else◌)
            (ap (λ (q : Participants). (q, true)) (Quot.sound (same-append ws r.clients)))
      | inr listed ↦
          rw (room, some_client-times ws r.clients, listed, add_client, if◌then◌else◌) refl
    ]
  ],
  ground arith,
)

participants-remove_client :
    (now ws : ℕ) (r : Room)
    → let (q, answer) = remove_client now ws r in
      ((participants q, answer) ≡ leave_view ws (participants r))
      × (q.max_participants ≡ r.max_participants)
unfolding remove_client leave_view participants presence erase update_last_activity
participants-remove_client now ws r =
    let kept = length-without ws r.clients in
    elim (Bool-cases (times ws r.clients == 0)) [
      | inl absent ↦
          let same : length (without ws r.clients) == length r.clients ≡ true =
            ground (arith, kept, absent) in
          rw (absent, same, remove_client, if◌then◌else◌)
            (ap (λ (q : Participants). (q, false)) (Quot.sound (same-without ws r.clients)), refl)
      | inr listed ↦
          let fewer : length (without ws r.clients) == length r.clients ≡ false =
            ground (arith, kept, listed) in
          rw (listed, fewer, remove_client, if◌then◌else◌)
            (ap (λ (q : Participants). (q, true)) (Quot.sound (same-without ws r.clients)), refl)
    ]

call_room-participants :
    (c : RoomCall) (r : Room)
    → let (q, answer) = call_room c r in
      ((participants q, answer) ≡ call_view r.max_participants c (participants r))
      × (q.max_participants ≡ r.max_participants)
call_room-participants (joins now ws) r = participants-add_client now ws r
call_room-participants (leaves now ws) r = participants-remove_client now ws r

-- A room refines its participants without their order: after any clients have joined and left, in
-- any order and at any times, the participants of the room and all the answers are those of the
-- same calls on the participants alone, where a client is let in exactly if there are fewer than
-- the limit and it is not there yet, and where leaving takes out that client alone and says
-- whether it was there.
pub participants-run_room :
    (cs : List RoomCall) (r : Room)
    → let (q, answers) = run_room cs r in
      (participants q, answers) ≡ run_view r.max_participants cs (participants r)
unfolding run_room run_view
participants-run_room [] r = refl
participants-run_room (c ∷ cs) r =
    let q = (call_room c r).0 in
    let (first, limit) = call_room-participants c r in
    let later : (participants (run_room cs q).0, (run_room cs q).1)
        ≡ run_view r.max_participants cs (participants q) =
      participants-run_room cs q ∙ ap (λ m. run_view m cs (participants q)) limit in
    ap (λ p. (p.0, (call_room c r).1 ∷ p.1)) later
    ∙ ap (λ p. let (last, answers) = run_view r.max_participants cs p.0 in (last, p.1 ∷ answers))
        first
