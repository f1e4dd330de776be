-- ===== src/ClientSocket/Listeners.antt =====
-- The listeners of frontend/src/socket/client.ts: `onMessage`, `onStatus` and their unsubscribe
-- functions, and the telling of an event, of `ws.onmessage` and of `notifyStatus`. A listener is a
-- number; a set is the list of its elements, oldest first. What a listener does is `run`, a step on the
-- set and a state; what it throws is caught, so a throw ends its own step only.
use null_key.Base.{
  ℕ, ◌≡◌, refl, sym, ◌∙◌, Bool, false, ◌||◌, ◌==◌, List, [], ◌∷◌, ◌++◌, Option, none, some,
  append_assoc, append-nil, Option-cases, inl, inr, if◌then◌else◌, String,
}
use null_key.ClientSocket.{without_attempt}

pub record Telling {ℓ} (S : Type ℓ) : Type ℓ where
  pub listeners : List ℕ
  pub state : S

unfoldable pub listed : ℕ → List ℕ → Bool
listed n [] = false
listed n (k ∷ ks) = k == n || listed n ks

unfoldable pub subscribe {ℓ} : {S : Type ℓ} → ℕ → Telling S → Telling S
subscribe n t = if listed n t.listeners then t else record t { listeners = t.listeners ++ n ∷ [] }

unfoldable pub unsubscribe {ℓ} : {S : Type ℓ} → ℕ → Telling S → Telling S
unsubscribe n t = record t { listeners = without_attempt n t.listeners }

-- The loop over a copy of the set.
unfoldable pub tell_each {ℓ} :
    {S : Type ℓ} → (ℕ → Telling S → Telling S) → List ℕ → Telling S → Telling S
tell_each run [] t = t
tell_each run (n ∷ ns) t = tell_each run ns (run n t)

-- `notifyStatus` of an event that the listeners take as `run`.
unfoldable pub tell {ℓ} : {S : Type ℓ} → (ℕ → Telling S → Telling S) → Telling S → Telling S
tell run t = tell_each run t.listeners t

-- `ws.onmessage`: `parse` is `JSON.parse` with the event and the payload of what it gives.
unfoldable pub on_message {ℓ m} :
    {S : Type ℓ}
    → {M : Type m} → (String → Option M)
    → (M → ℕ → Telling S → Telling S)
    → String
    → Telling S
    → Telling S
on_message parse run data_text t = elim (parse data_text) [
  | none ↦ t
  | some message ↦ tell (run message) t
]

-- A listener that notes its call and then changes the set by `change`.
abbrev noted : (ℕ → List ℕ → List ℕ) → ℕ → Telling (List ℕ) → Telling (List ℕ)
noted change n t = record { listeners = change n t.listeners; state = t.state ++ n ∷ [] }

tell_each-noted :
    (change : ℕ → List ℕ → List ℕ) (ns : List ℕ) (t : Telling (List ℕ))
    → (tell_each (noted change) ns t).state ≡ t.state ++ ns
unfolding tell_each
tell_each-noted change [] t = sym (append-nil t.state)
tell_each-noted change (n ∷ ns) t =
    tell_each-noted change ns (noted change n t) ∙ append_assoc t.state (n ∷ []) ns

-- Whatever the listeners subscribe and unsubscribe while a message is told to them, and whatever text
-- the message is parsed from: exactly the listeners of the time that it came are called, each once for
-- each time it is listed and in their order, and none if the text is no JSON.
pub on_message-noted {m} :
    {M : Type m} (parse : String → Option M) (change : M → ℕ → List ℕ → List ℕ) (s : String)
    (t : Telling (List ℕ))
    → (on_message parse (λ x. noted (change x)) s t).state
      ≡ elim (parse s) [ none ↦ t.state | some _ ↦ t.state ++ t.listeners ]
unfolding on_message tell
on_message-noted parse change s t = elim (Option-cases (parse s)) [
  | inl e ↦ rw (e, on_message) refl
  | inr (message, e) ↦ rw (e, on_message) (tell_each-noted (change message) t.listeners t)
]
