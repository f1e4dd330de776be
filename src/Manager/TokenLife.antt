-- ===== src/Manager/TokenLife.antt =====
-- The life of an invite token, as the registry promises it: unknown, registered and unused, and then
-- bound to one fingerprint for good.
use null_key.Base.{
  ℕ, ◌≡◌, ◌⊎◌, refl, sym, subst, ◌&&◌, [], ◌∷◌, Option, none, some, arith, Bool-cases, inl, inr,
  ite,
}
use null_key.Value.{Value, ◌===◌, value_discrete}
use null_key.JsMap.{get, set}
use null_key.JsMap.Laws.{get-set}
use null_key.Config.{Config}
use null_key.Manager.{
  RoomManager, unused, or_unused, tokens_or_new, add_room, bind_invite_token, add_invite_token,
}
use null_key.Manager.Invariant.{IsManager}
use null_key.Manager.Tokens.{
  token_owner, token_owner-bind, bind_invite_token_iff, add_client_to_room_tokens,
  remove_client_from_room_tokens, broadcast_to_room_tokens,
}
use null_key.Manager.Step.{
  Step, adds_room, adds_client, removes_client, broadcasts, binds, adds_token, Steps, here, next,
  Steps-IsManager,
}

-- The owner of a token: none as long as it is unknown.
pub data TokenStep : Option Value → Option Value → Type 0 where
  registers : TokenStep none (some unused)
  is_bound : (f : Value) → TokenStep (some unused) (some f)

pub data TokenSteps (o : Option Value) : Option Value → Type 0 where
  stays : TokenSteps o o
  goes_on : {x y : Option Value} → TokenSteps o x → TokenStep x y → TokenSteps o y

TokenSteps-trans : {a b c : Option Value} → TokenSteps a b → TokenSteps b c → TokenSteps a c
TokenSteps-trans p stays = p
TokenSteps-trans p (goes_on q s) = goes_on (TokenSteps-trans p q) s

unchanged : {a b : Option Value} → b ≡ a → TokenSteps a b
unchanged {a} e = subst (λ x. TokenSteps a x) (sym e) stays

registered : {a b : Option Value} → a ≡ none → b ≡ some unused → TokenSteps a b
registered {a} {b} e h =
    subst (λ x. TokenSteps x b) (sym e)
      (subst (λ x. TokenSteps none x) (sym h) (goes_on stays registers))

bound : {a b : Option Value} {f : Value} → a ≡ some unused → b ≡ some f → TokenSteps a b
bound {a} {b} {f} e h =
    subst (λ x. TokenSteps x b) (sym e)
      (subst (λ x. TokenSteps (some unused) x) (sym h) (goes_on stays (is_bound f)))

of_cases : {a b : Option Value} → (b ≡ a) ⊎ ((a ≡ none) × (b ≡ some unused)) → TokenSteps a b
of_cases (inl e) = unchanged e
of_cases (inr (e, h)) = registered e h

get_one : (token t v : Value) → get t ((token, v) ∷ []) ≡ ite (value_discrete token t) (some v) none
unfolding get
get_one token t v = refl

get-none : (t : Value) → get {V = Value} t [] ≡ none
unfolding get
get-none t = refl

no_tokens : tokens_or_new none ≡ []
no_tokens = refl

bind_invite_token-TokenSteps :
    (id token f j t : Value) (m : RoomManager)
    → TokenSteps (token_owner j t m) (token_owner j t (bind_invite_token id token f m).0)
bind_invite_token-TokenSteps id token f j t m =
    elim (Bool-cases ((bind_invite_token id token f m).1 && (id === j) && (token === t))) [
      | inr n ↦ unchanged (ground (arith, token_owner-bind id token f j t m, n))
      | inl y ↦
          let before : token_owner j t m ≡ some unused =
            ground (arith, y, bind_invite_token_iff id token f m) in
          let after : token_owner j t (bind_invite_token id token f m).0 ≡ some (or_unused f) =
            ground (arith, y, token_owner-bind id token f j t m) in
          bound before after
    ]

add_invite_token-TokenSteps :
    (id token j t : Value) (m : RoomManager)
    → TokenSteps (token_owner j t m) (token_owner j t (add_invite_token id token m).0)
unfolding add_invite_token token_owner
add_invite_token-TokenSteps id token j t m =
    let ts = tokens_or_new (get id m.invite_tokens) in
    of_cases (
      ground (
        arith,
        get-set id j ts m.invite_tokens,
        get-set id j (set token unused ts) m.invite_tokens,
        get-set token t unused ts,
        get-none t,
        no_tokens,
      ))

add_room-TokenSteps :
    (cfg : Config) (now : ℕ) (id token j t : Value) (m : RoomManager)
    → IsManager m
    → TokenSteps (token_owner j t m) (token_owner j t (add_room cfg now id token m).0)
unfolding add_room token_owner
add_room-TokenSteps cfg now id token j t m v = of_cases (
    ground (
      arith,
      get-set id j ((token, unused) ∷ []) m.invite_tokens,
      v.tokens_ok id,
      get_one token t unused,
    ))

same_tokens :
    (j t : Value) (m k : RoomManager)
    → k.invite_tokens ≡ m.invite_tokens
    → TokenSteps (token_owner j t m) (token_owner j t k)
unfolding token_owner
same_tokens j t m k e = unchanged (rw e refl)

Step-TokenSteps :
    {cfg : Config} {ws : ℕ} {J : Value → Type 0} {m k : RoomManager} (j t : Value)
    → Step cfg ws J m k
    → IsManager m
    → TokenSteps (token_owner j t m) (token_owner j t k)
Step-TokenSteps {cfg} {ws} {m} j t (adds_room now id token) v =
    add_room-TokenSteps cfg now id token j t m v
Step-TokenSteps {cfg} {ws} {m} j t (adds_client now id _) v =
    same_tokens j t m _ (add_client_to_room_tokens now ws id m)
Step-TokenSteps {cfg} {ws} {m} j t (removes_client now id) v =
    same_tokens j t m _ (remove_client_from_room_tokens now ws id m)
Step-TokenSteps {cfg} {ws} {m} j t (broadcasts now id f sender n) v =
    same_tokens j t m _ (broadcast_to_room_tokens now id f sender m n)
Step-TokenSteps {cfg} {ws} {m} j t (binds id token f) v =
    bind_invite_token-TokenSteps id token f j t m
Step-TokenSteps {cfg} {ws} {m} j t (adds_token id token) v =
    add_invite_token-TokenSteps id token j t m

pub Steps-TokenSteps :
    {cfg : Config} {ws : ℕ} {J : Value → Type 0} {m k : RoomManager} (j t : Value)
    → Steps cfg ws J m k
    → IsManager m
    → TokenSteps (token_owner j t m) (token_owner j t k)
Steps-TokenSteps j t here v = stays
Steps-TokenSteps j t (next p s) v =
    TokenSteps-trans (Steps-TokenSteps j t p v) (Step-TokenSteps j t s (Steps-IsManager p v))
