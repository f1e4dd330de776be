-- ===== src/Server/Origin.antt =====
-- Which origins may connect.
use null_key.Base.{
  ◌≡◌, ◌↔◌, ◌⊎◌, true, false, List, [], ◌∷◌, Option, none, some, arith, refl, inl, inr,
  if◌then◌else◌, Bool-cases, Option-cases, In, subst, not,
}
use null_key.Value.{Value, truthy}
use null_key.Server.{Url, Gate, matches, some_matches, is_origin_allowed}

-- The allowed URL has the host and the protocol, and the port unless it names none.
abbrev pub Matches : Url → Url → Type 0
Matches url allowed =
    (url.hostname ≡ allowed.hostname)
    × ((truthy allowed.port ≡ false) ⊎ (url.port ≡ allowed.port))
    × (url.protocol ≡ allowed.protocol)

-- The allowed origin parses, and its URL is matched.
abbrev pub MatchesParsed : Url → Option Url → Type 0
MatchesParsed url none = ⊥
MatchesParsed url (some allowed) = Matches url allowed

matches_iff : (url : Url) (a : Option Url) → (matches url a ≡ true) ↔ MatchesParsed url a
unfolding matches
matches_iff url none = ground arith
matches_iff url (some allowed) = ground arith

some_matches_iff :
    (parse : Value → Option Url) (url : Url) (list : List Value)
    → (some_matches parse url list ≡ true) ↔ ((a : Value) × In a list × MatchesParsed url (parse a))
unfolding some_matches
some_matches_iff parse url [] = (λ h. absurd (ground arith), λ (a, i, m). absurd i)
some_matches_iff parse url (b ∷ rest) = (
  λ h. elim (Bool-cases (matches url (parse b))) [
    | inl e ↦ (b, inl refl, (matches_iff url (parse b)).0 e)
    | inr e ↦ let (a, i, m) = (some_matches_iff parse url rest).0 (ground arith) in (a, inr i, m)
  ],
  λ (a, i, m). elim i [
    | inl e ↦
        let found : matches url (parse b) ≡ true =
          (matches_iff url (parse b)).1 (subst (λ x. MatchesParsed url (parse x)) e m) in
        ground arith
    | inr j ↦
        let found : some_matches parse url rest ≡ true =
          (some_matches_iff parse url rest).1 (a, j, m) in
        ground arith
  ],
)

-- An origin is allowed exactly if it is there, its URL parses, and one of the allowed origins parses to a
-- URL with the same host and protocol, and the same port unless it names none.
pub is_origin_allowed_iff :
    (g : Gate) (origin : Value)
    → (is_origin_allowed g origin ≡ true) ↔ (
        (truthy origin ≡ true)
        × ((url : Url) × (g.parse origin ≡ some url)
            × ((a : Value) × In a g.allowed_origins × MatchesParsed url (g.parse a))))
unfolding is_origin_allowed
is_origin_allowed_iff g origin = elim (Bool-cases (truthy origin)) [
  | inr f ↦
      rw (f, is_origin_allowed, not, if◌then◌else◌)
        (λ h. absurd (ground arith), λ h. absurd (ground (arith, h.0)))
  | inl t ↦ elim (Option-cases (g.parse origin)) [
    | inl e ↦
        rw (t, e, is_origin_allowed, not, if◌then◌else◌)
          (λ h. absurd (ground arith), λ (_, (url, p, m)). absurd (ground (arith, p)))
    | inr (url, e) ↦
        rw (t, e, is_origin_allowed, not, if◌then◌else◌)
          (
            λ h. (refl, (url, refl, (some_matches_iff g.parse url g.allowed_origins).0 h)),
            λ (_, (other, p, m)).
                let same : other ≡ url = cc in
                (some_matches_iff g.parse url g.allowed_origins).1 (
                  subst (λ u. (a : Value) × In a g.allowed_origins × MatchesParsed u (g.parse a))
                    same m),
          )
  ]
]
