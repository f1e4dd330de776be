-- ===== src/Net/Emits.antt =====
-- The frames that an operation adds to the log, and where it may send them.
use null_key.Base.{
  ◌≡◌, sym, ap, ◌∙◌, List, [], ◌∷◌, ◌++◌, append-nil, append_assoc, All, All-append,
}
use null_key.Net.{Net, Effect}

-- `n'` is `n` with more effects, each of which meets `P`.
abbrev pub Emits : (Effect → Type 0) → Net → Net → Type 0
Emits P n n' = (es : List Effect) × (n'.log ≡ n.log ++ es) × All P es

pub Emits-refl : (P : Effect → Type 0) (n : Net) → Emits P n n
Emits-refl P n = ([], sym (append-nil n.log), tt)

pub Emits-trans : (P : Effect → Type 0) (a b c : Net) → Emits P a b → Emits P b c → Emits P a c
Emits-trans P a b c (es, p, h) (fs, q, k) =
    (es ++ fs, q ∙ ap (λ l. l ++ fs) p ∙ append_assoc a.log es fs, All-append P es fs h k)

pub Emits-map :
    (P Q : Effect → Type 0) (a b : Net) → ((e : Effect) → P e → Q e) → Emits P a b → Emits Q a b
Emits-map P Q a b f (es, h, p) = (es, h, all es p)
  where
    all : (es : List Effect) → All P es → All Q es
    all [] p = tt
    all (e ∷ es) p = (f e p.0, all es p.1)
