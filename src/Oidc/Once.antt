-- ===== src/Oidc/Once.antt =====
-- Two exchanges of one authorization code: crates/saffui-core/src/oidc/token.rs over the codes of code.rs.
use saffui.Base.{
  ℕ, String, Bool, true, ◌≡◌, refl, Option, none, some, List, [], ◌∷◌, arith, inl, inr, subst,
  Bool-cases, ◌==◌,
}
use saffui.Base.Bytes.{bytes_keys}
use saffui.Work.{Stage, done}
use saffui.Tokens.{is_some}
use saffui.Clients.{Client}
use saffui.Oidc.Codes.{AuthorizationCode, KeptCode, at_code, spend_authorization_code}
use saffui.Oidc.World.{Db, World}
use saffui.Oidc.Token.{exchange_spend}
use saffui.Oidc.Units.{Spent, exchange_spend-Gives}
use saffui.Oidc.Kept.{has_mark, Reach-keeps}
use saffui.Oidc.Steps.{Reach}

-- Whether the code that a digest finds is spent.
abbrev was_spent : List ℕ → List KeptCode → Bool
was_spent = has_mark (λ k. is_some k.spent_at)

Reach-was_spent :
    (digest : List ℕ) {d d' : Db}
    → Reach d d'
    → was_spent digest d.codes ≡ true
    → was_spent digest d'.codes ≡ true
Reach-was_spent digest =
    Reach-keeps (λ k. is_some k.spent_at) digest (λ now k. (ground arith, λ h. ground (arith, h)))
      (λ family k. (ground arith, λ h. ground (arith, h)))
      (λ client_id now k. (ground arith, λ h. ground (arith, h)))

spend-was_spent :
    (digest : List ℕ) (now : ℕ) (ks : List KeptCode) (code : AuthorizationCode)
    → (spend_authorization_code ks digest now).0 ≡ some code
    → was_spent digest (spend_authorization_code ks digest now).1 ≡ true
unfolding has_mark spend_authorization_code at_code
spend-was_spent digest now [] code h = absurd (cc)
spend-was_spent digest now (k ∷ ks) code h = elim (Bool-cases (k.code.code_digest == digest)) [
  | inl e ↦ ground (arith, h, e)
  | inr e ↦ ground (arith, h, e, spend-was_spent digest now ks code)
]

was_spent-none :
    (digest : List ℕ) (now : ℕ) (ks : List KeptCode)
    → was_spent digest ks ≡ true
    → (spend_authorization_code ks digest now).0 ≡ none
unfolding has_mark spend_authorization_code at_code
was_spent-none digest now [] h = refl
was_spent-none digest now (k ∷ ks) h = elim (Bool-cases (k.code.code_digest == digest)) [
  | inl e ↦ ground (arith, h, e)
  | inr e ↦ ground (arith, h, e, was_spent-none digest now ks)
]

Spent-none :
    (w : World) (digest : List ℕ) (client : Client) (o : Option AuthorizationCode) (d d' : Db)
    → Spent w digest client o d d'
    → was_spent digest d.codes ≡ true
    → o ≡ none
Spent-none w digest client none d d' s h = refl
Spent-none w digest client (some code) d d' s h =
    absurd (ground (arith, s.0, was_spent-none digest w.asked_at d.codes h))

Spent-some :
    (w : World) (digest : List ℕ) (client : Client) (o : Option AuthorizationCode)
    (code : AuthorizationCode) (d d' : Db)
    → Spent w digest client o d d'
    → o ≡ some code
    → was_spent digest d'.codes ≡ true
Spent-some w digest client none code d d' s e = absurd (cc)
Spent-some w digest client (some other) code d d' s e =
    rw s.1.codes_are (spend-was_spent digest w.asked_at d.codes other s.0)

-- Of the exchanges of one code, one at most gets it: once a first unit of work spent it, no other that
-- succeeds does, by whatever client, at whatever instant and whatever requests come between.
pub exchange_spend_once :
    (w v : World) (id id' : String) (secret secret' : Option (List ℕ))
    (presented presented' : List ℕ) (s s' : Stage Db) (client client' : Client)
    (code : AuthorizationCode) (again : Option AuthorizationCode) (r r' : Stage Db)
    → exchange_spend w id secret presented s ≡ done ((client, some code), r)
    → Reach r.kept s'.kept
    → v.sha256 presented' ≡ w.sha256 presented
    → exchange_spend v id' secret' presented' s' ≡ done ((client', again), r')
    → again ≡ none
exchange_spend_once w v id id' secret secret' presented presented' s s' client client' code again r
      r' e reach same e' =
    let first = (exchange_spend-Gives w id secret presented s ((client, some code), r) e).2 in
    let second = (exchange_spend-Gives v id' secret' presented' s' ((client', again), r') e').2 in
    Spent-none v (w.sha256 presented) client' again s'.kept r'.kept
      (subst (λ x. Spent v x client' again s'.kept r'.kept) same second)
      (Reach-was_spent (w.sha256 presented) reach
        (Spent-some w (w.sha256 presented) client (some code) code s.kept r.kept first refl))
