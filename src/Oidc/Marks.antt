-- ===== src/Oidc/Marks.antt =====
-- The marks of the codes of crates/saffui-core/src/testkit/memory/login.rs over the steps of a realm:
-- when one was spent, and when it was presented again.
use saffui.Base.{
  ℕ, String, false, ◌≡◌, refl, Option, none, some, List, [], ◌∷◌, arith, All, ◌==◌, Bool-cases, inl,
  inr,
}
use saffui.Base.Bytes.{bytes_keys}
use saffui.Clients.{Client}
use saffui.Oidc.Codes.{
  AuthorizationCode, KeptCode, insert_authorization_code, at_code, spend_kept,
  spend_authorization_code, bind_kept, bind_code_family, mark_kept, mark_code_replayed,
}
use saffui.Oidc.World.{Db, World, TokenResponse}
use saffui.Oidc.Units.{Spent, exchange_spend-Gives}
use saffui.Oidc.Issued.{exchange_finish-Gives}
use saffui.Oidc.Rotated.{Rotated, renewed, replayed, rotate_refresh_token-Gives}
use saffui.Oidc.Steps.{
  Step, authorized, spent, finished, rotated, revoked, closed, elsewhere, withdrawn, Reach, here,
  next, close_session-Revokes, revoke_work-Revokes,
}

abbrev pub SpentFirst : KeptCode → Type 0
SpentFirst k = k.spent_at ≡ none → k.replayed_at ≡ none

at_code-All :
    {A : Type 0} (P : KeptCode → Type 0) (digest : List ℕ) (missing : A)
    (found : KeptCode → A × KeptCode) (ks : List KeptCode)
    → ((k : KeptCode) → P k → P (found k).1)
    → All P ks
    → All P (at_code digest missing found ks).1
unfolding at_code
at_code-All P digest missing found [] f p = p
at_code-All P digest missing found (k ∷ ks) f p = elim (Bool-cases (k.code.code_digest == digest)) [
  | inl e ↦ rw e (f k p.0, p.1)
  | inr e ↦ rw e (p.0, at_code-All P digest missing found ks f p.1)
]

inserted_first :
    (code : AuthorizationCode) (ks : List KeptCode)
    → All SpentFirst ks
    → All SpentFirst (insert_authorization_code ks code)
unfolding insert_authorization_code
inserted_first code [] p = (λ e. refl, tt)
inserted_first code (k ∷ ks) p = (p.0, inserted_first code ks p.1)

spent_first :
    (digest : List ℕ) (now : ℕ) (ks : List KeptCode)
    → All SpentFirst ks
    → All SpentFirst (spend_authorization_code ks digest now).1
unfolding spend_authorization_code
spent_first digest now ks p =
    at_code-All SpentFirst digest none (spend_kept now) ks (λ k h e. ground (arith, h, e)) p

bound_first :
    (digest : List ℕ) (family : ℕ) (ks : List KeptCode)
    → All SpentFirst ks
    → All SpentFirst (bind_code_family ks digest family).1
unfolding bind_code_family
bound_first digest family ks p =
    at_code-All SpentFirst digest false (bind_kept family) ks (λ k h e. ground (arith, h, e)) p

marked_first :
    (digest : List ℕ) (client_id : String) (now : ℕ) (ks : List KeptCode)
    → All SpentFirst ks
    → All SpentFirst (mark_code_replayed ks digest client_id now).1
unfolding mark_code_replayed
marked_first digest client_id now ks p =
    at_code-All SpentFirst digest none (mark_kept client_id now) ks (λ k h e. ground (arith, h, e))
      p

Spent-SpentFirst :
    (w : World) (digest : List ℕ) (client : Client) (o : Option AuthorizationCode) (d d' : Db)
    → Spent w digest client o d d'
    → All SpentFirst d.codes
    → All SpentFirst d'.codes
Spent-SpentFirst w digest client (some code) d d' s p =
    rw s.1.codes_are (spent_first digest w.asked_at d.codes p)
Spent-SpentFirst w digest client none d d' (e, _, q, t) p = rw t.marks.codes_are (
    marked_first digest client.client_id w.asked_at e.codes
      (rw q.codes_are (spent_first digest w.asked_at d.codes p)))

pub codes-Rotated :
    (w : World) (client : Client) (scopes : Option String) (digest : List ℕ)
    (a : Option TokenResponse) (d d' : Db)
    → Rotated w client scopes digest d a d'
    → d'.codes ≡ d.codes
codes-Rotated w client scopes digest a d d' (renewed e r) = r.leaves.codes_are
codes-Rotated w client scopes digest a d d' (replayed e r) = r.leaves.codes_are

Step-SpentFirst : {d d' : Db} → Step d d' → All SpentFirst d.codes → All SpentFirst d'.codes
Step-SpentFirst (authorized code {d}) p = inserted_first code d.codes p
Step-SpentFirst (spent w id secret code s r e) p =
    Spent-SpentFirst w _ r.0.0 r.0.1 s.kept r.1.kept (exchange_spend-Gives w id secret code s r e).2
      p
Step-SpentFirst (finished w client code digest s r fresh e) p =
    let o = (exchange_finish-Gives w client code digest s r e).obtains in
    rw o.leaves.codes_are (bound_first digest o.family s.kept.codes p)
Step-SpentFirst (rotated w id secret presented scopes s r e) p =
    let (client, _, _, t) = rotate_refresh_token-Gives w id secret presented scopes s r e in
    rw (codes-Rotated w client scopes _ r.0 s.kept r.1.kept t) p
Step-SpentFirst (revoked w id secret presented s r e) p =
    rw (revoke_work-Revokes w id secret presented s r e).codes_are p
Step-SpentFirst (closed w session s r e) p = rw (close_session-Revokes w session s r e).codes_are p
Step-SpentFirst (elsewhere sessions) p = p
Step-SpentFirst (withdrawn p now) q = q

pub Reach-SpentFirst : {d d' : Db} → Reach d d' → All SpentFirst d.codes → All SpentFirst d'.codes
Reach-SpentFirst here p = p
Reach-SpentFirst (next r st) p = Step-SpentFirst st (Reach-SpentFirst r p)
