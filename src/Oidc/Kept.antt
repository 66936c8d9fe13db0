-- ===== src/Oidc/Kept.antt =====
-- What stays of a code of crates/saffui-core/src/oidc/code.rs over the steps of a realm: a mark that the
-- operations on codes keep.
use saffui.Base.{
  ℕ, String, Bool, true, false, ◌≡◌, Option, none, some, List, [], ◌∷◌, arith, inl, inr, Bool-cases,
  ◌==◌, if◌then◌else◌, ap, ◌∙◌,
}
use saffui.Base.Bytes.{bytes_keys}
use saffui.Clients.{Client}
use saffui.Oidc.Codes.{
  AuthorizationCode, KeptCode, at_code, spend_kept, bind_kept, mark_kept, insert_authorization_code,
  spend_authorization_code, bind_code_family, mark_code_replayed,
}
use saffui.Oidc.World.{Db, World}
use saffui.Oidc.Units.{Spent, exchange_spend-Gives}
use saffui.Oidc.Issued.{exchange_finish-Gives}
use saffui.Oidc.Rotated.{rotate_refresh_token-Gives}
use saffui.Oidc.Marks.{codes-Rotated}
use saffui.Oidc.Steps.{
  Step, authorized, spent, finished, rotated, revoked, closed, elsewhere, withdrawn, Reach, here,
  next, close_session-Revokes, revoke_work-Revokes,
}

-- Whether the code that a digest finds has a mark.
unfoldable pub has_mark : (KeptCode → Bool) → List ℕ → List KeptCode → Bool
has_mark mark digest [] = false
has_mark mark digest (k ∷ ks) =
    if k.code.code_digest == digest then mark k else has_mark mark digest ks

-- A change of a code that keeps its digest, and its mark.
abbrev pub Keeps {ℓ} : {A : Type ℓ} → (KeptCode → Bool) → (KeptCode → A × KeptCode) → Type 0
Keeps mark found =
    (k : KeptCode)
    → ((found k).1.code.code_digest ≡ k.code.code_digest)
      × (mark k ≡ true → mark (found k).1 ≡ true)

has_mark-at_code {ℓ} :
    {A : Type ℓ} (mark : KeptCode → Bool) (digest other : List ℕ) (missing : A)
    (found : KeptCode → A × KeptCode) (ks : List KeptCode)
    → Keeps mark found
    → has_mark mark digest ks ≡ true
    → has_mark mark digest (at_code other missing found ks).1 ≡ true
unfolding has_mark at_code
has_mark-at_code mark digest other missing found [] f h = h
has_mark-at_code mark digest other missing found (k ∷ ks) f h =
    elim (Bool-cases (k.code.code_digest == other)) [
      | inl e ↦
          let same : ((found k).1.code.code_digest == digest) ≡ (k.code.code_digest == digest) =
            ap (λ x. x == digest) (f k).0 in
          rw e (elim (Bool-cases (k.code.code_digest == digest)) [
            | inl q ↦ rw (same ∙ q) ((f k).1 (rw q at h))
            | inr q ↦ rw (same ∙ q) (rw q at h)
          ])
      | inr e ↦ rw e (ground (arith, h, has_mark-at_code mark digest other missing found ks f))
    ]

has_mark-asked :
    (mark : KeptCode → Bool) (digest : List ℕ) (code : AuthorizationCode) (ks : List KeptCode)
    → has_mark mark digest ks ≡ true
    → has_mark mark digest (insert_authorization_code ks code) ≡ true
unfolding has_mark insert_authorization_code
has_mark-asked mark digest code [] h = absurd (cc)
has_mark-asked mark digest code (k ∷ ks) h = ground (arith, h, has_mark-asked mark digest code ks)

-- A mark that the operations on codes keep stays for good.
module _ (mark : KeptCode → Bool) (digest : List ℕ)
    (spending_keeps : (now : ℕ) → Keeps mark (spend_kept now))
    (binding_keeps : (family : ℕ) → Keeps mark (bind_kept family))
    (marking_keeps : (client_id : String) (now : ℕ) → Keeps mark (mark_kept client_id now)) where
  spent_code :
      (other : List ℕ) (now : ℕ) (ks : List KeptCode)
      → has_mark mark digest ks ≡ true
      → has_mark mark digest (spend_authorization_code ks other now).1 ≡ true
  unfolding spend_authorization_code
  spent_code other now ks =
      has_mark-at_code mark digest other none (spend_kept now) ks (spending_keeps now)

  bound_code :
      (other : List ℕ) (family : ℕ) (ks : List KeptCode)
      → has_mark mark digest ks ≡ true
      → has_mark mark digest (bind_code_family ks other family).1 ≡ true
  unfolding bind_code_family
  bound_code other family ks =
      has_mark-at_code mark digest other false (bind_kept family) ks (binding_keeps family)

  marked_code :
      (other : List ℕ) (client_id : String) (now : ℕ) (ks : List KeptCode)
      → has_mark mark digest ks ≡ true
      → has_mark mark digest (mark_code_replayed ks other client_id now).1 ≡ true
  unfolding mark_code_replayed
  marked_code other client_id now ks =
      has_mark-at_code mark digest other none (mark_kept client_id now) ks
        (marking_keeps client_id now)

  Spent-keeps :
      (w : World) (other : List ℕ) (client : Client) (o : Option AuthorizationCode) (d d' : Db)
      → Spent w other client o d d'
      → has_mark mark digest d.codes ≡ true
      → has_mark mark digest d'.codes ≡ true
  Spent-keeps w other client (some code) d d' s h =
      rw s.1.codes_are (spent_code other w.asked_at d.codes h)
  Spent-keeps w other client none d d' (e, _, p, t) h = rw t.marks.codes_are (
      marked_code other client.client_id w.asked_at e.codes
        (rw p.codes_are (spent_code other w.asked_at d.codes h)))

  Step-keeps :
      {d d' : Db}
      → Step d d'
      → has_mark mark digest d.codes ≡ true
      → has_mark mark digest d'.codes ≡ true
  Step-keeps (authorized code {d}) h = has_mark-asked mark digest code d.codes h
  Step-keeps (spent w id secret code s r e) h =
      Spent-keeps w _ r.0.0 r.0.1 s.kept r.1.kept (exchange_spend-Gives w id secret code s r e).2 h
  Step-keeps (finished w client code other s r fresh e) h =
      let o = (exchange_finish-Gives w client code other s r e).obtains in
      rw o.leaves.codes_are (bound_code other o.family s.kept.codes h)
  Step-keeps (rotated w id secret presented scopes s r e) h =
      let (client, _, _, t) = rotate_refresh_token-Gives w id secret presented scopes s r e in
      rw (codes-Rotated w client scopes _ r.0 s.kept r.1.kept t) h
  Step-keeps (revoked w id secret presented s r e) h =
      rw (revoke_work-Revokes w id secret presented s r e).codes_are h
  Step-keeps (closed w session s r e) h = rw (close_session-Revokes w session s r e).codes_are h
  Step-keeps (elsewhere sessions) h = h
  Step-keeps (withdrawn p now) h = h

  pub Reach-keeps :
      {d d' : Db}
      → Reach d d'
      → has_mark mark digest d.codes ≡ true
      → has_mark mark digest d'.codes ≡ true
  Reach-keeps here h = h
  Reach-keeps (next r st) h = Step-keeps st (Reach-keeps r h)
