-- ===== src/Oidc/OneGrant/Kept.antt =====
-- What the steps of crates/saffui-core/src/oidc/token.rs, refresh.rs and revoke.rs keep of the grant
-- that a family of refresh tokens is of.
use mathlib.Core.List.{Memᴰ}
use saffui.Base.{
  ℕ, String, ◌≡◌, refl, sym, ap, ◌∙◌, Option, none, some, List, [], ◌∷◌, inl, inr, subst, All,
  Option-cases,
}
use saffui.Tokens.{
  RefreshToken, StoredRefreshToken, is_spendable, insert_refresh_token, spend_refresh_token,
}
use saffui.Tokens.Families.{IsUnused}
use saffui.Clients.{Client}
use saffui.Oidc.World.{Db, World, TokenResponse}
use saffui.Oidc.Issue.{next_token}
use saffui.Oidc.Token.{rotation_grant}
use saffui.Oidc.Codes.{AuthorizationCode, ReplayedCode}
use saffui.Oidc.Units.{Spent, exchange_spend-Gives}
use saffui.Oidc.Parts.{taken_tokens}
use saffui.Oidc.Issued.{exchange_finish-Gives}
use saffui.Oidc.Rotated.{Rotated, renewed, replayed, rotate_refresh_token-Gives}
use saffui.Oidc.Rotations.{Renewed}
use saffui.Oidc.Steps.{
  Step, authorized, spent, finished, rotated, revoked, closed, elsewhere, withdrawn, Reach, here,
  next, Revokes, close_session-Revokes, revoke_work-Revokes,
}
use saffui.Oidc.Safety.{spend-Spends, nothing}
use saffui.Oidc.OneGrant.{
  SameGrant, Agree, OneGrant, tokens_of, Agree-mem, Agree-like, OneGrant-snoc,
  tokens_of-revoke_where, tokens_of-insert, tokens_of-Spends, Spends-mem, Spends-passes,
  spendable-client, standing-id,
}

tokens_of-taken :
    (now : ℕ) (o : Option ReplayedCode) (ts : List StoredRefreshToken)
    → tokens_of (taken_tokens now o ts) ≡ tokens_of ts
tokens_of-taken now none ts = refl
tokens_of-taken now (some r) ts = elim (Option-cases r.family) [
  | inl e ↦ rw e
  | inr (g, e) ↦ rw e (tokens_of-revoke_where _ now ts)
]

tokens_of-Spent :
    (w : World) (digest : List ℕ) (client : Client) (o : Option AuthorizationCode) (d d' : Db)
    → Spent w digest client o d d'
    → tokens_of d'.tokens ≡ tokens_of d.tokens
tokens_of-Spent w digest client (some code) d d' s = ap tokens_of s.1.tokens_are
tokens_of-Spent w digest client none d d' (e, _, p, t) =
    ap tokens_of t.marks.tokens_are
    ∙ tokens_of-taken w.asked_at _ e.tokens
    ∙ ap tokens_of p.tokens_are

tokens_of-Revokes : {d d' : Db} → Revokes d d' → tokens_of d'.tokens ≡ tokens_of d.tokens
tokens_of-Revokes {d} r = elim r.tokens_are [
  | inl e ↦ ap tokens_of e
  | inr (p, now, e) ↦ ap tokens_of e ∙ tokens_of-revoke_where p now d.tokens
]

unused_agrees :
    (t : RefreshToken) (ts : List StoredRefreshToken)
    → IsUnused t.family ts
    → All (Agree t) (tokens_of ts)
unused_agrees t [] h = tt
unused_agrees t (s ∷ ts) h = (λ e. absurd (h.0 (sym e)), unused_agrees t ts h.1)

-- A token written with the fields of one that is kept, or of a family that has none.
OneGrant-inserted :
    (ts us : List StoredRefreshToken) (t : RefreshToken)
    → us ≡ insert_refresh_token ts t
    → All (Agree t) (tokens_of ts)
    → OneGrant (tokens_of ts)
    → OneGrant (tokens_of us)
OneGrant-inserted ts us t e a h =
    subst OneGrant (sym (ap tokens_of e ∙ tokens_of-insert t ts))
      (OneGrant-snoc t (tokens_of ts) a h)

module _ (w : World) where
  Renewed-OneGrant :
      (client : Client) (scopes : Option String) (digest : List ℕ) (used : RefreshToken)
      (rest : List StoredRefreshToken) (a : TokenResponse) (d d' : Db)
      → spend_refresh_token d.tokens digest client.client_id w.asked_at ≡ some (used, rest)
      → Renewed w client scopes used (record d { tokens = rest }) a d'
      → OneGrant (tokens_of d.tokens)
      → OneGrant (tokens_of d'.tokens)
  unfolding next_token
  Renewed-OneGrant client scopes digest used rest a d d' e r h =
      let p = is_spendable d.tokens digest client.client_id w.asked_at in
      let sp = spend-Spends d.tokens digest client.client_id w.asked_at used rest e in
      let same = tokens_of-Spends p w.asked_at sp in
      let (s, passes, is) = Spends-passes p w.asked_at sp in
      let of_client : client.client_id ≡ used.client_id =
        sym (spendable-client d.tokens digest client.client_id w.asked_at s passes)
        ∙ ap (λ (t : RefreshToken). t.client_id) is in
      let fresh = next_token w (rotation_grant w client used r.subject r.scopes) r.token in
      let grant : SameGrant fresh used = record {
        client = of_client;
        session = standing-id w.holds_factor d.sessions used.session w.read_at _ r.live.session;
        scopes = refl;
      } in
      let kept : OneGrant (tokens_of rest) = subst OneGrant (sym same) h in
      OneGrant-inserted rest _ fresh r.leaves.tokens_are
        (Agree-like fresh used (tokens_of rest) refl grant (
          Agree-mem used (tokens_of rest) kept
            (subst (Memᴰ used) (sym same) (Spends-mem p w.asked_at sp))))
        kept

  Rotated-OneGrant :
      (client : Client) (scopes : Option String) (digest : List ℕ) (a : Option TokenResponse)
      (d d' : Db)
      → Rotated w client scopes digest d a d'
      → OneGrant (tokens_of d.tokens)
      → OneGrant (tokens_of d'.tokens)
  Rotated-OneGrant client scopes digest a d d' (renewed {spent = used} {rest} {response} e r) h =
      Renewed-OneGrant client scopes digest used rest response d d' e r h
  Rotated-OneGrant client scopes digest a d d' (replayed e r) h =
      subst OneGrant
        (sym (ap tokens_of r.leaves.tokens_are ∙ tokens_of-revoke_where _ w.asked_at d.tokens)) h

Step-OneGrant :
    {d d' : Db} → Step d d' → OneGrant (tokens_of d.tokens) → OneGrant (tokens_of d'.tokens)
unfolding next_token
Step-OneGrant (authorized code) h = h
Step-OneGrant (spent w id secret code s r e) h =
    subst OneGrant
      (sym (
        tokens_of-Spent w _ r.0.0 r.0.1 s.kept r.1.kept
          (exchange_spend-Gives w id secret code s r e).2))
      h
Step-OneGrant (finished w client code digest s r fresh e) h =
    let o = (exchange_finish-Gives w client code digest s r e).obtains in
    OneGrant-inserted s.kept.tokens _ _ o.leaves.tokens_are
      (unused_agrees _ s.kept.tokens (fresh o.family o.minted).0) h
Step-OneGrant (rotated w id secret presented scopes s r e) h =
    let (client, _, _, t) = rotate_refresh_token-Gives w id secret presented scopes s r e in
    Rotated-OneGrant w client scopes _ r.0 s.kept r.1.kept t h
Step-OneGrant (revoked w id secret presented s r e) h =
    subst OneGrant (sym (tokens_of-Revokes (revoke_work-Revokes w id secret presented s r e))) h
Step-OneGrant (closed w session s r e) h =
    subst OneGrant (sym (tokens_of-Revokes (close_session-Revokes w session s r e))) h
Step-OneGrant (elsewhere sessions) h = h
Step-OneGrant (withdrawn p now {d}) h =
    subst OneGrant (sym (tokens_of-revoke_where p now d.tokens)) h

-- Whatever requests are served and in whatever order, two refresh tokens of one family are of one
-- client, of one session and for the same scopes: a rotation never widens or moves what was granted.
-- What `mint_id` makes is taken to be new.
pub Reach-OneGrant : {d : Db} → Reach nothing d → OneGrant (tokens_of d.tokens)
Reach-OneGrant here = tt
Reach-OneGrant (next r st) = Step-OneGrant st (Reach-OneGrant r)
