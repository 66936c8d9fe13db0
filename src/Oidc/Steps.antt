-- ===== src/Oidc/Steps.antt =====
-- The units of work of the flow of codes, in any order and by any number of clients:
-- crates/saffui-core/src/oidc/token.rs, refresh.rs and revoke.rs, and close_session of
-- crates/saffui-core/src/login/session.rs. The two units of an exchange are two steps, so that those
-- of other requests come between them.
use saffui.Base.{
  ℕ, String, Bool, true, false, ◌≡◌, ◌≢◌, ap, ◌∙◌, ◌⊎◌, Option, none, some, List, arith,
  number_keys, ◌==◌, All, Bool-cases, inl, inr, subst,
}
use saffui.Errors.{request_invalid}
use saffui.Work.{M, Stage, done, ◌>>=◌, expect, call, look, begin, commit, >>=-done}
use saffui.Tokens.{
  RefreshToken, StoredRefreshToken, is_some, read_refresh_token, revoke_where,
  revoke_refresh_tokens_of_session,
}
use saffui.Tokens.Families.{IsUnused}
use saffui.Clients.{Client}
use saffui.Login.Sessions.{Session, end_session}
use saffui.Oidc.Codes.{AuthorizationCode, insert_authorization_code}
use saffui.Oidc.World.{Db, World, TokenResponse, session_ended, record_event}
use saffui.Oidc.Issue.{identify_client, close_session, close_ended}
use saffui.Oidc.Token.{end_family, exchange_spend, exchange_finish, rotate_refresh_token}
use saffui.Oidc.Grant.{revoke_work, revoke_owned, owned}
use saffui.Oidc.Units.{IsClient}
use saffui.Oidc.Effects.{
  Gives, Gives-call, Gives-look, Gives-expect, Gives-pure, identify_client-Gives,
}
use saffui.Oidc.Parts.{end_family-Gives, Stays, Stays-of, Parts-then, record_event-Gives}

-- What `mint_id` makes is new: 74 random bits of it are.
abbrev pub MintsUnused : World → Db → Type 0
MintsUnused w d =
    (f : ℕ) → w.mint_id ≡ some f → IsUnused f d.tokens × All (λ k. k.family ≢ some f) d.codes

pub data Step : Db → Db → Type 0 where
  authorized :
      (code : AuthorizationCode) {d : Db}
      → Step d (record d { codes = insert_authorization_code d.codes code })
  spent :
      (w : World) (id : String) (secret : Option (List ℕ)) (code : List ℕ) (s : Stage Db)
      (r : (Client × Option AuthorizationCode) × Stage Db)
      → exchange_spend w id secret code s ≡ done r
      → Step s.kept r.1.kept
  finished :
      (w : World) (client : Client) (code : AuthorizationCode) (digest : List ℕ) (s : Stage Db)
      (r : TokenResponse × Stage Db)
      → MintsUnused w s.kept
      → exchange_finish w client code digest s ≡ done r
      → Step s.kept r.1.kept
  rotated :
      (w : World) (id : String) (secret : Option (List ℕ)) (presented : List ℕ)
      (asked : Option String) (s : Stage Db) (r : Option TokenResponse × Stage Db)
      → rotate_refresh_token w id secret presented asked s ≡ done r
      → Step s.kept r.1.kept
  revoked :
      (w : World) (id : String) (secret presented : Option (List ℕ)) (s : Stage Db)
      (r : Unit {0} × Stage Db)
      → revoke_work w id secret presented s ≡ done r
      → Step s.kept r.1.kept
  closed :
      (w : World) (session : Session) (s : Stage Db) (r : Unit {0} × Stage Db)
      → close_session w session s ≡ done r
      → Step s.kept r.1.kept
  -- What the other parts of the core do: to sessions, to events, and to the tokens of a consent that is
  -- withdrawn or of sessions that are ended.
  elsewhere : (sessions : List Session) {d : Db} → Step d (record d { sessions = sessions })
  withdrawn :
      (concerned : RefreshToken → Bool) (now : ℕ) {d : Db}
      → Step d (record d { tokens = revoke_where concerned now d.tokens })

pub data Reach (d : Db) : Db → Type 0 where
  here : Reach d d
  next : {e f : Db} → Reach d e → Step e f → Reach d f

-- A step that revokes tokens at most.
pub record Revokes (d d' : Db) : Type 0 where
  pub codes_are : d'.codes ≡ d.codes
  pub tokens_are :
      (d'.tokens ≡ d.tokens)
      ⊎ ((concerned : RefreshToken → Bool) × (now : ℕ) × (d'.tokens
            ≡ revoke_where concerned now d.tokens))

Revokes-stay : {d d' : Db} → Stays d d' → Revokes d d'
Revokes-stay p = record { codes_are = p.codes_are; tokens_are = inl p.tokens_are }

Revokes-from : {d e f : Db} → e ≡ d → Revokes e f → Revokes d f
Revokes-from {d} {e} {f} p h = subst (λ x. Revokes x f) p h

module _ (w : World) where
  close_ended-Revokes :
      (session : Session) (was_active : Bool)
      → Gives (λ d a d'. Revokes d d') (close_ended w session was_active)
  unfolding revoke_refresh_tokens_of_session
  close_ended-Revokes session false s r e = Revokes-stay (Stays-of (Gives-pure tt s r e).1)
  close_ended-Revokes session true s r e =
      let op : Db → ℕ × Db = λ d.
        let r = revoke_refresh_tokens_of_session d.tokens session.id w.asked_at in
        (r.0, record d { tokens = r.1 }) in
      let (q, p, k) =
        >>=-done (call op)
          (λ revoked. record_event (session_ended session.person revoked session.id)) s e in
      let a = Gives-call op s q p in
      let b = record_event-Gives (session_ended session.person q.0 session.id) q.1 r k in
      record {
        codes_are = b.codes_are ∙ ap (λ (d : Db). d.codes) a.1;
        tokens_are = inr (
          (λ t. t.session == session.id),
          w.asked_at,
          b.tokens_are ∙ ap (λ (d : Db). d.tokens) a.1,
        );
      }

  pub close_session-Revokes :
      (session : Session) → Gives (λ d a d'. Revokes d d') (close_session w session)
  unfolding close_session
  close_session-Revokes session s r e =
      let op : Db → Bool × Db =
        λ d. let r = end_session d.sessions session.id in (r.0, record d { sessions = r.1 }) in
      let (q, p, k) = >>=-done (call op) (close_ended w session) s e in
      let a = Gives-call op s q p in
      let b = close_ended-Revokes session q.0 q.1 r k in
      record {
        codes_are = b.codes_are ∙ ap (λ (d : Db). d.codes) a.1;
        tokens_are =
            subst
              (λ ts.
                (r.1.kept.tokens ≡ ts)
                ⊎ ((c : RefreshToken → Bool) × (now : ℕ) × (r.1.kept.tokens
                      ≡ revoke_where c now ts)))
              (ap (λ (d : Db). d.tokens) a.1) b.tokens_are;
      }

  revoke_owned-Revokes :
      (client : Client) (token : List ℕ) (o : Option StoredRefreshToken)
      → Gives (λ d a d'. Revokes d d') (revoke_owned w client token o)
  revoke_owned-Revokes client token none s r e = elim (Bool-cases (w.is_access_token token)) [
    | inl h ↦ absurd (ground (arith, e, h))
    | inr h ↦ Revokes-stay (Stays-of (Gives-pure tt s r (rw h at e)).1)
  ]
  revoke_owned-Revokes client token (some x) s r e = elim (Bool-cases (is_some x.revoked_at)) [
    | inl h ↦ Revokes-stay (Stays-of (Gives-pure tt s r (rw h at e)).1)
    | inr h ↦
        let ending : M Db (Unit {0}) =
          end_family client.client_id x.token.family x.token.person x.token.session "asked"
            w.asked_at in
        let (q, p, k) = >>=-done ending (λ _. commit) s (rw h at e) in
        let a =
          end_family-Gives client.client_id x.token.family x.token.person x.token.session "asked"
            w.asked_at s q p in
        let b = Parts-then a (Stays-of (Gives-look (λ (d : Db). tt) q.1 r k).1) in
        record {
          codes_are = b.codes_are;
          tokens_are = inr ((λ t. t.family == x.token.family), w.asked_at, b.tokens_are);
        }
  ]

  -- What the end of a revocation starts from: the client, the token that is presented, and the realm as
  -- it was.
  abbrev pub RevokesOwned :
      String → Option (List ℕ) → Option (List ℕ) → Stage Db → Unit {0} × Stage Db → Type 0
  RevokesOwned id secret presented s r =
      (client : Client) × (token : List ℕ) × (q : Stage Db) × IsClient w id secret client
      × (presented ≡ some token)
      × (q.kept ≡ s.kept)
      × (revoke_owned w client token
            (owned w client (read_refresh_token s.kept.tokens (w.sha256 token))) q
          ≡ done r)

  pub revoke_work-owned :
      (id : String) (secret presented : Option (List ℕ)) (s : Stage Db) (r : Unit {0} × Stage Db)
      → revoke_work w id secret presented s ≡ done r
      → RevokesOwned id secret presented s r
  unfolding revoke_work
  revoke_work-owned id secret presented s r e =
      let find : List ℕ → Db → Option StoredRefreshToken =
        λ token d. read_refresh_token d.tokens (w.sha256 token) in
      let revoke : Client → List ℕ → M Db (Unit {0}) = λ client token.
        look (find token) >>= λ stored. revoke_owned w client token (owned w client stored) in
      let rest : Client → M Db (Unit {0}) =
        λ client. expect presented request_invalid >>= revoke client in
      let (q0, p0, k0) = >>=-done begin (λ _. identify_client w id secret >>= rest) s e in
      let a = Gives-look (λ (d : Db). tt) s q0 p0 in
      let (q1, p1, k1) = >>=-done (identify_client w id secret) rest q0.1 k0 in
      let b = identify_client-Gives w id secret q0.1 q1 p1 in
      let (q2, p2, k2) = >>=-done (expect presented request_invalid) (revoke q1.0) q1.1 k1 in
      let c = Gives-expect presented request_invalid q1.1 q2 p2 in
      let (q3, p3, k3) =
        >>=-done (look (find q2.0)) (λ stored. revoke_owned w q1.0 q2.0 (owned w q1.0 stored)) q2.1
          k2 in
      let f = Gives-look (find q2.0) q2.1 q3 p3 in
      let before = c.1 ∙ b.1 ∙ a.1 in
      (
        q1.0,
        q2.0,
        q3.1,
        b.0,
        c.0,
        f.1 ∙ before,
        subst (λ o. revoke_owned w q1.0 q2.0 (owned w q1.0 o) q3.1 ≡ done r)
            (f.0 ∙ ap (find q2.0) before) k3,
      )

  pub revoke_work-Revokes :
      (id : String) (secret presented : Option (List ℕ))
      → Gives (λ d a d'. Revokes d d') (revoke_work w id secret presented)
  revoke_work-Revokes id secret presented s r e =
      let (client, token, q, _, _, same, k) = revoke_work-owned id secret presented s r e in
      Revokes-from same (
        revoke_owned-Revokes client token
          (owned w client (read_refresh_token s.kept.tokens (w.sha256 token))) q r k)
