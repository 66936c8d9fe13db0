-- ===== src/Oidc/Rotated.antt =====
-- What a rotation of crates/saffui-core/src/oidc/refresh.rs leaves in the realm when it succeeds.
use saffui.Base.{
  ℕ, String, true, ◌≡◌, refl, sym, ap, ◌∙◌, Option, none, some, List, text_keys, text_keys, subst,
}
use saffui.Errors.{grant_not_allowed, grant_invalid}
use saffui.Work.{M, Stage, done, ◌>>=◌, ◌>>◌, ensure, expect, call, look, begin, >>=-done}
use saffui.Tokens.{RefreshToken, StoredRefreshToken, spend_refresh_token, read_refresh_token}
use saffui.Clients.{Client}
use saffui.Login.Sessions.{Session}
use saffui.Oidc.World.{Db, World, Person, TokenResponse}
use saffui.Oidc.Issue.{identify_client, read_live_subject}
use saffui.Oidc.Token.{
  is_of_person, is_replayed, end_replayed, rotation_grant, renew, rotate, spent_of,
  spend_kept_token, rotate_refresh_token,
}
use saffui.Oidc.Effects.{
  Gives, Gives-call, Gives-look, Gives-ensure, Gives-expect, IsLive, identify_client-Gives,
  read_live_subject-Gives, with_token,
}
use saffui.Oidc.Units.{IsClient}
use saffui.Oidc.Parts.{Parts-by}
use saffui.Oidc.Issued.{is_of_person-some}
use saffui.Oidc.Rotations.{Renewed, Replayed, end_replayed-Gives, renew-Gives}

module _ (w : World) where
  pub data Rotated (client : Client) (asked : Option String) (digest : List ℕ) (d : Db)
      : Option TokenResponse → Db → Type 0 where
    renewed :
        {spent : RefreshToken} {rest : List StoredRefreshToken} {response : TokenResponse} {d' : Db}
        → spend_refresh_token d.tokens digest client.client_id w.asked_at ≡ some (spent, rest)
        → Renewed w client asked spent (record d { tokens = rest }) response d'
        → Rotated client asked digest d (some response) d'
    replayed :
        {d' : Db}
        → spend_refresh_token d.tokens digest client.client_id w.asked_at ≡ none
        → Replayed w client digest d d'
        → Rotated client asked digest d none d'

  Rotated-by :
      {client : Client} {asked : Option String} {digest : List ℕ} {d d' : Db}
      {a b : Option TokenResponse}
      → a ≡ b
      → Rotated client asked digest d b d'
      → Rotated client asked digest d a d'
  Rotated-by {client} {asked} {digest} {d} {d'} e h =
      subst (λ x. Rotated client asked digest d x d') (sym e) h

  rotate-replayed :
      (client : Client) (asked : Option String) (digest : List ℕ) (d : Db)
      → spend_refresh_token d.tokens digest client.client_id w.asked_at ≡ none
      → (s : Stage Db) (r : Option TokenResponse × Stage Db) → s.kept ≡ d
      → rotate w client asked digest none s ≡ done r
      → Rotated client asked digest d r.0 r.1.kept
  rotate-replayed client asked digest d h s r g e =
      let find : Db → Option StoredRefreshToken = λ d. read_refresh_token d.tokens digest in
      let (q, p, k) =
        >>=-done (look find) (λ o. end_replayed w client (is_replayed w client o)) s e in
      let a = Gives-look find s q p in
      let b =
        end_replayed-Gives w client digest d (is_replayed w client q.0)
          (ap (is_replayed w client) (sym (a.0 ∙ ap find g))) q.1 r (a.1 ∙ g) k in
      Rotated-by b.0 (replayed h b.1)

  rotate-renewed :
      (client : Client) (asked : Option String) (digest : List ℕ) (d : Db) (spent : RefreshToken)
      (rest : List StoredRefreshToken)
      → spend_refresh_token d.tokens digest client.client_id w.asked_at ≡ some (spent, rest)
      → (s : Stage Db) (r : Option TokenResponse × Stage Db) → s.kept ≡ record d { tokens = rest }
      → rotate w client asked digest (some spent) s ≡ done r
      → Rotated client asked digest d r.0 r.1.kept
  rotate-renewed client asked digest d spent rest h s r g e =
      let e0 : Db = record d { tokens = rest } in
      let find : Option (Session × Person) → M Db (Option TokenResponse) = λ live.
        expect (is_of_person w spent.person live) grant_invalid >>= renew w client asked spent in
      let (q1, p1, k1) = >>=-done (read_live_subject w spent.session) find s e in
      let a = read_live_subject-Gives w spent.session s q1 p1 in
      let (q2, p2, k2) =
        >>=-done (expect (is_of_person w spent.person q1.0) grant_invalid)
          (renew w client asked spent) q1.1 k1 in
      let b = Gives-expect (is_of_person w spent.person q1.0) grant_invalid q1.1 q2 p2 in
      let who = is_of_person-some spent.person q1.0 q2.0 w b.0 in
      let (response, scopes, token, c, f, i, j) = renew-Gives w client asked spent q2.0 q2.1 r k2 in
      Rotated-by c (
        renewed h (record {
          subject = q2.0;
          scopes = scopes;
          token = token;
          live = subst (λ x. IsLive w x spent.session q2.0) g (a.0 q2.0 who.0);
          person_is = who.1;
          narrowed = f;
          answers = i;
          leaves = Parts-by (
              j
              ∙ ap (with_token w (rotation_grant w client spent q2.0 scopes) token)
                  (b.1 ∙ a.1 ∙ g));
        }))

  rotate-Gives :
      (client : Client) (asked : Option String) (digest : List ℕ) (d : Db)
      (o : Option (RefreshToken × List StoredRefreshToken))
      → spend_refresh_token d.tokens digest client.client_id w.asked_at ≡ o
      → (q : Option RefreshToken × Stage Db) (r : Option TokenResponse × Stage Db)
      → (q.0 ≡ (spend_kept_token w digest client.client_id d).0)
      → (q.1.kept ≡ (spend_kept_token w digest client.client_id d).1)
      → rotate w client asked digest q.0 q.1 ≡ done r
      → Rotated client asked digest d r.0 r.1.kept
  rotate-Gives client asked digest d none h q r a b e =
      rotate-replayed client asked digest d h q.1 r (b ∙ ap (λ o. (spent_of w d o).1) h) (
        subst (λ x. rotate w client asked digest x q.1 ≡ done r)
          (a ∙ ap (λ o. (spent_of w d o).0) h) e)
  rotate-Gives client asked digest d (some (spent, rest)) h q r a b e =
      rotate-renewed client asked digest d spent rest h q.1 r (b ∙ ap (λ o. (spent_of w d o).1) h) (
        subst (λ x. rotate w client asked digest x q.1 ≡ done r)
          (a ∙ ap (λ o. (spent_of w d o).0) h) e)

  pub rotate_refresh_token-Gives :
      (id : String) (secret : Option (List ℕ)) (presented : List ℕ) (asked : Option String)
      → Gives
          (λ d a d'.
            (client : Client) × IsClient w id secret client
            × (client.allows_authorization_code ≡ true)
            × Rotated client asked (w.sha256 presented) d a d')
          (rotate_refresh_token w id secret presented asked)
  unfolding rotate_refresh_token
  rotate_refresh_token-Gives id secret presented asked s r e =
      let digest : List ℕ = w.sha256 presented in
      let spend : Client → M Db (Option TokenResponse) = λ client.
        call (spend_kept_token w digest client.client_id) >>= rotate w client asked digest in
      let rest : Client → M Db (Option TokenResponse) =
        λ client. ensure client.allows_authorization_code grant_not_allowed >> spend client in
      let (q0, p0, k0) = >>=-done begin (λ _. identify_client w id secret >>= rest) s e in
      let a = Gives-look (λ (d : Db). tt) s q0 p0 in
      let (q1, p1, k1) = >>=-done (identify_client w id secret) rest q0.1 k0 in
      let b = identify_client-Gives w id secret q0.1 q1 p1 in
      let (q2, p2, k2) =
        >>=-done (ensure q1.0.allows_authorization_code grant_not_allowed) (λ _. spend q1.0) q1.1
          k1 in
      let c = Gives-ensure q1.0.allows_authorization_code grant_not_allowed q1.1 q2 p2 in
      let op : Db → Option RefreshToken × Db = spend_kept_token w digest q1.0.client_id in
      let (q3, p3, k3) = >>=-done (call op) (rotate w q1.0 asked digest) q2.1 k2 in
      let f = Gives-call op q2.1 q3 p3 in
      let same : q2.1.kept ≡ s.kept = c.1 ∙ b.1 ∙ a.1 in
      (
        q1.0,
        b.0,
        c.0,
        rotate-Gives q1.0 asked digest s.kept
            (spend_refresh_token s.kept.tokens digest q1.0.client_id w.asked_at) refl q3 r
            (f.0 ∙ ap (λ d. (op d).0) same) (f.1 ∙ ap (λ d. (op d).1) same) k3,
      )
