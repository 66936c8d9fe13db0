-- ===== src/Oidc/Rotations.antt =====
-- What a renewal and a replay of crates/saffui-core/src/oidc/refresh.rs leave in the realm.
use saffui.Base.{
  ℕ, String, true, ◌≡◌, refl, ap, ◌∙◌, Option, none, some, List, arith, text_keys, text_keys, ◌==◌,
  Bool-cases, inl, inr, subst,
}
use saffui.Work.{M, Stage, done, ◌>>=◌, ◌>>◌, pure, answered, commit, >>=-done}
use saffui.Tokens.{
  RefreshToken, StoredRefreshToken, is_some, insert_refresh_token, read_refresh_token,
}
use saffui.Clients.{Client}
use saffui.Login.Sessions.{Session}
use saffui.Oidc.Scopes.{narrow_scopes}
use saffui.Oidc.World.{Db, World, Person, TokenResponse}
use saffui.Oidc.Issue.{next_token, answer_for_person}
use saffui.Oidc.Token.{
  end_family, is_replayed, end_replayed, rotation_grant, renew, commit_rotation,
}
use saffui.Oidc.Effects.{
  Gives, Gives-look, Gives-answered, Gives-pure, IsLive, answer_for_person-Gives, with_token,
}
use saffui.Oidc.Parts.{end_family-Gives, Parts, Stays-of, Parts-then, ended_tokens}

module _ (w : World) where
  -- The tokens of a rotation, where one is spent.
  pub record Renewed (client : Client) (asked : Option String) (spent : RefreshToken) (d : Db)
      (a : TokenResponse) (d' : Db) : Type 0 where
    pub subject : Session × Person
    pub scopes : List String
    pub token : List ℕ
    pub live : IsLive w d spent.session subject
    pub person_is : subject.1.id ≡ spent.person
    pub narrowed : narrow_scopes asked spent.scopes ≡ done scopes
    pub answers : a.refresh_token ≡ some token
    pub leaves :
        Parts d.codes
          (insert_refresh_token d.tokens
            (next_token w (rotation_grant w client spent subject scopes) token))
          d
          d'

  -- A token presented after it was used: its family is ended.
  pub record Replayed (client : Client) (digest : List ℕ) (d d' : Db) : Type 0 where
    pub known : StoredRefreshToken
    pub is_read : read_refresh_token d.tokens digest ≡ some known
    pub was_used : is_some known.used_at ≡ true
    pub of_client : known.token.client_id ≡ client.client_id
    pub leaves : Parts d.codes (ended_tokens known.token.family w.asked_at d.tokens) d d'

  pub is_replayed-some :
      (client : Client) (o : Option StoredRefreshToken) (k : StoredRefreshToken)
      → is_replayed w client o ≡ some k
      → (o ≡ some k) × (is_some k.used_at ≡ true) × (k.token.client_id ≡ client.client_id)
  unfolding is_replayed
  is_replayed-some client none k e = absurd (cc)
  is_replayed-some client (some x) k e = elim (Bool-cases (is_some x.used_at)) [
    | inr h ↦ absurd (ground (arith, e, h))
    | inl h ↦ elim (Bool-cases (x.token.client_id == client.client_id)) [
      | inr g ↦ absurd (ground (arith, e, g))
      | inl g ↦
          let same : x ≡ k = ground (arith, e) in
          subst
            (λ (y : StoredRefreshToken).
              (some x ≡ some y)
              × (is_some y.used_at ≡ true)
              × (y.token.client_id ≡ client.client_id))
            same (refl, h, (text_keys.same_iff _ _).0 g)
    ]
  ]

  pub end_replayed-Gives :
      (client : Client) (digest : List ℕ) (d : Db) (o : Option StoredRefreshToken)
      → is_replayed w client (read_refresh_token d.tokens digest) ≡ o
      → (s : Stage Db) (r : Option TokenResponse × Stage Db) → s.kept ≡ d
      → end_replayed w client o s ≡ done r
      → (r.0 ≡ none) × Replayed client digest d r.1.kept
  end_replayed-Gives client digest d none h s r g e = absurd (cc)
  end_replayed-Gives client digest d (some k) h s r g e =
      let answer : Option TokenResponse = none in
      let f = is_replayed-some client (read_refresh_token d.tokens digest) k h in
      let ending : M Db (Unit {0}) =
        end_family client.client_id k.token.family k.token.person k.token.session "replayed"
          w.asked_at in
      let (q1, p1, k1) = >>=-done ending (λ _. commit >> pure answer) s e in
      let a =
        end_family-Gives client.client_id k.token.family k.token.person k.token.session "replayed"
          w.asked_at s q1 p1 in
      let (q2, p2, k2) = >>=-done commit (λ _. pure answer) q1.1 k1 in
      let b = Gives-look (λ (d : Db). tt) q1.1 q2 p2 in
      let c = Gives-pure answer q2.1 r k2 in
      (
        c.0,
        record {
          known = k;
          is_read = f.0;
          was_used = f.1;
          of_client = f.2;
          leaves =
              Parts-then
                (subst
                  (λ x. Parts x.codes (ended_tokens k.token.family w.asked_at x.tokens) x q1.1.kept)
                  g a)
                (Stays-of (c.1 ∙ b.1));
        },
      )

  pub renew-Gives :
      (client : Client) (asked : Option String) (spent : RefreshToken) (x : Session × Person)
      → Gives
          (λ d a d'.
            (response : TokenResponse) × (scopes : List String) × (token : List ℕ) × (a
              ≡ some response)
            × (narrow_scopes asked spent.scopes ≡ done scopes)
            × (response.refresh_token ≡ some token)
            × (d' ≡ with_token w (rotation_grant w client spent x scopes) token d))
          (renew w client asked spent x)
  renew-Gives client asked spent x s r e =
      let answer : List String → M Db (Option TokenResponse) = λ scopes.
        answer_for_person w (rotation_grant w client spent x scopes) >>= commit_rotation w in
      let (q1, p1, k1) = >>=-done (answered (narrow_scopes asked spent.scopes)) answer s e in
      let a = Gives-answered (narrow_scopes asked spent.scopes) s q1 p1 in
      let (q2, p2, k2) =
        >>=-done (answer_for_person w (rotation_grant w client spent x q1.0)) (commit_rotation w)
          q1.1 k1 in
      let (token, b, c) =
        answer_for_person-Gives w (rotation_grant w client spent x q1.0) q1.1 q2 p2 in
      let answer : Option TokenResponse = some q2.0 in
      let (q3, p3, k3) = >>=-done commit (λ _. pure answer) q2.1 k2 in
      let f = Gives-look (λ (d : Db). tt) q2.1 q3 p3 in
      let g = Gives-pure answer q3.1 r k3 in
      (
        q2.0,
        q1.0,
        token,
        g.0,
        a.0,
        b,
        g.1 ∙ f.1 ∙ c ∙ ap (with_token w (rotation_grant w client spent x q1.0) token) a.1,
      )
