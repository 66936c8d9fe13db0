-- ===== src/Oidc/Revoked.antt =====
-- Revocation at the request of a client: crates/saffui-core/src/oidc/revoke.rs.
use saffui.Base.{
  ℕ, String, true, ◌≡◌, ◌≢◌, refl, ap, ◌∙◌, subst, Option, some, List, arith, number_keys,
  text_keys, ◌==◌, Bool-cases, inl, inr,
}
use saffui.Work.{M, Stage, Result, done, failing, commit, >>=-done}
use saffui.Base.Bytes.{bytes_keys}
use saffui.Tokens.{
  RefreshToken, StoredRefreshToken, is_some, spend_refresh_token, read_refresh_token,
}
use saffui.Clients.{Client}
use saffui.Oidc.World.{Db, World}
use saffui.Oidc.Earned.{settle-granted}
use saffui.Oidc.Grant.{granted, owned, revoke_owned, revoke_work, revoke_token, settle}
use saffui.Oidc.Parts.{end_family-Gives, Parts-then, Stays-of}
use saffui.Oidc.Effects.{Gives-pure, Gives-look}
use saffui.Oidc.Token.{end_family}
use saffui.Oidc.Units.{IsClient}
use saffui.Oidc.Issue.{identify_client}
use saffui.Oidc.Steps.{Reach, revoke_work-owned}
use saffui.Oidc.Ended.{
  is_ended, ended_by_revocation, read_of_family, read-ended, Reach-is_ended, spent-ne,
}

module _ (w : World) where
  owned-is_ended :
      (client : Client) (token digest : List ℕ) (known : StoredRefreshToken) (s : Stage Db)
      (r : Unit {0} × Stage Db)
      → known.token.client_id ≡ client.client_id
      → read_refresh_token s.kept.tokens digest ≡ some known
      → revoke_owned w client token (owned w client (some known)) s ≡ done r
      → is_ended known.token.family r.1.kept.tokens ≡ true
  owned-is_ended client token digest known s r of_client is e =
      let yes : (known.token.client_id == client.client_id) ≡ true =
        (text_keys.same_iff known.token.client_id client.client_id).1 of_client in
      elim (Bool-cases (is_some known.revoked_at)) [
        | inl h ↦
            rw ((Gives-pure tt s r (rw (yes, h) at e)).1)
              (read-ended s.kept.tokens digest known is h)
        | inr h ↦
            let ending : M Db (Unit {0}) =
              end_family client.client_id known.token.family known.token.person known.token.session
                "asked" w.asked_at in
            let (q, p, k) = >>=-done ending (λ _. commit) s (rw (yes, h) at e) in
            let a =
              end_family-Gives client.client_id known.token.family known.token.person
                known.token.session "asked" w.asked_at s q p in
            let b = Parts-then a (Stays-of (Gives-look (λ (d : Db). tt) q.1 r k).1) in
            rw b.tokens_are (
              ended_by_revocation known.token.family w.asked_at s.kept.tokens
                (read_of_family s.kept.tokens digest known is))
      ]

  client_of :
      (id : String) (secret : Option (List ℕ)) (a b : Client)
      → IsClient w id secret a
      → IsClient w id secret b
      → a ≡ b
  client_of id secret a b p q = ground (arith, p, q)

  revoke_work-is_ended :
      (id : String) (secret : Option (List ℕ)) (token : List ℕ) (client : Client)
      (known : StoredRefreshToken) (s : Stage Db) (r : Unit {0} × Stage Db)
      → IsClient w id secret client
      → read_refresh_token s.kept.tokens (w.sha256 token) ≡ some known
      → known.token.client_id ≡ client.client_id
      → revoke_work w id secret (some token) s ≡ done r
      → is_ended known.token.family r.1.kept.tokens ≡ true
  revoke_work-is_ended id secret token client known s r proves is of_client e =
      let (found, presented, q, p, shown, kept, k) =
        revoke_work-owned w id secret (some token) s r e in
      let one : client ≡ found = client_of id secret client found proves p in
      let same : presented ≡ token = ground (arith, shown) in
      let k' =
        subst
          (λ x.
            revoke_owned w found x (owned w found (read_refresh_token s.kept.tokens (w.sha256 x))) q
            ≡ done r)
          same k in
      owned-is_ended found token (w.sha256 token) known q r
        (of_client ∙ ap (λ (c : Client). c.client_id) one)
        (ap (λ (d : Db). read_refresh_token d.tokens (w.sha256 token)) kept ∙ is) (rw is at k')

  in_its_realm :
      (id : String) (secret : Option (List ℕ)) (token : List ℕ) (s : Stage Db) (d' : Db)
      (x : Result ℕ)
      → w.resolve_realm ≡ x
      → revoke_token w (some id) secret (some token) s ≡ (d', granted tt)
      → settle s.kept (revoke_work w id secret (some token) s) ≡ (d', granted tt)
  unfolding revoke_token revoke_work identify_client
  in_its_realm id secret token s d' (failing x) q e = absurd (ground (arith, rw q at e))
  in_its_realm id secret token s d' (done realm) q e = rw q at e

  -- Once a client that owns a refresh token had it revoked, no token of its family is ever spent again,
  -- whatever requests come after and in whatever order.
  pub revoked-ne :
      (id : String) (secret : Option (List ℕ)) (token : List ℕ) (client : Client)
      (known : StoredRefreshToken) (s : Stage Db) (d' : Db) {d : Db} (digest : List ℕ)
      (client_id : String) (now : ℕ) (t : RefreshToken) (rest : List StoredRefreshToken)
      → IsClient w id secret client
      → read_refresh_token s.kept.tokens (w.sha256 token) ≡ some known
      → known.token.client_id ≡ client.client_id
      → revoke_token w (some id) secret (some token) s ≡ (d', granted tt)
      → Reach d' d
      → spend_refresh_token d.tokens digest client_id now ≡ some (t, rest)
      → t.family ≢ known.token.family
  revoked-ne id secret token client known s d' {d} digest client_id now t rest proves is of_client e
        reach h =
      let (r, k, kept) =
        settle-granted w s.kept d' tt (revoke_work w id secret (some token) s)
          (in_its_realm id secret token s d' w.resolve_realm refl e) in
      spent-ne d.tokens digest client_id now known.token.family t rest h (
        Reach-is_ended known.token.family reach (
          subst (λ (x : Db). is_ended known.token.family x.tokens ≡ true) kept
            (revoke_work-is_ended id secret token client known s (tt, r) proves is of_client k)))
