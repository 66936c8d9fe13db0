-- ===== src/Oidc/Refused.antt =====
-- What a request to crates/saffui-core/src/oidc/token.rs that is refused leaves.
use saffui.Base.{
  arith, ℕ, String, ◌≡◌, ◌↔◌, refl, ◌⊎◌, Option, none, some, List, text_keys, ◌==◌, Bool-cases,
  Option-cases, inl, inr, subst,
}
use saffui.Errors.{ErrorCode, Failure, grant_invalid, client_authentication_failed, realm_not_found}
use saffui.Work.{failure, Stage, Result, done, failing}
use saffui.Clients.{Client}
use saffui.Oidc.Failures.{OauthFailure, oauth_failure, error_of_code, invalid_grant, invalid_client}
use saffui.Oidc.Codes.{AuthorizationCode}
use saffui.Oidc.World.{Db, World, TokenRequest, TokenResponse}
use saffui.Oidc.Token.{exchange_spend, exchange_finish, rotate_refresh_token}
use saffui.Oidc.Grant.{
  Answer, granted, refused_with, settle, settle_rotation, finish, exchange_code, is_bound_to,
  service_grant, grant_to_service, missing, exchange_asked, rotate_asked, serve, grant_served,
  in_realm, grant_asked, is_served, grant_token,
}
use saffui.Oidc.Units.{exchange_spend-Gives}

-- What a refusal is told as, of two words that say something of a grant or of a client: the grant was
-- refused, and the client was not authenticated or the realm is not there, which are told alike.
abbrev pub Told : OauthFailure → Type 0
Told e =
    ((e.error ≡ invalid_grant) ↔ (e.cause.code ≡ grant_invalid))
    × ((e.error ≡ invalid_client)
        ↔ ((e.cause.code ≡ client_authentication_failed) ⊎ (e.cause.code ≡ realm_not_found)))

-- The tokens are as they were, or it is the grant that was refused.
abbrev Harmless : Db → Db → OauthFailure → Type 0
Harmless d d' e = ((d'.tokens ≡ d.tokens) ⊎ (e.cause.code ≡ grant_invalid)) × Told e

told_code :
    (code : ErrorCode)
    → ((error_of_code code ≡ invalid_grant) ↔ (code ≡ grant_invalid))
      × ((error_of_code code ≡ invalid_client)
          ↔ ((code ≡ client_authentication_failed) ⊎ (code ≡ realm_not_found)))
unfolding error_of_code
told_code code = ground arith

Told-failure : (f : Failure) → Told (oauth_failure f)
unfolding oauth_failure
Told-failure f = told_code f.code

is_of_grant : (oauth_failure (failure grant_invalid)).cause.code ≡ grant_invalid
unfolding oauth_failure
is_of_grant = refl

-- An answer that, where it refuses, is harmless.
abbrev IsHarmless : {A : Type 0} → Db → Db × Answer A → Type 0
IsHarmless d (d', granted a) = Unit
IsHarmless d (d', refused_with e) = Harmless d d' e

settle-IsHarmless : {A : Type 0} (d : Db) (x : Result (A × Stage Db)) → IsHarmless d (settle d x)
settle-IsHarmless d (done r) = tt
settle-IsHarmless d (failing e) = (inl refl, Told-failure _)

-- What comes after a unit of work that left the tokens alone.
settle_after :
    {A : Type 0} (d e : Db) (x : Result (A × Stage Db))
    → e.tokens ≡ d.tokens
    → IsHarmless d (settle e x)
settle_after d e (done r) h = tt
settle_after d e (failing f) h = (inl h, Told-failure _)

rotation-IsHarmless :
    (d : Db) (x : Result (Option TokenResponse × Stage Db)) → IsHarmless d (settle_rotation d x)
rotation-IsHarmless d (done (some response, s)) = tt
rotation-IsHarmless d (done (none, s)) = (inr is_of_grant, Told-failure _)
rotation-IsHarmless d (failing e) = (inl refl, Told-failure _)

module _ (w : World) where
  finish-IsHarmless :
      (id : String) (secret : Option (List ℕ)) (presented : List ℕ) (uri : String)
      (verifier : List ℕ) (s : Stage Db)
      (x : Result ((Client × Option AuthorizationCode) × Stage Db))
      → exchange_spend w id secret presented s ≡ x
      → IsHarmless s.kept (finish w uri verifier (w.sha256 presented) s.kept x)
  finish-IsHarmless id secret presented uri verifier s (failing e) g = (inl refl, Told-failure _)
  finish-IsHarmless id secret presented uri verifier s (done ((client, none), r)) g =
      (inr is_of_grant, Told-failure _)
  finish-IsHarmless id secret presented uri verifier s (done ((client, some code), r)) g =
      let (_, _, spent) = exchange_spend-Gives w id secret presented s ((client, some code), r) g in
      elim (Bool-cases (is_bound_to w code client uri verifier)) [
        | inr b ↦ rw b (inl spent.1.tokens_are, Told-failure _)
        | inl b ↦ rw b (
            settle_after s.kept r.kept (exchange_finish w client code (w.sha256 presented) r)
              spent.1.tokens_are)
      ]

  exchange_code-IsHarmless :
      (id : String) (secret : Option (List ℕ)) (presented : List ℕ) (uri : String)
      (verifier : List ℕ) (s : Stage Db)
      → IsHarmless s.kept (exchange_code w id secret presented uri verifier s)
  unfolding exchange_code
  exchange_code-IsHarmless id secret presented uri verifier s =
      finish-IsHarmless id secret presented uri verifier s (exchange_spend w id secret presented s)
        refl

  grant_to_service-IsHarmless :
      (r : TokenRequest) (s : Stage Db) → IsHarmless s.kept (grant_to_service w r s)
  unfolding grant_to_service
  grant_to_service-IsHarmless r s = elim (Option-cases r.client_id) [
    | inl e ↦ rw e (inl refl, Told-failure _)
    | inr (id, e) ↦ rw e (elim (Option-cases r.client_secret) [
      | inl f ↦ rw f (inl refl, Told-failure _)
      | inr (secret, f) ↦ rw f (settle-IsHarmless s.kept (service_grant w id secret r.scope s))
    ])
  ]

  exchange_asked-IsHarmless :
      (r : TokenRequest) (s : Stage Db) → IsHarmless s.kept (exchange_asked w r s)
  exchange_asked-IsHarmless r s = elim (Option-cases r.client_id) [
    | inl e ↦ rw e (inl refl, Told-failure _)
    | inr (id, e) ↦ rw e (elim (Option-cases r.code) [
      | inl f ↦ rw f (inl refl, Told-failure _)
      | inr (code, f) ↦ rw f (elim (Option-cases r.redirect_uri) [
        | inl g ↦ rw g (inl refl, Told-failure _)
        | inr (uri, g) ↦ rw g (elim (Option-cases r.code_verifier) [
          | inl h ↦ rw h (inl refl, Told-failure _)
          | inr (verifier, h) ↦
              rw h (exchange_code-IsHarmless id r.client_secret code uri verifier s)
        ])
      ])
    ])
  ]

  rotate_asked-IsHarmless :
      (r : TokenRequest) (s : Stage Db) → IsHarmless s.kept (rotate_asked w r s)
  rotate_asked-IsHarmless r s = elim (Option-cases r.client_id) [
    | inl e ↦ rw e (inl refl, Told-failure _)
    | inr (id, e) ↦ rw e (elim (Option-cases r.refresh_token) [
      | inl f ↦ rw f (inl refl, Told-failure _)
      | inr (token, f) ↦
          rw f
            (rotation-IsHarmless s.kept (rotate_refresh_token w id r.client_secret token r.scope s))
    ])
  ]

  serve-IsHarmless :
      (grant : String) (r : TokenRequest) (s : Stage Db) → IsHarmless s.kept (serve w grant r s)
  serve-IsHarmless grant r s = elim (Bool-cases (grant == "client_credentials")) [
    | inl e ↦ rw e (grant_to_service-IsHarmless r s)
    | inr e ↦ rw e (elim (Bool-cases (grant == "authorization_code")) [
      | inl f ↦ rw f (exchange_asked-IsHarmless r s)
      | inr f ↦ rw f (rotate_asked-IsHarmless r s)
    ])
  ]

  in_realm-IsHarmless :
      (grant : String) (r : TokenRequest) (s : Stage Db) (x : Result ℕ)
      → IsHarmless s.kept (in_realm w grant r s x)
  in_realm-IsHarmless grant r s (failing e) = (inl refl, Told-failure _)
  in_realm-IsHarmless grant r s (done realm) = serve-IsHarmless grant r s

  served-IsHarmless :
      (grant : String) (r : TokenRequest) (s : Stage Db) (o : Option ErrorCode)
      → IsHarmless s.kept (grant_served w grant r s o)
  served-IsHarmless grant r s (some code) = (inl refl, Told-failure _)
  served-IsHarmless grant r s none = in_realm-IsHarmless grant r s w.resolve_realm

  asked-IsHarmless :
      (o : Option String) (r : TokenRequest) (s : Stage Db)
      → IsHarmless s.kept (grant_asked w o r s)
  asked-IsHarmless none r s = (inl refl, Told-failure _)
  asked-IsHarmless (some grant) r s = elim (Bool-cases (is_served w grant)) [
    | inl f ↦ rw f (served-IsHarmless grant r s (missing w grant r))
    | inr f ↦ rw f (inl refl, Told-failure _)
  ]

  -- A request for tokens that is refused leaves the refresh tokens as they were, on every path and
  -- whichever call failed, unless its cause is that the grant is invalid. On every path the client is
  -- told `invalid_grant` exactly for that cause, and `invalid_client` exactly where it was not
  -- authenticated or there is no such realm, which it so cannot tell apart.
  pub grant_token-refused :
      (r : TokenRequest) (s : Stage Db) (d' : Db) (e : OauthFailure)
      → grant_token w r s ≡ (d', refused_with e)
      → ((d'.tokens ≡ s.kept.tokens) ⊎ (e.cause.code ≡ grant_invalid)) × Told e
  unfolding grant_token
  grant_token-refused r s d' e h = subst (IsHarmless s.kept) h (asked-IsHarmless r.grant_type r s)
