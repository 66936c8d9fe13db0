-- ===== src/Oidc/Grant.antt =====
-- The operations of crates/saffui-core/src/oidc/token.rs and revoke.rs as they are asked for: what the
-- realm is left with, and what the client is answered. A unit of work that fails leaves what it found.
use saffui.Base.{
  ℕ, String, Bool, not, ◌&&◌, ◌||◌, Option, none, some, List, text_keys, number_keys, ◌==◌,
  if◌then◌else◌,
}
use saffui.Errors.{
  ErrorCode, client_authentication_failed, request_invalid, grant_not_allowed, grant_invalid,
  grant_type_unsupported, token_type_unsupported,
}
use saffui.Work.{
  M, Stage, Result, done, failing, failure, refused, ◌>>=◌, ◌>>◌, pure, answered, ensure, expect,
  look, begin, commit,
}
use saffui.Tokens.{StoredRefreshToken, is_some, read_refresh_token}
use saffui.Clients.{Client}
use saffui.Oidc.Failures.{OauthFailure, oauth_failure}
use saffui.Oidc.Scopes.{narrow_scopes}
use saffui.Oidc.Pkce.{matches_challenge}
use saffui.Oidc.Codes.{AuthorizationCode}
use saffui.Oidc.World.{Db, World, TokenRequest, TokenResponse, token_issued_service, record_event}
use saffui.Oidc.Issue.{identify_client, authenticate_client}
use saffui.Oidc.Token.{exchange_spend, exchange_finish, rotate_refresh_token, end_family}

pub data Answer (A : Type 0) : Type 0 where
  granted : A → Answer A
  refused_with : OauthFailure → Answer A

abbrev pub refuse : {A : Type 0} → ErrorCode → Answer A
refuse code = refused_with (oauth_failure (failure code))

-- What a unit of work leaves, and answers.
abbrev pub settle : {A : Type 0} → Db → Result (A × Stage Db) → Db × Answer A
settle d (done r) = (r.1.kept, granted r.0)
settle d (failing e) = (d, refused_with (oauth_failure e))

abbrev pub settle_rotation :
    Db → Result (Option TokenResponse × Stage Db) → Db × Answer TokenResponse
settle_rotation d (done (some response, s)) = (s.kept, granted response)
settle_rotation d (done (none, s)) = (s.kept, refuse grant_invalid)
settle_rotation d (failing e) = (d, refused_with (oauth_failure e))

module _ (w : World) where
  -- What is compared to what was bound to the code.
  unfoldable pub is_bound_to : AuthorizationCode → Client → String → List ℕ → Bool
  is_bound_to code client redirect_uri verifier =
      code.client_id == client.client_id
      && code.redirect_uri == redirect_uri
      && matches_challenge w.sha256 w.encode verifier code.code_challenge

  abbrev pub finish :
      String
      → List ℕ
      → List ℕ
      → Db
      → Result ((Client × Option AuthorizationCode) × Stage Db)
      → Db × Answer TokenResponse
  finish redirect_uri verifier digest d (failing e) = (d, refused_with (oauth_failure e))
  finish redirect_uri verifier digest d (done ((client, none), s)) = (s.kept, refuse grant_invalid)
  finish redirect_uri verifier digest d (done ((client, some code), s)) =
      if is_bound_to code client redirect_uri verifier
      then settle s.kept (exchange_finish w client code digest s)
      else (s.kept, refuse grant_invalid)

  unfoldable pub exchange_code :
      String → Option (List ℕ) → List ℕ → String → List ℕ → Stage Db → Db × Answer TokenResponse
  exchange_code client_id secret code redirect_uri verifier s =
      finish redirect_uri verifier (w.sha256 code) s.kept (exchange_spend w client_id secret code s)

  unfoldable pub service_grant : String → List ℕ → Option String → M Db TokenResponse
  service_grant client_id secret asked = do
    begin
    client ← authenticate_client w client_id secret
    ensure client.allows_client_credentials grant_not_allowed
    scopes ← answered (narrow_scopes asked client.scopes)
    key ← answered w.open_minting_key
    minted ← answered (
        w.mint_access_token key (record {
          subject = client.client_id;
          client_id = client.client_id;
          scopes = scopes;
          session = none;
          roles = none;
        }))
    record_event (token_issued_service client.client_id minted.scope)
    commit
    pure (record {
      access_token = minted.token;
      token_type = "Bearer";
      expires_in = minted.expires_in;
      scope = minted.scope;
      id_token = none;
      refresh_token = none;
    })

  unfoldable pub grant_to_service : TokenRequest → Stage Db → Db × Answer TokenResponse
  grant_to_service r s = elim r.client_id [
    | none ↦ (s.kept, refuse client_authentication_failed)
    | some client_id ↦ elim r.client_secret [
      | none ↦ (s.kept, refuse client_authentication_failed)
      | some secret ↦ settle s.kept (service_grant client_id secret r.scope s)
    ]
  ]

  -- What a grant that is served needs of the request, before the realm is looked for.
  abbrev pub missing : String → TokenRequest → Option ErrorCode
  missing grant r =
      if grant == "client_credentials"
      then none
      else if not (is_some r.client_id)
      then some client_authentication_failed
      else if (if grant == "authorization_code"
          then is_some r.code && is_some r.redirect_uri && is_some r.code_verifier
          else is_some r.refresh_token)
      then none
      else some request_invalid

  abbrev pub exchange_asked : TokenRequest → Stage Db → Db × Answer TokenResponse
  exchange_asked r s = elim r.client_id [
    | none ↦ (s.kept, refuse client_authentication_failed)
    | some client_id ↦ elim r.code [
      | none ↦ (s.kept, refuse request_invalid)
      | some code ↦ elim r.redirect_uri [
        | none ↦ (s.kept, refuse request_invalid)
        | some uri ↦ elim r.code_verifier [
          | none ↦ (s.kept, refuse request_invalid)
          | some verifier ↦ exchange_code client_id r.client_secret code uri verifier s
        ]
      ]
    ]
  ]

  abbrev pub rotate_asked : TokenRequest → Stage Db → Db × Answer TokenResponse
  rotate_asked r s = elim r.client_id [
    | none ↦ (s.kept, refuse client_authentication_failed)
    | some client_id ↦ elim r.refresh_token [
      | none ↦ (s.kept, refuse request_invalid)
      | some token ↦
          settle_rotation s.kept (rotate_refresh_token w client_id r.client_secret token r.scope s)
    ]
  ]

  abbrev pub serve : String → TokenRequest → Stage Db → Db × Answer TokenResponse
  serve grant r s =
      if grant == "client_credentials"
      then grant_to_service r s
      else if grant == "authorization_code"
      then exchange_asked r s
      else rotate_asked r s

  -- What is left once the realm is resolved, and once the form of the request is judged.
  abbrev pub in_realm : String → TokenRequest → Stage Db → Result ℕ → Db × Answer TokenResponse
  in_realm grant r s (failing e) = (s.kept, refused_with (oauth_failure e))
  in_realm grant r s (done realm) = serve grant r s

  abbrev pub grant_served :
      String → TokenRequest → Stage Db → Option ErrorCode → Db × Answer TokenResponse
  grant_served grant r s (some code) = (s.kept, refuse code)
  grant_served grant r s none = in_realm grant r s w.resolve_realm

  abbrev pub is_served : String → Bool
  is_served grant =
      grant == "client_credentials" || grant == "authorization_code" || grant == "refresh_token"

  abbrev pub grant_asked : Option String → TokenRequest → Stage Db → Db × Answer TokenResponse
  grant_asked none r s = (s.kept, refuse request_invalid)
  grant_asked (some grant) r s =
      if is_served grant
      then grant_served grant r s (missing grant r)
      else (s.kept, refuse grant_type_unsupported)

  unfoldable pub grant_token : TokenRequest → Stage Db → Db × Answer TokenResponse
  grant_token r s = grant_asked r.grant_type r s

  -- The token, where the client owns it.
  abbrev pub owned : Client → Option StoredRefreshToken → Option StoredRefreshToken
  owned client none = none
  owned client (some stored) =
      if stored.token.client_id == client.client_id then some stored else none

  abbrev pub revoke_owned : Client → List ℕ → Option StoredRefreshToken → M Db (Unit {0})
  revoke_owned client token none =
      if w.is_access_token token then answered (refused token_type_unsupported) else pure tt
  revoke_owned client token (some stored) =
      if is_some stored.revoked_at
      then pure tt
      else (end_family client.client_id stored.token.family stored.token.person stored.token.session
            "asked" w.asked_at
          >> commit)

  unfoldable pub revoke_work : String → Option (List ℕ) → Option (List ℕ) → M Db (Unit {0})
  revoke_work client_id secret presented = do
    begin
    client ← identify_client w client_id secret
    token ← expect presented request_invalid
    stored ← look (λ d. read_refresh_token d.tokens (w.sha256 token))
    revoke_owned client token (owned client stored)

  unfoldable pub revoke_token :
      Option String → Option (List ℕ) → Option (List ℕ) → Stage Db → Db × Answer (Unit {0})
  revoke_token client_id secret presented s = elim w.resolve_realm [
    | failing e ↦ (s.kept, refused_with (oauth_failure e))
    | done realm ↦ elim client_id [
      | none ↦ (s.kept, refuse client_authentication_failed)
      | some client_id ↦ settle s.kept (revoke_work client_id secret presented s)
    ]
  ]
