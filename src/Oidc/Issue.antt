-- ===== src/Oidc/Issue.antt =====
-- What the token endpoint calls: `answer_for_person` of crates/saffui-core/src/oidc/token.rs,
-- crates/saffui-core/src/clients/authenticate.rs, `read_live_subject` and `close_session` of
-- crates/saffui-core/src/login/session.rs and `issue_refresh_token` of
-- crates/saffui-core/src/tokens/mint.rs.
use Prim.Native.Nat.{min}
use saffui.Base.{
  ℕ, ◌+◌, ◌*◌, String, Bool, true, false, Option, none, some, List, text_keys, number_keys,
  if◌then◌else◌, contains,
}
use saffui.Errors.{client_authentication_failed, random_unavailable}
use saffui.Work.{M, then_on, Result, done, failing, ◌>>=◌, pure, answered, expect, call, look}
use saffui.Tokens.{RefreshToken, insert_refresh_token, revoke_refresh_tokens_of_session}
use saffui.Clients.{Client, is_client_identifier, identified, authenticated}
use saffui.Login.Sessions.{Session, read_session, standing, end_session}
use saffui.Oidc.World.{
  Person, session_ended, Db, World, IssuedAccessToken, TokenResponse, record_event,
}

-- `REFRESH_TOKEN_LIFETIME`, thirty days.
abbrev pub refresh_token_lifetime : ℕ
refresh_token_lifetime = 30 * 86400

-- `Granted`, with the `RefreshGrant` of its refresh token.
pub record Granted : Type 0 where
  pub client_id : String
  pub session : Session
  pub person : Person
  pub scopes : List String
  pub nonce : Option String
  pub family : ℕ
  pub family_scopes : List String

abbrev pub digested : (List ℕ → List ℕ) → Option (List ℕ) → Option (List ℕ)
digested sha256 none = none
digested sha256 (some secret) = some (sha256 secret)

abbrev or_none : {A : Type 0} → Bool → Result A → Result (Option A)
or_none false r = done none
or_none true (done a) = done (some a)
or_none true (failing e) = failing e

module _ (w : World) where
  unfoldable pub read_named_client : String → M Db (Option Client)
  read_named_client client_id =
      if is_client_identifier w.parses_as_uuid client_id
      then look (λ d. w.read_client client_id)
      else pure none

  unfoldable pub identify_client : String → Option (List ℕ) → M Db Client
  unfolding read_named_client
  identify_client client_id secret = do
    client ← read_named_client client_id
    expect (identified client (digested w.sha256 secret)) client_authentication_failed

  unfoldable pub authenticate_client : String → List ℕ → M Db Client
  unfolding read_named_client
  authenticate_client client_id secret = do
    client ← read_named_client client_id
    expect (authenticated client (w.sha256 secret)) client_authentication_failed

  abbrev pub enabled_person : Session → Option Person → Option (Session × Person)
  enabled_person s none = none
  enabled_person s (some p) = if p.enabled then some (s, p) else none

  abbrev pub person_of : Option Session → M Db (Option (Session × Person))
  person_of none = pure none
  person_of (some s) = do
    person ← look (λ d. w.read_person s.person)
    pure (enabled_person s person)

  unfoldable pub read_live_subject : ℕ → M Db (Option (Session × Person))
  read_live_subject session = do
    read ← look (λ d. read_session w.holds_factor d.sessions session)
    person_of (standing read w.read_at)

  -- The session ends with every refresh token it gave.
  abbrev pub close_ended : Session → Bool → M Db (Unit {0})
  close_ended session false = pure tt
  close_ended session true = do
    revoked ← call (λ d.
        let r = revoke_refresh_tokens_of_session d.tokens session.id w.asked_at in
        (r.0, record d { tokens = r.1 }))
    record_event (session_ended session.person revoked session.id)

  unfoldable pub close_session : Session → M Db (Unit {0})
  close_session session = do
    was_active ←
        call (λ d. let r = end_session d.sessions session.id in (r.0, record d { sessions = r.1 }))
    close_ended session was_active

  unfoldable pub next_token : Granted → List ℕ → RefreshToken
  next_token g token = record {
    token_digest = w.sha256 token;
    family = g.family;
    client_id = g.client_id;
    person = g.session.person;
    session = g.session.id;
    scopes = g.family_scopes;
    issued_at = w.issued_at;
    expires_at = min (w.issued_at + refresh_token_lifetime) g.session.expires_at;
  }

  unfoldable pub issue_refresh_token : Granted → M Db (List ℕ)
  issue_refresh_token g = do
    random ← expect w.random_bytes random_unavailable
    call (λ d. (
      w.encode random,
      record d { tokens = insert_refresh_token d.tokens (next_token g (w.encode random)) },
    ))

  -- The access token of `answer_for_person`, and the identity token where `openid` was granted.
  unfoldable pub mint_for_person : Granted → Result (IssuedAccessToken × Option String)
  mint_for_person g =
      then_on (or_none (contains g.scopes "roles") (w.read_role_claims g.person.id g.client_id))
        λ roles. then_on w.open_minting_key λ key.
          then_on
            (w.mint_access_token key (record {
              subject = w.id_text g.person.id;
              client_id = g.client_id;
              scopes = g.scopes;
              session = some g.session.id;
              roles = roles;
            }))
            λ minted.
              then_on
                (or_none (contains g.scopes "openid") (
                  w.mint_identity_token key (record {
                    person = g.person;
                    client_id = g.client_id;
                    scopes = g.scopes;
                    nonce = g.nonce;
                    session = g.session.id;
                    authenticated_at = g.session.authenticated_at;
                    methods = g.session.methods;
                  })))
                λ id_token. done (minted, id_token)

  unfoldable pub answer_for_person : Granted → M Db TokenResponse
  answer_for_person g = do
    minted ← answered (mint_for_person g)
    refresh_token ← issue_refresh_token g
    pure (record {
      access_token = minted.0.token;
      token_type = "Bearer";
      expires_in = minted.0.expires_in;
      scope = minted.0.scope;
      id_token = minted.1;
      refresh_token = some refresh_token;
    })
