-- ===== src/Oidc/Tests/Realm.antt =====
-- A realm in which the token endpoint of crates/saffui-core/src/oidc is run: its client, its person and
-- two codes that wait.
use saffui.Base.{ℕ, zero, suc, true, false, none, some, List, [], ◌∷◌}
use saffui.Work.{Stage, done}
use saffui.Tokens.{
  insert_refresh_token, spend_refresh_token, spend_first, is_spendable, read_refresh_token,
  revoke_where, revoke_refresh_family, revoked_where, revoked_family,
}
use saffui.Consent.{is_consent_owed}
use saffui.Clients.{Client, identified, is_client_identifier}
use saffui.Login.Sessions.{Session, active, password, read_session, standing}
use saffui.Oidc.Failures.{oauth_failure}
use saffui.Oidc.Scopes.{narrow_scopes}
use saffui.Oidc.Pkce.{matches_challenge}
use saffui.Oidc.Codes.{
  AuthorizationCode, spend_authorization_code, bind_code_family, mark_code_replayed, at_code,
  insert_authorization_code,
}
use saffui.Oidc.World.{Db, World, Person, record_event}
use saffui.Oidc.Issue.{
  identify_client, read_named_client, answer_for_person, issue_refresh_token, mint_for_person,
  next_token, read_live_subject,
}
use saffui.Oidc.Token.{
  exchange_spend, exchange_finish, obtain, rotate_refresh_token, take_back_what_a_code_obtained,
  end_family, is_replayed,
}
use saffui.Oidc.Grant.{exchange_code, is_bound_to, grant_token}

unfoldable pub repeated : ℕ → List ℕ
repeated zero = []
repeated (suc n) = b'a' ∷ repeated n

abbrev pub public_client : Client
public_client = record {
  client_id = "app";
  secret_digest = none;
  allows_client_credentials = false;
  allows_authorization_code = true;
  requires_consent = false;
  scopes = "openid" ∷ "email" ∷ [];
  enabled = true;
}

abbrev pub someone : Person
someone = record { id = 7; enabled = true }

-- A request that mints the family and the random bytes given.
abbrev pub world : ℕ → List ℕ → World
world family random = record {
  asked_at = 100;
  read_at = 100;
  issued_at = 100;
  resolve_realm = done 1;
  sha256 = λ v. v;
  encode = λ v. v;
  parses_as_uuid = λ text. false;
  id_text = λ id. "7";
  read_client = λ id. some public_client;
  read_person = λ id. some someone;
  holds_factor = λ id. false;
  hold_consent = λ id client. none;
  mint_id = some family;
  random_bytes = some random;
  read_role_claims = λ id client. done "";
  open_minting_key = done 1;
  mint_access_token =
      λ key subject. done (record { token = "a"; expires_in = 300; scope = "openid" });
  mint_identity_token = λ key subject. done "i";
  is_access_token = λ text. false;
}

abbrev pub signed_in : Session
signed_in = record {
  id = 3;
  person = 7;
  secret_digest = [];
  state = active;
  methods = password ∷ [];
  authenticated_at = 50;
  expires_at = 1000;
}

abbrev pub code_of : List ℕ → AuthorizationCode
code_of digest = record {
  code_digest = digest;
  client_id = "app";
  person = 7;
  session = 3;
  redirect_uri = "https://app.example/back";
  scopes = "openid" ∷ "email" ∷ [];
  nonce = none;
  code_challenge = repeated 43;
  authenticated_at = 50;
  expires_at = 160;
}

abbrev pub stage : Db → Stage Db
stage d = record { kept = d; faults = [] }

abbrev pub first_code : List ℕ
first_code = 1 ∷ []

abbrev pub other_code : List ℕ
other_code = 2 ∷ []

abbrev pub waiting : Db
waiting = record {
  codes =
      record { code = code_of first_code; spent_at = none; family = none; replayed_at = none }
      ∷ record { code = code_of other_code; spent_at = none; family = none; replayed_at = none }
      ∷ [];
  tokens = [];
  sessions = signed_in ∷ [];
  events = [];
}

-- What a run computes with.
unfoldable pub runs : Unit {0}
unfolding exchange_spend exchange_finish obtain rotate_refresh_token answer_for_person
    issue_refresh_token mint_for_person next_token read_live_subject identify_client
    read_named_client identified is_client_identifier take_back_what_a_code_obtained end_family
    record_event is_replayed spend_authorization_code bind_code_family mark_code_replayed at_code
    insert_authorization_code insert_refresh_token spend_refresh_token spend_first is_spendable
    read_refresh_token revoke_where revoke_refresh_family revoked_where revoked_family read_session
    standing repeated narrow_scopes matches_challenge is_bound_to exchange_code grant_token
    oauth_failure is_consent_owed
runs = tt
