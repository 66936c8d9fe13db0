-- ===== src/Oidc/World.antt =====
-- What one request of crates/saffui-core/src/oidc/token.rs, refresh.rs and revoke.rs finds, and what
-- it changes. The instants at which it asks the clock, the rows of clients, persons and consents, the
-- random source, the digest and the tokens that are signed are of other parts: fields of `World`. A
-- text that is digested is its bytes. `Db` is what the realm keeps of the flow.
use saffui.Base.{ℕ, String, Bool, Option, List, [], ◌∷◌, ◌++◌}
use saffui.Work.{M, Result, call}
use saffui.Tokens.{StoredRefreshToken, EndedFamily}
use saffui.Clients.{Client}
use saffui.Login.Sessions.{Session, AuthenticationMethod}
use saffui.Oidc.Codes.{KeptCode}

pub record Person : Type 0 where
  pub id : ℕ
  pub enabled : Bool

-- The events of the flow, with what they tell.
pub data Event : Type 0 where
  token_issued_service : String → String → Event
  token_issued : String → ℕ → ℕ → String → ℕ → Event
  token_revoked : String → ℕ → ℕ → ℕ → String → EndedFamily → Event
  session_ended : ℕ → ℕ → ℕ → Event

pub record Db : Type 0 where
  pub codes : List KeptCode
  pub tokens : List StoredRefreshToken
  pub sessions : List Session
  pub events : List Event

pub record AccessTokenSubject : Type 0 where
  pub subject : String
  pub client_id : String
  pub scopes : List String
  pub session : Option ℕ
  pub roles : Option String

pub record IdentityTokenSubject : Type 0 where
  pub person : Person
  pub client_id : String
  pub scopes : List String
  pub nonce : Option String
  pub session : ℕ
  pub authenticated_at : ℕ
  pub methods : List AuthenticationMethod

pub record IssuedAccessToken : Type 0 where
  pub token : String
  pub expires_in : ℕ
  pub scope : String

pub record World : Type 0 where
  pub asked_at : ℕ
  pub read_at : ℕ
  pub issued_at : ℕ
  pub resolve_realm : Result ℕ
  pub sha256 : List ℕ → List ℕ
  pub encode : List ℕ → List ℕ
  pub parses_as_uuid : String → Bool
  pub id_text : ℕ → String
  pub read_client : String → Option Client
  pub read_person : ℕ → Option Person
  pub holds_factor : ℕ → Bool
  pub hold_consent : ℕ → String → Option (List String)
  pub mint_id : Option ℕ
  pub random_bytes : Option (List ℕ)
  pub read_role_claims : ℕ → String → Result String
  pub open_minting_key : Result ℕ
  pub mint_access_token : ℕ → AccessTokenSubject → Result IssuedAccessToken
  pub mint_identity_token : ℕ → IdentityTokenSubject → Result String
  pub is_access_token : List ℕ → Bool

pub record TokenRequest : Type 0 where
  pub grant_type : Option String
  pub scope : Option String
  pub client_id : Option String
  pub client_secret : Option (List ℕ)
  pub code : Option (List ℕ)
  pub redirect_uri : Option String
  pub code_verifier : Option (List ℕ)
  pub refresh_token : Option (List ℕ)

pub record TokenResponse : Type 0 where
  pub access_token : String
  pub token_type : String
  pub expires_in : ℕ
  pub scope : String
  pub id_token : Option String
  pub refresh_token : Option (List ℕ)

unfoldable pub record_event : Event → M Db (Unit {0})
record_event e = call (λ d. (tt, record d { events = d.events ++ e ∷ [] }))
