-- ===== src/Oidc/Signed.antt =====
-- The tokens that a person's answer carries, told apart from `answer_for_person` of
-- crates/saffui-core/src/oidc/token.rs: what they say of the person, the client and the session.
use saffui.Base.{ℕ, String, true, false, ◌≡◌, Option, none, some, List, contains, text_keys}
use saffui.Work.{done}
use saffui.Login.Sessions.{Session}
use saffui.Oidc.World.{Person, World, IssuedAccessToken}
use saffui.Oidc.Issue.{Granted, mint_for_person}

-- What an access token says of roles: nothing, unless the scope of roles was granted.
pub data Roles (w : World) (client_id : String) (person : Person) (scopes : List String)
    : Option String → Type 0 where
  unasked : contains scopes "roles" ≡ false → Roles w client_id person scopes none
  claimed :
      (roles : String)
      → contains scopes "roles" ≡ true
      → w.read_role_claims person.id client_id ≡ done roles
      → Roles w client_id person scopes (some roles)

-- The identity token, where `openid` was granted.
pub data Identity (w : World) (client_id : String) (session : Session) (person : Person)
    (scopes : List String) (nonce : Option String) (key : ℕ) : Option String → Type 0 where
  unasked :
      contains scopes "openid" ≡ false → Identity w client_id session person scopes nonce key none
  signed :
      (token : String)
      → contains scopes "openid" ≡ true
      → w.mint_identity_token key (record {
        person = person;
        client_id = client_id;
        scopes = scopes;
        nonce = nonce;
        session = session.id;
        authenticated_at = session.authenticated_at;
        methods = session.methods;
      })
        ≡ done token
      → Identity w client_id session person scopes nonce key (some token)

pub record Signed (w : World) (client_id : String) (subject : Session × Person)
    (scopes : List String) (nonce : Option String) (access : IssuedAccessToken)
    (id_token : Option String) : Type 0 where
  pub key : ℕ
  pub opened : w.open_minting_key ≡ done key
  pub roles : Option String
  pub claims : Roles w client_id subject.1 scopes roles
  pub access_is :
      w.mint_access_token key (record {
        subject = w.id_text subject.1.id;
        client_id = client_id;
        scopes = scopes;
        session = some subject.0.id;
        roles = roles;
      })
      ≡ done access
  pub identity : Identity w client_id subject.0 subject.1 scopes nonce key id_token

module _ (w : World) (g : Granted) (access : IssuedAccessToken) where
  pub mint_for_person-Signed :
      (id_token : Option String)
      → Signed w g.client_id (g.session, g.person) g.scopes g.nonce access id_token
      → mint_for_person w g ≡ done (access, id_token)
  unfolding mint_for_person
  mint_for_person-Signed id_token s = minted s.roles id_token s.claims s.identity s.access_is
    where
      minted :
          (roles id_token : Option String)
          → Roles w g.client_id g.person g.scopes roles
          → Identity w g.client_id g.session g.person g.scopes g.nonce s.key id_token
          → w.mint_access_token s.key (record {
            subject = w.id_text g.person.id;
            client_id = g.client_id;
            scopes = g.scopes;
            session = some g.session.id;
            roles = roles;
          })
            ≡ done access
          → mint_for_person w g ≡ done (access, id_token)
      minted none none (Roles.unasked a) (Identity.unasked b) e = simp (a, s.opened, e, b)
      minted none (some t) (Roles.unasked a) (signed _ b c) e = simp (a, s.opened, e, b, c)
      minted (some r) none (claimed _ a x) (Identity.unasked b) e = simp (a, x, s.opened, e, b)
      minted (some r) (some t) (claimed _ a x) (signed _ b c) e = simp (a, x, s.opened, e, b, c)
