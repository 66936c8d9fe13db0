-- ===== src/Oidc/Clear.antt =====
-- The units of work of crates/saffui-core/src/oidc/token.rs where no call fails: what each makes of the
-- realm, from what stands in it.
use saffui.Base.Bytes.{bytes_keys, bytes_eqb_iff}
use saffui.Base.{
  ◌≢◌, text_keys, ℕ, String, true, ◌≡◌, refl, Option, some, List, [], ◌∷◌, ◌++◌, arith, All,
  number_keys, ◌==◌, Bool-cases, inl, inr,
}
use saffui.Work.{Stage, done}
use saffui.Tokens.{insert_refresh_token}
use saffui.Login.Sessions.{Session}
use saffui.Clients.{Client, named_client, is_client_identifier}
use saffui.Consent.{is_consent_owed}
use saffui.Oidc.Codes.{AuthorizationCode, KeptCode, at_code, bind_code_family}
use saffui.Oidc.World.{
  Person, Db, World, IssuedAccessToken, TokenResponse, token_issued, record_event,
}
use saffui.Oidc.Issue.{
  Granted, read_named_client, identify_client, read_live_subject, next_token, issue_refresh_token,
  mint_for_person, answer_for_person,
}
use saffui.Oidc.Token.{exchange_spend, exchange_finish, obtain, code_grant, check_consent}
use saffui.Oidc.Effects.{IsLive, with_token}
use saffui.Oidc.Units.{IsClient, spending}
use saffui.Oidc.Issued.{Allowed}

-- A unit of work in which no call fails.
abbrev pub clear : Db → Stage Db
clear d = record { kept = d; faults = [] }

-- What is found at a digest is the first that has it.
pub at_code_middle {ℓ} :
    {A : Type ℓ} (digest : List ℕ) (missing : A) (found : KeptCode → A × KeptCode)
    (before after : List KeptCode) (k : KeptCode)
    → All (λ x. x.code.code_digest ≢ digest) before
    → k.code.code_digest ≡ digest
    → at_code digest missing found (before ++ k ∷ after)
      ≡ ((found k).0, before ++ (found k).1 ∷ after)
unfolding at_code
at_code_middle digest missing found [] after k h e =
    rw ((bytes_eqb_iff k.code.code_digest digest).1 e) refl
at_code_middle digest missing found (x ∷ before) after k h e =
    elim (Bool-cases (x.code.code_digest == digest)) [
      | inl b ↦ absurd (h.0 ((bytes_eqb_iff x.code.code_digest digest).0 b))
      | inr b ↦ rw (b, at_code_middle digest missing found before after k h.1 e) refl
    ]

module _ (w : World) where
  pub identify-clear :
      (id : String) (secret : Option (List ℕ)) (client : Client) (d : Db)
      → IsClient w id secret client
      → identify_client w id secret (clear d) ≡ done (client, clear d)
  unfolding identify_client read_named_client named_client
  identify-clear id secret client d h =
      elim (Bool-cases (is_client_identifier w.parses_as_uuid id)) [
        | inl e ↦ ground (arith, h, e)
        | inr e ↦ ground (arith, h, e)
      ]

  pub exchange_spend-clear :
      (id : String) (secret : Option (List ℕ)) (presented : List ℕ) (client : Client)
      (code : AuthorizationCode) (d : Db)
      → IsClient w id secret client
      → client.allows_authorization_code ≡ true
      → (spending w (w.sha256 presented) d).0 ≡ some code
      → exchange_spend w id secret presented (clear d)
        ≡ done (
          (client, some code),
          clear (record d { codes = (spending w (w.sha256 presented) d).1 }),
        )
  unfolding exchange_spend
  exchange_spend-clear id secret presented client code d h may e =
      rw (identify-clear id secret client d h, may, e) refl

  pub read_live_subject-clear :
      (session : ℕ) (d : Db) (subject : Session × Person)
      → IsLive w d session subject
      → read_live_subject w session (clear d) ≡ done (some subject, clear d)
  unfolding read_live_subject
  read_live_subject-clear session d subject h = rw (h.session, h.person, h.enabled) refl

  check_consent-clear :
      (client : Client) (person : ℕ) (scopes : List String) (d : Db)
      → Allowed w client person scopes
      → check_consent w client person scopes (clear d) ≡ done (tt, clear d)
  unfolding is_consent_owed
  check_consent-clear client person scopes d h = elim (Bool-cases client.requires_consent) [
    | inl e ↦ rw (e, h e) refl
    | inr e ↦ rw e refl
  ]

  -- The answer that carries what was minted, with a refresh token.
  abbrev pub answer_of : IssuedAccessToken × Option String → List ℕ → TokenResponse
  answer_of minted token = record {
    access_token = minted.0.token;
    token_type = "Bearer";
    expires_in = minted.0.expires_in;
    scope = minted.0.scope;
    id_token = minted.1;
    refresh_token = some token;
  }

  pub answer_for_person-clear :
      (g : Granted) (random : List ℕ) (minted : IssuedAccessToken × Option String) (d : Db)
      → w.random_bytes ≡ some random
      → mint_for_person w g ≡ done minted
      → answer_for_person w g (clear d)
        ≡ done (answer_of minted (w.encode random), clear (with_token w g (w.encode random) d))
  unfolding answer_for_person issue_refresh_token
  answer_for_person-clear g random minted d h e = rw (e, h) refl

  -- What an exchange leaves: a new family bound to its code, the refresh token, and the event.
  abbrev pub exchanged :
      Client
      → AuthorizationCode
      → List ℕ
      → Session × Person
      → ℕ
      → List ℕ
      → IssuedAccessToken × Option String
      → Db
      → Db
  exchanged client code digest subject family token minted d = record d {
    codes = (bind_code_family d.codes digest family).1;
    tokens =
        insert_refresh_token d.tokens
          (next_token w (code_grant w client code subject family) token);
    events =
        d.events
        ++ token_issued client.client_id family subject.1.id minted.0.scope subject.0.id ∷ [];
  }

  pub exchange_finish-clear :
      (client : Client) (code : AuthorizationCode) (digest : List ℕ) (subject : Session × Person)
      (family : ℕ) (random : List ℕ) (minted : IssuedAccessToken × Option String) (d : Db)
      → IsLive w d code.session subject
      → (subject.1.id == code.person) ≡ true
      → Allowed w client subject.1.id code.scopes
      → w.mint_id ≡ some family
      → (bind_code_family d.codes digest family).0 ≡ true
      → w.random_bytes ≡ some random
      → mint_for_person w (code_grant w client code subject family) ≡ done minted
      → exchange_finish w client code digest (clear d)
        ≡ done (
          answer_of minted (w.encode random),
          clear (exchanged client code digest subject family (w.encode random) minted d),
        )
  unfolding exchange_finish obtain record_event
  exchange_finish-clear client code digest subject family random minted d live same allowed f bound
        r m =
      simp (
        read_live_subject-clear code.session d subject live,
        same,
        check_consent-clear client subject.1.id code.scopes d allowed,
        f,
        bound,
        answer_for_person-clear (code_grant w client code subject family) random minted
            (record d { codes = (bind_code_family d.codes digest family).1 }) r m,
      )
