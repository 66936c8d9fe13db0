-- ===== src/Oidc/Token.antt =====
-- The token endpoint: crates/saffui-core/src/oidc/token.rs, with the refresh grant of
-- crates/saffui-core/src/oidc/refresh.rs and the revocation of crates/saffui-core/src/oidc/revoke.rs.
-- Each unit of work is one step on what the realm keeps; an exchange of a code is two.
use saffui.Base.{
  ℕ, String, true, false, not, ◌&&◌, Option, none, some, List, text_keys, number_keys, ◌==◌,
  if◌then◌else◌,
}
use saffui.Errors.{grant_not_allowed, grant_invalid, random_unavailable}
use saffui.Work.{M, refused, ◌>>=◌, ◌>>◌, pure, answered, ensure, expect, call, look, begin, commit}
use saffui.Tokens.{
  StoredRefreshToken, RefreshToken, EndedFamily, is_some, spend_refresh_token, read_refresh_token,
  revoke_refresh_family,
}
use saffui.Consent.{is_consent_owed}
use saffui.Clients.{Client}
use saffui.Login.Sessions.{Session}
use saffui.Oidc.Scopes.{narrow_scopes}
use saffui.Oidc.Codes.{
  AuthorizationCode, ReplayedCode, spend_authorization_code, bind_code_family, mark_code_replayed,
}
use saffui.Oidc.World.{Person, token_issued, token_revoked, Db, World, TokenResponse, record_event}
use saffui.Oidc.Issue.{Granted, identify_client, read_live_subject, answer_for_person}

-- Revoking a family, told once: `describe_family_end` and its event.
abbrev pub tell_end : String → ℕ → ℕ → ℕ → String → Option EndedFamily → M Db (Unit {0})
tell_end client_id family person session reason none = pure tt
tell_end client_id family person session reason (some ended) =
    record_event (token_revoked client_id family person session reason ended)

unfoldable pub end_family : String → ℕ → ℕ → ℕ → String → ℕ → M Db (Unit {0})
end_family client_id family person session reason now = do
  ended ←
      call
        (λ d. let r = revoke_refresh_family d.tokens family now in (r.0, record d { tokens = r.1 }))
  tell_end client_id family person session reason ended

module _ (w : World) where
  abbrev pub take_back : String → Option ReplayedCode → M Db (Unit {0})
  take_back client_id none = pure tt
  take_back client_id (some r) = elim r.family [
    | none ↦ pure tt
    | some family ↦ end_family client_id family r.person r.session "code_replayed" w.asked_at
  ]

  unfoldable pub take_back_what_a_code_obtained : List ℕ → String → M Db (Unit {0})
  take_back_what_a_code_obtained digest client_id = do
    replayed ← call (λ d.
        let r = mark_code_replayed d.codes digest client_id w.asked_at in
        (r.0, record d { codes = r.1 }))
    take_back client_id replayed

  -- The end of the first unit of work: the code, or what it obtained taken back.
  abbrev pub after_spend :
      List ℕ → Client → Option AuthorizationCode → M Db (Client × Option AuthorizationCode)
  after_spend digest client (some code) = do commit; pure (client, some code)
  after_spend digest client none = do
    take_back_what_a_code_obtained digest client.client_id
    commit
    pure (client, none)

  -- The first unit of work of `exchange_code`.
  unfoldable pub exchange_spend :
      String → Option (List ℕ) → List ℕ → M Db (Client × Option AuthorizationCode)
  exchange_spend client_id secret code = do
    begin
    client ← identify_client w client_id secret
    ensure client.allows_authorization_code grant_not_allowed
    spent ← call (λ d.
        let r = spend_authorization_code d.codes (w.sha256 code) w.asked_at in
        (r.0, record d { codes = r.1 }))
    after_spend (w.sha256 code) client spent

  abbrev pub is_of_person : ℕ → Option (Session × Person) → Option (Session × Person)
  is_of_person person none = none
  is_of_person person (some subject) = if subject.1.id == person then some subject else none

  abbrev pub check_consent : Client → ℕ → List String → M Db (Unit {0})
  check_consent client person scopes =
      if client.requires_consent
      then (look (λ d. w.hold_consent person client.client_id) >>= λ allowed.
          ensure
            (not (
              is_consent_owed (record { requires_consent = true; allowed = allowed }) false scopes))
            grant_invalid)
      else pure tt

  -- The grant that a code gives a subject.
  abbrev pub code_grant : Client → AuthorizationCode → Session × Person → ℕ → Granted
  code_grant client code subject family = record {
    client_id = client.client_id;
    session = subject.0;
    person = subject.1;
    scopes = code.scopes;
    nonce = code.nonce;
    family = family;
    family_scopes = code.scopes;
  }

  -- The end of an exchange: a family bound to the code, the tokens and their event.
  abbrev pub tell_issued : Client → Session × Person → ℕ → TokenResponse → M Db TokenResponse
  tell_issued client subject family response = do
    record_event (token_issued client.client_id family subject.1.id response.scope subject.0.id)
    commit
    pure response

  unfoldable pub obtain :
      Client → AuthorizationCode → List ℕ → Session × Person → M Db TokenResponse
  obtain client code digest subject = do
    family ← expect w.mint_id random_unavailable
    bound ←
        call
          (λ d. let r = bind_code_family d.codes digest family in (r.0, record d { codes = r.1 }))
    ensure bound grant_invalid
    response ← answer_for_person w (code_grant client code subject family)
    tell_issued client subject family response

  -- The second unit of work of `exchange_code`.
  unfoldable pub exchange_finish : Client → AuthorizationCode → List ℕ → M Db TokenResponse
  exchange_finish client code digest = do
    begin
    live ← read_live_subject w code.session
    subject ← expect (is_of_person code.person live) grant_invalid
    check_consent client subject.1.id code.scopes
    obtain client code digest subject

  -- A token that was used is presented again by a client that it is of.
  unfoldable pub is_replayed : Client → Option StoredRefreshToken → Option StoredRefreshToken
  is_replayed client none = none
  is_replayed client (some known) =
      if is_some known.used_at
        && not (is_some known.revoked_at)
        && known.token.client_id == client.client_id
      then some known
      else none

  abbrev pub end_replayed : Client → Option StoredRefreshToken → M Db (Option TokenResponse)
  end_replayed client none = answered (refused grant_invalid)
  end_replayed client (some known) = do
    end_family client.client_id known.token.family known.token.person known.token.session "replayed"
        w.asked_at
    commit
    pure none

  -- The grant of a rotation: the answer is narrowed, the family keeps its own scopes.
  abbrev pub rotation_grant : Client → RefreshToken → Session × Person → List String → Granted
  rotation_grant client spent subject scopes = record {
    client_id = client.client_id;
    session = subject.0;
    person = subject.1;
    scopes = scopes;
    nonce = none;
    family = spent.family;
    family_scopes = spent.scopes;
  }

  abbrev pub commit_rotation : TokenResponse → M Db (Option TokenResponse)
  commit_rotation response = do commit; pure (some response)

  abbrev pub renew :
      Client → Option String → RefreshToken → Session × Person → M Db (Option TokenResponse)
  renew client asked spent subject = do
    scopes ← answered (narrow_scopes asked spent.scopes)
    response ← answer_for_person w (rotation_grant client spent subject scopes)
    commit_rotation response

  abbrev pub rotate :
      Client → Option String → List ℕ → Option RefreshToken → M Db (Option TokenResponse)
  rotate client asked digest none = do
    known ← look (λ d. read_refresh_token d.tokens digest)
    end_replayed client (is_replayed client known)
  rotate client asked digest (some spent) = do
    live ← read_live_subject w spent.session
    subject ← expect (is_of_person spent.person live) grant_invalid
    renew client asked spent subject

  -- The tokens, with one of them spent where there is one to spend.
  abbrev pub spent_of :
      Db → Option (RefreshToken × List StoredRefreshToken) → Option RefreshToken × Db
  spent_of d none = (none, d)
  spent_of d (some (t, rest)) = (some t, record d { tokens = rest })

  abbrev pub spend_kept_token : List ℕ → String → Db → Option RefreshToken × Db
  spend_kept_token digest client_id d =
      spent_of d (spend_refresh_token d.tokens digest client_id w.asked_at)

  -- The unit of work of `rotate_refresh_token`. None is the answer of a replay, which is committed.
  unfoldable pub rotate_refresh_token :
      String → Option (List ℕ) → List ℕ → Option String → M Db (Option TokenResponse)
  rotate_refresh_token client_id secret presented asked = do
    begin
    client ← identify_client w client_id secret
    ensure client.allows_authorization_code grant_not_allowed
    spent ← call (spend_kept_token (w.sha256 presented) client.client_id)
    rotate client asked (w.sha256 presented) spent
