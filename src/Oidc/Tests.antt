-- ===== src/Oidc/Tests.antt =====
-- Runs of the flow of codes, and the theorems at them, under a digest that keeps what is digested.
pub mod Realm
pub mod Requests
pub mod Tokens
use mathlib.Core.List.{Memᴰ}
use saffui.Base.{
  ℕ, zero, suc, String, Bool, true, false, ◌≡◌, ◌≢◌, refl, Option, none, some, List, [], ◌∷◌, ◌++◌,
  arith, inl, inr, ◌⊎◌,
}
use saffui.Work.{Stage, Result, done, failing, failure}
use saffui.Tokens.{
  RefreshToken, StoredRefreshToken, is_some, insert_refresh_token, spend_refresh_token, spend_first,
  is_spendable, read_refresh_token, revoke_where, revoke_refresh_family, revoked_where,
  revoked_family,
}
use saffui.Consent.{is_consent_owed}
use saffui.Clients.{Client, identified, is_client_identifier}
use saffui.Login.Sessions.{Session, active, password, read_session, standing}
use saffui.Oidc.Failures.{oauth_failure}
use saffui.Oidc.Scopes.{narrow_scopes}
use saffui.Oidc.Pkce.{matches_challenge}
use saffui.Oidc.Codes.{
  AuthorizationCode, KeptCode, spend_authorization_code, bind_code_family, mark_code_replayed,
  at_code, insert_authorization_code,
}
use saffui.Oidc.World.{Db, World, Person, TokenRequest, TokenResponse, record_event}
use saffui.Oidc.Issue.{
  identify_client, read_named_client, answer_for_person, issue_refresh_token, mint_for_person,
  next_token, read_live_subject,
}
use saffui.Oidc.Token.{
  exchange_spend, exchange_finish, obtain, rotate_refresh_token, take_back_what_a_code_obtained,
  end_family, is_replayed,
}
use saffui.Oidc.Grant.{exchange_code, is_bound_to, grant_token}
use saffui.Oidc.Steps.{Step, Reach, here, next, authorized, elsewhere, spent, finished, MintsUnused}
use saffui.Oidc.Safety.{nothing}
use saffui.Oidc.Tests.Realm.{
  public_client, world, signed_in, code_of, stage, first_code, other_code, waiting, runs,
}

pub waiting-Reach : Reach nothing waiting
unfolding runs
waiting-Reach =
    next (next (next here (authorized (code_of first_code))) (authorized (code_of other_code)))
      (elsewhere (signed_in ∷ []))

-- What a unit of work that succeeds leaves.
abbrev left : {A : Type 0} → Db → Result (A × Stage Db) → Db
left d (done r) = r.1.kept
left d (failing e) = d

spent_first : Db
unfolding runs
spent_first = left waiting (exchange_spend (world 9 (5 ∷ [])) "app" none first_code (stage waiting))

finished_first : Db
unfolding spent_first
finished_first = left spent_first (
    exchange_finish (world 9 (5 ∷ [])) public_client (code_of first_code) first_code
      (stage spent_first))

spent_other : Db
unfolding finished_first
spent_other =
    left finished_first
      (exchange_spend (world 10 (6 ∷ [])) "app" none other_code (stage finished_first))

finished_other : Db
unfolding spent_other
finished_other = left spent_other (
    exchange_finish (world 10 (6 ∷ [])) public_client (code_of other_code) other_code
      (stage spent_other))

replayed_first : Db
unfolding finished_other
replayed_first =
    left finished_other
      (exchange_spend (world 11 (7 ∷ [])) "app" none first_code (stage finished_other))

spent_first-Reach : Reach nothing spent_first
unfolding spent_first
spent_first-Reach = next waiting-Reach (
    spent (world 9 (5 ∷ [])) "app" none first_code (stage waiting)
      ((public_client, some (code_of first_code)), stage spent_first) refl)

abbrev answer : List ℕ → TokenResponse
answer token = record {
  access_token = "a";
  token_type = "Bearer";
  expires_in = 300;
  scope = "openid";
  id_token = some "i";
  refresh_token = some token;
}

spent_first-finished : Step spent_first finished_first
unfolding finished_first
spent_first-finished =
    finished (world 9 (5 ∷ [])) public_client (code_of first_code) first_code (stage spent_first)
      (answer (5 ∷ []), stage finished_first) (λ f e. (tt, ground arith)) refl

finished_first-spent : Step finished_first spent_other
unfolding spent_other
finished_first-spent =
    spent (world 10 (6 ∷ [])) "app" none other_code (stage finished_first)
      ((public_client, some (code_of other_code)), stage spent_other) refl

spent_other-finished : Step spent_other finished_other
unfolding finished_other
spent_other-finished =
    finished (world 10 (6 ∷ [])) public_client (code_of other_code) other_code (stage spent_other)
      (answer (6 ∷ []), stage finished_other) (λ f e. ground (arith, e)) refl

finished_other-replayed : Step finished_other replayed_first
unfolding replayed_first
finished_other-replayed =
    spent (world 11 (7 ∷ [])) "app" none first_code (stage finished_other)
      ((public_client, none), stage replayed_first) refl

finished_other-Reach : Reach nothing finished_other
finished_other-Reach =
    next (next (next spent_first-Reach spent_first-finished) finished_first-spent)
      spent_other-finished

abbrev refresh_token : ℕ → List ℕ → RefreshToken
refresh_token family digest = record {
  token_digest = digest;
  family = family;
  client_id = "app";
  person = 7;
  session = 3;
  scopes = "openid" ∷ "email" ∷ [];
  issued_at = 100;
  expires_at = 1000;
}

abbrev stored : RefreshToken → Option ℕ → Option ℕ → StoredRefreshToken
stored token used revoked = record { token = token; used_at = used; revoked_at = revoked }
