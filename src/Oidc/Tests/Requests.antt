-- ===== src/Oidc/Tests/Requests.antt =====
-- The theorems at requests to the token endpoint, in the realm of the runs.
use saffui.Base.{
  ◌≤◌, String, true, ◌≡◌, ◌≢◌, refl, Option, none, some, List, [], ◌∷◌, ◌⊎◌, contains, text_keys,
  all, All,
}
use saffui.Errors.{storage_unavailable, grant_invalid}
use saffui.Oidc.Failures.{oauth_failure}
use saffui.Work.{Stage, failure}
use saffui.Clients.{is_scope_token, named_client}
use saffui.Oidc.Codes.{AuthorizationCode}
use saffui.Oidc.Scopes.{narrow_scopes, asked_tokens}
use saffui.Oidc.Scopes.Narrowed.{
  distinct, is_done, is_grantable, narrow_scopes-done, narrow_scopes-is_done,
}
use saffui.Oidc.World.{Db, TokenRequest}
use saffui.Oidc.Token.{exchange_spend}
use saffui.Oidc.Steps.{here, next}
use saffui.Oidc.Once.{exchange_spend_once}
use saffui.Oidc.OneGrant.{OneGrant, tokens_of}
use saffui.Oidc.OneGrant.Kept.{Reach-OneGrant}
use saffui.Oidc.Earned.{Earned, exchange_code-Earned}
use saffui.Oidc.Grant.{revoke_token, revoke_work}
use saffui.Oidc.Revoked.{revoked-ne}
use saffui.Oidc.Unspent.{unspent, Reach-unspent}
use saffui.Oidc.Refused.{Told, grant_token-refused}
use saffui.Oidc.Tests.{
  left, answer, refresh_token, stored, spent_first, finished_first, finished_other, replayed_first,
  spent_first-finished, finished_other-Reach,
}
use saffui.Oidc.Tests.Realm.{public_client, world, code_of, stage, first_code, waiting, repeated}

Reach-OneGrant_example : OneGrant (tokens_of finished_other.tokens)
Reach-OneGrant_example = Reach-OneGrant finished_other-Reach

Reach-unspent_example : unspent 9 finished_other.tokens ≤ 1
Reach-unspent_example = Reach-unspent 9 finished_other-Reach

exchange_spend_once_example : ◌≡◌ {A = Option AuthorizationCode} none none
unfolding replayed_first
exchange_spend_once_example =
    exchange_spend_once (world 9 (5 ∷ [])) (world 11 (7 ∷ [])) "app" "app" none none first_code
      first_code (stage waiting) (stage finished_first) public_client public_client
      (code_of first_code) none (stage spent_first)
      (stage (
        left finished_first
          (exchange_spend (world 11 (7 ∷ [])) "app" none first_code (stage finished_first))))
      refl (next here spent_first-finished) refl refl

-- The realm after the client of the first family had it revoked.
revoked_first : Db
unfolding finished_other
revoked_first =
    (revoke_token (world 14 []) (some "app") none (some (5 ∷ [])) (stage finished_other)).0

revoked-ne_example : (refresh_token 10 (6 ∷ [])).family ≢ 9
unfolding revoked_first revoke_token revoke_work named_client
revoked-ne_example =
    revoked-ne (world 14 []) "app" none (5 ∷ []) public_client
      (stored (refresh_token 9 (5 ∷ [])) none none) (stage finished_other) revoked_first (6 ∷ [])
      "app" 200 (refresh_token 10 (6 ∷ []))
      (stored (refresh_token 9 (5 ∷ [])) none (some 100)
        ∷ stored (refresh_token 10 (6 ∷ [])) (some 200) none
        ∷ [])
      refl refl refl refl here refl

exchange_code-Earned_example :
    Earned
      (world 9 (5 ∷ []))
      "app"
      none
      first_code
      "https://app.example/back"
      (repeated 43)
      waiting
      (answer (5 ∷ []))
      finished_first
unfolding finished_first
exchange_code-Earned_example =
    exchange_code-Earned (world 9 (5 ∷ [])) "app" none first_code "https://app.example/back"
      (repeated 43) (stage waiting) finished_first (answer (5 ∷ [])) refl

abbrev one_scope : List String
one_scope = "email" ∷ []

abbrev two_scopes : List String
two_scopes = "openid" ∷ "email" ∷ []

narrow_scopes-done_example :
    (contains one_scope "email" ≡ contains (asked_tokens "email  email") "email")
    × All (λ scope. contains two_scopes scope ≡ true) one_scope
    × (distinct one_scope ≡ true)
unfolding narrow_scopes is_scope_token
narrow_scopes-done_example = narrow_scopes-done "email  email" two_scopes one_scope "email" refl

narrow_scopes-is_done_example :
    is_done (narrow_scopes (some "email admin") two_scopes)
    ≡ all (is_grantable two_scopes) (asked_tokens "email admin")
narrow_scopes-is_done_example = narrow_scopes-is_done "email admin" two_scopes

abbrev exchange_request : TokenRequest
exchange_request = record {
  grant_type = some "authorization_code";
  scope = none;
  client_id = some "app";
  client_secret = none;
  code = some first_code;
  redirect_uri = some "https://app.example/back";
  code_verifier = some (repeated 43);
  refresh_token = none;
}

-- The storage fails where the second unit of work begins: the code is spent.
abbrev failing_later : Stage Db
failing_later = record {
  kept = waiting;
  faults = none ∷ none ∷ none ∷ none ∷ some (failure storage_unavailable) ∷ [];
}

grant_token-refused_example :
    ((spent_first.tokens ≡ waiting.tokens)
      ⊎ ((oauth_failure (failure storage_unavailable)).cause.code ≡ grant_invalid))
    × Told (oauth_failure (failure storage_unavailable))
unfolding spent_first
grant_token-refused_example =
    grant_token-refused (world 9 (5 ∷ [])) exchange_request failing_later spent_first
      (oauth_failure (failure storage_unavailable)) refl
