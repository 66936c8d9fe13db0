-- ===== src/Oidc/Tests/Tokens.antt =====
-- The theorems at tokens made, renewed and ended, in the realm of the runs of the token endpoint of
-- crates/saffui-core/src/oidc.
use saffui.Base.{
  arith, number_keys, ℕ, ◌≡◌, ◌≢◌, refl, Option, none, some, List, [], ◌∷◌, text_keys,
}
use saffui.Errors.{grant_invalid}
use saffui.Clients.{is_scope_token, named_client}
use saffui.Oidc.Codes.{KeptCode}
use saffui.Oidc.World.{Db, TokenResponse, token_issued, IssuedAccessToken}
use saffui.Oidc.Token.{rotate_refresh_token}
use saffui.Oidc.Grant.{Answer, granted, refuse, exchange_code, settle_rotation}
use saffui.Oidc.Steps.{here}
use saffui.Oidc.Signed.{Roles, Identity}
use saffui.Oidc.Clear.{answer_of}
use saffui.Oidc.Granted.{exchange_code-granted}
use saffui.Oidc.Renewed.{rotate_refresh_token-renewed}
use saffui.Oidc.Reuse.{reused-ne}
use saffui.Oidc.Replayed.{replayed-ne}
use saffui.Oidc.Tests.{
  waiting-Reach, left, refresh_token, stored, finished_other, replayed_first, finished_other-Reach,
}
use saffui.Oidc.Tests.Realm.{
  public_client, someone, signed_in, world, code_of, stage, first_code, other_code, waiting,
  repeated, runs,
}

abbrev kept : List ℕ → Option ℕ → Option ℕ → Option ℕ → KeptCode
kept digest spent family replayed = record {
  code = code_of digest;
  spent_at = spent;
  family = family;
  replayed_at = replayed;
}

replayed-ne_example :
    (◌≡◌ {A = Answer TokenResponse} (refuse grant_invalid) (refuse grant_invalid))
    × ((refresh_token 10 (6 ∷ [])).family ≢ 9)
unfolding replayed_first named_client
replayed-ne_example =
    replayed-ne (world 11 (7 ∷ [])) "app" none first_code "https://app.example/back" (repeated 43)
      public_client [] (kept other_code (some 100) (some 10) none ∷ [])
      (kept first_code (some 100) (some 9) none) finished_other replayed_first
      (refuse grant_invalid) (kept first_code (some 100) (some 9) (some 100)) 9 (6 ∷ []) "app" 200
      (refresh_token 10 (6 ∷ []))
      (stored (refresh_token 9 (5 ∷ [])) none (some 100)
        ∷ stored (refresh_token 10 (6 ∷ [])) (some 200) none
        ∷ [])
      finished_other-Reach refl tt refl refl refl refl refl refl here refl refl refl

rotated_first : Db
unfolding finished_other
rotated_first =
    left finished_other
      (rotate_refresh_token (world 12 (8 ∷ [])) "app" none (5 ∷ []) none (stage finished_other))

reused_first : Db
unfolding rotated_first
reused_first =
    left rotated_first
      (rotate_refresh_token (world 13 (9 ∷ [])) "app" none (5 ∷ []) none (stage rotated_first))

reused-ne_example :
    (◌≡◌ {A = Answer TokenResponse} (refuse grant_invalid) (refuse grant_invalid))
    × ((refresh_token 10 (6 ∷ [])).family ≢ 9)
unfolding reused_first named_client
reused-ne_example =
    reused-ne (world 13 (9 ∷ [])) "app" none (5 ∷ []) none public_client []
      (stored (refresh_token 10 (6 ∷ [])) none none
        ∷ stored (refresh_token 9 (8 ∷ [])) none none
        ∷ [])
      (stored (refresh_token 9 (5 ∷ [])) (some 100) none) rotated_first reused_first
      (refuse grant_invalid) (6 ∷ []) "app" 200 (refresh_token 10 (6 ∷ []))
      (stored (refresh_token 9 (5 ∷ [])) (some 100) (some 100)
        ∷ stored (refresh_token 10 (6 ∷ [])) (some 200) none
        ∷ stored (refresh_token 9 (8 ∷ [])) none (some 100)
        ∷ [])
      refl tt (λ e. absurd (cc), (λ e. absurd (cc), tt)) refl refl refl refl refl refl here refl

-- What the signing of the realm of the runs gives.
abbrev signed_access : IssuedAccessToken
signed_access = record { token = "a"; expires_in = 300; scope = "openid" }

exchange_code-granted_example :
    exchange_code
      (world 9 (5 ∷ []))
      "app"
      none
      first_code
      "https://app.example/back"
      (repeated 43)
      (stage waiting)
    ≡ (
      record waiting {
        codes = kept first_code (some 100) (some 9) none ∷ kept other_code none none none ∷ [];
        tokens = stored (refresh_token 9 (5 ∷ [])) none none ∷ [];
        events = token_issued "app" 9 7 "openid" 3 ∷ [];
      },
      granted (answer_of (world 9 (5 ∷ [])) (signed_access, some "i") (5 ∷ [])),
    )
unfolding runs named_client
exchange_code-granted_example =
    exchange_code-granted (world 9 (5 ∷ [])) "app" none first_code "https://app.example/back"
      (repeated 43) public_client [] (kept other_code none none none ∷ [])
      (kept first_code none none none) (signed_in, someone) 9 (5 ∷ []) signed_access (some "i")
      waiting waiting-Reach refl tt refl refl (ground arith) refl refl refl refl refl
      (record { session = refl; person = refl; enabled = refl }) refl (λ h. absurd (cc)) refl refl
      (record {
        key = 1;
        opened = refl;
        roles = none;
        claims = Roles.unasked refl;
        access_is = refl;
        identity = Identity.signed "i" refl refl;
      })

rotate_refresh_token-renewed_example :
    settle_rotation finished_other (
      rotate_refresh_token
        (world 12 (8 ∷ []))
        "app"
        none
        (5 ∷ [])
        (some "openid")
        (stage finished_other))
    ≡ (
      record finished_other {
        tokens =
            stored (refresh_token 9 (5 ∷ [])) (some 100) none
            ∷ stored (refresh_token 10 (6 ∷ [])) none none
            ∷ stored (refresh_token 9 (8 ∷ [])) none none
            ∷ [];
      },
      granted (answer_of (world 12 (8 ∷ [])) (signed_access, some "i") (8 ∷ [])),
    )
unfolding finished_other named_client is_scope_token
rotate_refresh_token-renewed_example =
    rotate_refresh_token-renewed (world 12 (8 ∷ [])) "app" none (5 ∷ []) (some "openid")
      public_client [] (stored (refresh_token 10 (6 ∷ [])) none none ∷ [])
      (stored (refresh_token 9 (5 ∷ [])) none none) (signed_in, someone) ("openid" ∷ []) (8 ∷ [])
      signed_access (some "i") finished_other refl tt refl refl refl refl (ground arith)
      (λ e. refl, (λ e. refl, tt)) refl refl
      (record { session = refl; person = refl; enabled = refl }) refl refl refl
      (record {
        key = 1;
        opened = refl;
        roles = none;
        claims = Roles.unasked refl;
        access_is = refl;
        identity = Identity.signed "i" refl refl;
      })
