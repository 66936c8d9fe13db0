-- ===== src/Tokens.antt =====
-- Refresh tokens: what crates/saffui-core/src/tokens/store.rs keeps, and the operations on it as
-- crates/saffui-core/src/testkit/memory/refresh.rs writes them, over the tokens of one realm. An
-- identifier is a number, an instant is in seconds, a digest is a list of bytes. A call that fails
-- leaves no state: that is written where the calls are made.
pub mod Families
use Prim.Native.Nat.{min, max}
use saffui.Base.{
  ℕ, String, Bool, true, false, not, ◌&&◌, Option, none, some, List, [], ◌∷◌, ◌++◌, ltb, text_keys,
  number_keys, ◌==◌, if◌then◌else◌, find, length, filter_by, contains, Keys,
}
use saffui.Base.Bytes.{bytes_keys}

pub record RefreshToken : Type 0 where
  pub token_digest : List ℕ
  pub family : ℕ
  pub client_id : String
  pub person : ℕ
  pub session : ℕ
  pub scopes : List String
  pub issued_at : ℕ
  pub expires_at : ℕ

pub record StoredRefreshToken : Type 0 where
  pub token : RefreshToken
  pub used_at : Option ℕ
  pub revoked_at : Option ℕ

pub record EndedFamily : Type 0 where
  pub tokens : ℕ
  pub last_issued_at : ℕ
  pub last_used_at : Option ℕ

abbrev pub is_some {ℓ} : {A : Type ℓ} → Option A → Bool
is_some none = false
is_some (some a) = true

unfoldable pub is_live : StoredRefreshToken → ℕ → Bool
is_live s now = not (is_some s.used_at) && not (is_some s.revoked_at) && ltb now s.token.expires_at

abbrev earliest : Option ℕ → Option ℕ → Option ℕ
earliest none o = o
earliest (some a) none = some a
earliest (some a) (some b) = some (min a b)

abbrev latest : Option ℕ → Option ℕ → Option ℕ
latest none o = o
latest (some a) none = some a
latest (some a) (some b) = some (max a b)

-- The entry of a family in what `read_revoked_families` answers.
unfoldable pub revoked_family : List StoredRefreshToken → ℕ → Option ℕ
revoked_family [] f = none
revoked_family (s ∷ ts) f =
    if s.token.family == f then earliest s.revoked_at (revoked_family ts f) else revoked_family ts f

-- `revoke_refresh_tokens_where`: what it returns, and what it leaves.
unfoldable pub revoked_where :
    (RefreshToken → Bool) → List StoredRefreshToken → List StoredRefreshToken
revoked_where concerned = filter_by (λ s. not (is_some s.revoked_at) && concerned s.token)

unfoldable pub revoke_where :
    (RefreshToken → Bool) → ℕ → List StoredRefreshToken → List StoredRefreshToken
revoke_where concerned now [] = []
revoke_where concerned now (s ∷ ts) =
    (if not (is_some s.revoked_at) && concerned s.token
      then record s { revoked_at = some now }
      else s)
    ∷ revoke_where concerned now ts

unfoldable pub insert_refresh_token :
    List StoredRefreshToken → RefreshToken → List StoredRefreshToken
insert_refresh_token ts t = ts ++ record { token = t; used_at = none; revoked_at = none } ∷ []

-- The first token that a test passes, marked used.
unfoldable pub spend_first :
    (StoredRefreshToken → Bool)
    → ℕ
    → List StoredRefreshToken
    → Option (RefreshToken × List StoredRefreshToken)
spend_first p now [] = none
spend_first p now (s ∷ ts) =
    if p s
    then some (s.token, record s { used_at = some now } ∷ ts)
    else elim (spend_first p now ts) [ none ↦ none | some (t, rest) ↦ some (t, s ∷ rest) ]

unfoldable pub is_spendable :
    List StoredRefreshToken → List ℕ → String → ℕ → StoredRefreshToken → Bool
unfolding is_live
is_spendable ts digest client_id now s =
    s.token.token_digest == digest
    && s.token.client_id == client_id
    && is_live s now
    && not (is_some (revoked_family ts s.token.family))

-- `none` leaves every token as it was.
unfoldable pub spend_refresh_token :
    List StoredRefreshToken → List ℕ → String → ℕ → Option (RefreshToken × List StoredRefreshToken)
spend_refresh_token ts digest client_id now =
    spend_first (is_spendable ts digest client_id now) now ts

unfoldable pub read_refresh_token : List StoredRefreshToken → List ℕ → Option StoredRefreshToken
read_refresh_token ts digest = elim (find (λ s. s.token.token_digest == digest) ts) [
  | none ↦ none
  | some s ↦ some (record s {
    revoked_at = elim s.revoked_at [ some at ↦ some at | none ↦ revoked_family ts s.token.family ];
  })
]

abbrev latest_issued : List StoredRefreshToken → Option ℕ
latest_issued [] = none
latest_issued (s ∷ ts) = latest (some s.token.issued_at) (latest_issued ts)

abbrev latest_used : List StoredRefreshToken → Option ℕ
latest_used [] = none
latest_used (s ∷ ts) = latest s.used_at (latest_used ts)

abbrev pub ended_family : List StoredRefreshToken → Option EndedFamily
ended_family revoked = elim (latest_issued revoked) [
  | none ↦ none
  | some at ↦
      some (record {
        tokens = length revoked;
        last_issued_at = at;
        last_used_at = latest_used revoked;
      })
]

unfoldable pub revoke_refresh_family :
    List StoredRefreshToken → ℕ → ℕ → Option EndedFamily × List StoredRefreshToken
revoke_refresh_family ts family now = (
  ended_family (revoked_where (λ t. t.family == family) ts),
  revoke_where (λ t. t.family == family) now ts,
)

unfoldable pub revoke_refresh_tokens_of_session :
    List StoredRefreshToken → ℕ → ℕ → ℕ × List StoredRefreshToken
revoke_refresh_tokens_of_session ts session now = (
  length (revoked_where (λ t. t.session == session) ts),
  revoke_where (λ t. t.session == session) now ts,
)

unfoldable pub revoke_refresh_tokens_of_sessions :
    List StoredRefreshToken → List ℕ → ℕ → ℕ × List StoredRefreshToken
revoke_refresh_tokens_of_sessions ts sessions now = (
  length (revoked_where (λ t. contains sessions t.session) ts),
  revoke_where (λ t. contains sessions t.session) now ts,
)
