-- ===== src/Oidc/Codes.antt =====
-- Authorization codes: crates/saffui-core/src/oidc/code.rs, and the operations on them as
-- crates/saffui-core/src/testkit/memory/login.rs writes them, over the codes of one realm.
use saffui.Base.{
  ℕ, String, Bool, true, false, not, ◌||◌, Option, none, some, List, [], ◌∷◌, ◌++◌, leb, text_keys,
  ◌==◌, if◌then◌else◌,
}
use saffui.Base.Bytes.{bytes_keys}
use saffui.Tokens.{is_some}

pub record AuthorizationCode : Type 0 where
  pub code_digest : List ℕ
  pub client_id : String
  pub person : ℕ
  pub session : ℕ
  pub redirect_uri : String
  pub scopes : List String
  pub nonce : Option String
  pub code_challenge : List ℕ
  pub authenticated_at : ℕ
  pub expires_at : ℕ

pub record ReplayedCode : Type 0 where
  pub person : ℕ
  pub session : ℕ
  pub family : Option ℕ

pub record KeptCode : Type 0 where
  pub code : AuthorizationCode
  pub spent_at : Option ℕ
  pub family : Option ℕ
  pub replayed_at : Option ℕ

unfoldable pub insert_authorization_code : List KeptCode → AuthorizationCode → List KeptCode
insert_authorization_code ks code =
    ks ++ record { code = code; spent_at = none; family = none; replayed_at = none } ∷ []

-- `find_code`, and what the caller makes of the code that it finds: what it answers, and the code as
-- it leaves it.
unfoldable pub at_code {ℓ} :
    {A : Type ℓ} → List ℕ → A → (KeptCode → A × KeptCode) → List KeptCode → A × List KeptCode
at_code digest missing found [] = (missing, [])
at_code digest missing found (k ∷ ks) =
    let rest = at_code digest missing found ks in
    if k.code.code_digest == digest then ((found k).0, (found k).1 ∷ ks) else (rest.0, k ∷ rest.1)

abbrev pub spend_kept : ℕ → KeptCode → Option AuthorizationCode × KeptCode
spend_kept now k =
    if is_some k.spent_at || leb k.code.expires_at now
    then (none, k)
    else (some k.code, record k { spent_at = some now })

unfoldable pub spend_authorization_code :
    List KeptCode → List ℕ → ℕ → Option AuthorizationCode × List KeptCode
spend_authorization_code ks digest now = at_code digest none (spend_kept now) ks

abbrev pub bind_kept : ℕ → KeptCode → Bool × KeptCode
bind_kept family k =
    if not (is_some k.spent_at) || is_some k.replayed_at
    then (false, k)
    else (true, record k { family = some family })

unfoldable pub bind_code_family : List KeptCode → List ℕ → ℕ → Bool × List KeptCode
bind_code_family ks digest family = at_code digest false (bind_kept family) ks

abbrev pub mark_kept : String → ℕ → KeptCode → Option ReplayedCode × KeptCode
mark_kept client_id now k =
    if not (is_some k.spent_at) || is_some k.replayed_at || not (k.code.client_id == client_id)
    then (none, k)
    else (
      some (record { person = k.code.person; session = k.code.session; family = k.family }),
      record k { replayed_at = some now },
    )

unfoldable pub mark_code_replayed :
    List KeptCode → List ℕ → String → ℕ → Option ReplayedCode × List KeptCode
mark_code_replayed ks digest client_id now = at_code digest none (mark_kept client_id now) ks
