-- ===== src/Clients.antt =====
-- How a client is known: crates/saffui-core/src/clients/authenticate.rs, and the tests of what names
-- one and of a scope, of crates/saffui-core/src/clients/mod.rs. Whether a text parses as a UUID, the
-- digest of a secret and the rows of clients are parameters; two digests are compared as they are.
use Prim.Native.String.{len}
use saffui.Base.{
  ℕ, String, Bool, true, false, not, ◌&&◌, ◌||◌, Option, none, some, List, [], ◌∷◌, all, contains,
  number_keys, text_keys, ◌==◌, if◌then◌else◌,
}
use saffui.Base.Bytes.{bytes_keys}
use saffui.Audit.{zeros}
use saffui.Base.Text.{codes, in_range, is_ascii_alphanumeric}

pub record Client : Type 0 where
  pub client_id : String
  pub secret_digest : Option (List ℕ)
  pub allows_client_credentials : Bool
  pub allows_authorization_code : Bool
  pub requires_consent : Bool
  pub scopes : List String
  pub enabled : Bool

-- A text with a character beyond ASCII fails the test of its bytes, so a text that passes has as many
-- bytes as characters.
unfoldable pub is_client_identifier : (String → Bool) → String → Bool
is_client_identifier parses_as_uuid text =
    in_range 1 64 (len text)
    && all (λ c. is_ascii_alphanumeric c || contains (b'-' ∷ b'.' ∷ b'_' ∷ []) c) (codes text)
    && not (parses_as_uuid text)

unfoldable pub is_scope_token : String → Bool
is_scope_token text =
    in_range 1 64 (len text)
    && all (λ c. c == 0x21 || in_range 0x23 0x5b c || in_range 0x5d 0x7e c) (codes text)

abbrev secret_of : Option Client → Option (List ℕ)
secret_of none = none
secret_of (some client) = client.secret_digest

-- A client that is unknown is compared too, with a digest that nothing matches.
unfoldable pub expected_digest : Option Client → List ℕ
expected_digest client = elim (secret_of client) [ none ↦ zeros 32 | some digest ↦ digest ]

-- What `read_named_client` reads.
unfoldable pub named_client : (String → Bool) → (String → Option Client) → String → Option Client
named_client parses_as_uuid rows client_id =
    if is_client_identifier parses_as_uuid client_id then rows client_id else none

-- The client that `authenticate_client` ends with, for the digest of what is presented.
unfoldable pub authenticated : Option Client → List ℕ → Option Client
unfolding expected_digest
authenticated none presented = none
authenticated (some client) presented =
    if presented == expected_digest (some client) && client.enabled then some client else none

-- The client that `identify_client` ends with, where a secret is presented and where none is.
unfoldable pub identified : Option Client → Option (List ℕ) → Option Client
unfolding authenticated
identified client (some presented) = authenticated client presented
identified none none = none
identified (some client) none =
    if client.enabled && elim client.secret_digest [ none ↦ true | some digest ↦ false ]
    then some client
    else none
