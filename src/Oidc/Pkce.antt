-- ===== src/Oidc/Pkce.antt =====
-- Proof Key for Code Exchange: crates/saffui-core/src/oidc/pkce.rs. The encoding in base64url without
-- padding, its decoding and the digest are parameters; a text of them is its bytes.
use saffui.Base.{
  ℕ, Bool, false, ◌&&◌, ◌||◌, Option, none, some, List, [], ◌∷◌, ◌==◌, number_keys, all, length,
  contains, not, if◌then◌else◌,
}
use saffui.Base.Bytes.{bytes_keys}
use saffui.Base.Text.{is_ascii_alphanumeric, in_range}

unfoldable pub is_unreserved : ℕ → Bool
is_unreserved byte = is_ascii_alphanumeric byte || contains (b'-' ∷ b'.' ∷ b'_' ∷ b'~' ∷ []) byte

unfoldable pub is_well_formed_challenge : (List ℕ → Option (List ℕ)) → List ℕ → Bool
is_well_formed_challenge decode challenge =
    length challenge == 43
    && elim (decode challenge) [ none ↦ false | some bytes ↦ length bytes == 32 ]

unfoldable pub matches_challenge : (List ℕ → List ℕ) → (List ℕ → List ℕ) → List ℕ → List ℕ → Bool
unfolding is_unreserved
matches_challenge sha256 encode verifier challenge =
    if not (in_range 43 128 (length verifier)) || not (all is_unreserved verifier)
    then false
    else encode (sha256 verifier) == challenge
