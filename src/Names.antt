-- ===== src/Names.antt =====
-- What may name a thing, and what a page can show: `is_unshowable` and `check_scope_token` of
-- crates/saffui-core/src/clients/mod.rs, `is_role_name` of crates/saffui-core/src/authz/roles.rs and
-- `is_schema_name` of crates/saffui-core/src/authz/relations/schema.rs.
use Prim.Native.String.{len}
use saffui.Base.{
  ℕ, String, Bool, false, ◌&&◌, ◌||◌, List, [], ◌∷◌, all, leb, contains, number_keys, ◌==◌,
}
use saffui.Base.Text.{
  codes, in_range, is_ascii_lowercase, is_ascii_digit, is_ascii_alphanumeric, is_control,
}

unfoldable pub is_unshowable : ℕ → Bool
is_unshowable c =
    is_control c
    || c == 0xad
    || in_range 0x600 0x605 c
    || c == 0x61c
    || c == 0x6dd
    || c == 0x70f
    || in_range 0x890 0x891 c
    || c == 0x8e2
    || c == 0x180e
    || in_range 0x200b 0x200f c
    || in_range 0x2028 0x202e c
    || in_range 0x2060 0x2064 c
    || in_range 0x2066 0x206f c
    || c == 0xfeff
    || in_range 0xfff9 0xfffb c
    || c == 0x110bd
    || c == 0x110cd
    || in_range 0x13430 0x1343f c
    || in_range 0x1bca0 0x1bca3 c
    || in_range 0x1d173 0x1d17a c
    || c == 0xe0001
    || in_range 0xe0020 0xe007f c

unfoldable pub is_role_name : String → Bool
is_role_name text =
    leb 1 (len text)
    && leb (len text) 64
    && all (λ c. is_ascii_alphanumeric c || contains (b'.' ∷ b':' ∷ b'_' ∷ b'-' ∷ []) c)
        (codes text)

abbrev schema_name_codes : List ℕ → Bool
schema_name_codes [] = false
schema_name_codes (first ∷ rest) =
    is_ascii_lowercase first
    && all (λ c. is_ascii_lowercase c || is_ascii_digit c || c == b'_') rest

unfoldable pub is_schema_name : String → Bool
is_schema_name text = schema_name_codes (codes text) && leb (len text) 64
