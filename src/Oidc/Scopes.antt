-- ===== src/Oidc/Scopes.antt =====
-- The scopes a request is narrowed to: `narrow_scopes` of crates/saffui-core/src/oidc/token.rs.
pub mod Narrowed
use Prim.Native.Char.{Char, code}
use saffui.Base.{
  filter_by, ◌==◌, number_keys, String, Bool, true, false, not, Option, none, some, List, [], ◌∷◌,
  ◌++◌, text_keys, contains, if◌then◌else◌,
}
use saffui.Errors.{scope_not_allowed, scope_invalid}
use saffui.Work.{Result, done, failing, refused}
use saffui.Clients.{is_scope_token}

-- The tokens of what is asked, that `split` and `filter` give, one by one.
unfoldable pub narrow : List String → List String → List String → Result (List String)
narrow allowed granted [] = done granted
narrow allowed granted (token ∷ asked) =
    let rest =
      narrow allowed (if contains granted token then granted else granted ++ token ∷ []) asked in
    if not (is_scope_token token)
    then refused scope_invalid
    else if not (contains allowed token)
    then refused scope_not_allowed
    else rest

-- `str::split` at a space.
abbrev to_first : Char → List String → List String
to_first c [] = String.◌∷◌ c String.[] ∷ []
to_first c (w ∷ ws) = String.◌∷◌ c w ∷ ws

unfoldable pub split_spaces : String → List String
split_spaces String.[] = String.[] ∷ []
split_spaces (String.◌∷◌ c s) =
    let rest = split_spaces s in if code c == b' ' then String.[] ∷ rest else to_first c rest

unfoldable pub asked_tokens : String → List String
unfolding split_spaces
asked_tokens text = filter_by (λ token. not (token == "")) (split_spaces text)

unfoldable pub narrow_scopes : Option String → List String → Result (List String)
unfolding narrow asked_tokens
narrow_scopes none allowed = done allowed
narrow_scopes (some text) allowed = narrow allowed [] (asked_tokens text)
