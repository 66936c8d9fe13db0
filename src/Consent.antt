-- ===== src/Consent.antt =====
-- Whether a person must be asked before a client gets a code: `is_consent_owed` of
-- crates/saffui-core/src/consent/mod.rs.
use saffui.Base.{
  String, Bool, false, not, ◌&&◌, ◌||◌, Option, none, some, List, all, contains, text_keys,
}

pub record ConsentTerms : Type 0 where
  pub requires_consent : Bool
  pub allowed : Option (List String)

abbrev pub allows : Option (List String) → List String → Bool
allows none asked = false
allows (some kept) asked = all (λ scope. contains kept scope) asked

unfoldable pub is_consent_owed : ConsentTerms → Bool → List String → Bool
is_consent_owed terms prompted asked =
    prompted || (terms.requires_consent && not (allows terms.allowed asked))
