-- ===== src/Errors/Numbers.antt =====
-- Each number and each slug of crates/saffui-core/src/error.rs is of one code.
use saffui.Base.{ℕ, String, ◌≡◌, refl, Option, some, List, [], ◌∷◌, get, number_keys, text_keys}
use saffui.Errors.{
  ErrorCode, number, internal, storage_unavailable, conflict, random_unavailable,
  crypto_unavailable, request_invalid, list_offset_too_large, realm_not_found, realm_name_invalid,
  realm_name_taken, username_invalid, username_taken, email_invalid, email_taken,
  display_name_invalid, password_unacceptable, person_not_found, authenticator_not_found,
  security_key_not_found, client_authentication_failed, client_identifier_invalid,
  client_identifier_taken, client_name_invalid, scope_invalid, scope_not_allowed, grant_not_allowed,
  grant_type_unsupported, client_not_found, capability_unknown, redirect_uri_invalid,
  redirect_uri_mismatch, admin_authentication_failed, capability_missing, sign_in_failed,
  hashing_busy, authorization_request_expired, sign_in_requests_too_frequent, session_required,
  authenticator_already_enrolled, code_rejected, second_factor_proof_required, key_rejected,
  security_keys_not_served, consent_not_found, token_invalid, grant_invalid,
  token_scope_insufficient, token_type_unsupported, tenant_name_invalid, role_name_invalid,
  role_name_taken, role_not_found, group_name_invalid, group_name_taken, group_not_found,
  role_text_invalid, grant_period_invalid, role_grant_not_found, membership_not_found,
  held_too_many, relation_schema_invalid, relation_invalid, relation_not_found, policy_invalid,
  policy_name_taken, policy_not_found, resource_type_taken, named_by_policy,
}
use saffui.Errors.Slugs.{slug}

-- Every code, in the order of the catalog.
pub all_codes : List ErrorCode
all_codes =
    internal ∷ storage_unavailable ∷ conflict ∷ random_unavailable ∷ crypto_unavailable
    ∷ request_invalid ∷ list_offset_too_large ∷ realm_not_found ∷ realm_name_invalid
    ∷ realm_name_taken ∷ username_invalid ∷ username_taken ∷ email_invalid ∷ email_taken
    ∷ display_name_invalid ∷ password_unacceptable ∷ person_not_found ∷ authenticator_not_found
    ∷ security_key_not_found ∷ client_authentication_failed ∷ client_identifier_invalid
    ∷ client_identifier_taken ∷ client_name_invalid ∷ scope_invalid ∷ scope_not_allowed
    ∷ grant_not_allowed ∷ grant_type_unsupported ∷ client_not_found ∷ capability_unknown
    ∷ redirect_uri_invalid ∷ redirect_uri_mismatch ∷ admin_authentication_failed
    ∷ capability_missing ∷ sign_in_failed ∷ hashing_busy ∷ authorization_request_expired
    ∷ sign_in_requests_too_frequent ∷ session_required ∷ authenticator_already_enrolled
    ∷ code_rejected ∷ second_factor_proof_required ∷ key_rejected ∷ security_keys_not_served
    ∷ consent_not_found ∷ token_invalid ∷ grant_invalid ∷ token_scope_insufficient
    ∷ token_type_unsupported ∷ tenant_name_invalid ∷ role_name_invalid ∷ role_name_taken
    ∷ role_not_found ∷ group_name_invalid ∷ group_name_taken ∷ group_not_found ∷ role_text_invalid
    ∷ grant_period_invalid ∷ role_grant_not_found ∷ membership_not_found ∷ held_too_many
    ∷ relation_schema_invalid ∷ relation_invalid ∷ relation_not_found ∷ policy_invalid
    ∷ policy_name_taken ∷ policy_not_found ∷ resource_type_taken ∷ named_by_policy ∷ []

abbrev with_numbers : List ErrorCode → List (ℕ × ErrorCode)
with_numbers [] = []
with_numbers (code ∷ rest) = (number code, code) ∷ with_numbers rest

abbrev with_slugs : List ErrorCode → List (String × ErrorCode)
with_slugs [] = []
with_slugs (code ∷ rest) = (slug code, code) ∷ with_slugs rest

pub code_numbered : ℕ → Option ErrorCode
unfolding all_codes
code_numbered n = get (with_numbers all_codes) n

pub code_named : String → Option ErrorCode
unfolding all_codes
code_named text = get (with_slugs all_codes) text

-- A number names its code, so no two codes share one.
pub code_numbered-number : (code : ErrorCode) → code_numbered (number code) ≡ some code
unfolding code_numbered all_codes
code_numbered-number internal = refl
code_numbered-number storage_unavailable = refl
code_numbered-number conflict = refl
code_numbered-number random_unavailable = refl
code_numbered-number crypto_unavailable = refl
code_numbered-number request_invalid = refl
code_numbered-number list_offset_too_large = refl
code_numbered-number realm_not_found = refl
code_numbered-number realm_name_invalid = refl
code_numbered-number realm_name_taken = refl
code_numbered-number username_invalid = refl
code_numbered-number username_taken = refl
code_numbered-number email_invalid = refl
code_numbered-number email_taken = refl
code_numbered-number display_name_invalid = refl
code_numbered-number password_unacceptable = refl
code_numbered-number person_not_found = refl
code_numbered-number authenticator_not_found = refl
code_numbered-number security_key_not_found = refl
code_numbered-number client_authentication_failed = refl
code_numbered-number client_identifier_invalid = refl
code_numbered-number client_identifier_taken = refl
code_numbered-number client_name_invalid = refl
code_numbered-number scope_invalid = refl
code_numbered-number scope_not_allowed = refl
code_numbered-number grant_not_allowed = refl
code_numbered-number grant_type_unsupported = refl
code_numbered-number client_not_found = refl
code_numbered-number capability_unknown = refl
code_numbered-number redirect_uri_invalid = refl
code_numbered-number redirect_uri_mismatch = refl
code_numbered-number admin_authentication_failed = refl
code_numbered-number capability_missing = refl
code_numbered-number sign_in_failed = refl
code_numbered-number hashing_busy = refl
code_numbered-number authorization_request_expired = refl
code_numbered-number sign_in_requests_too_frequent = refl
code_numbered-number session_required = refl
code_numbered-number authenticator_already_enrolled = refl
code_numbered-number code_rejected = refl
code_numbered-number second_factor_proof_required = refl
code_numbered-number key_rejected = refl
code_numbered-number security_keys_not_served = refl
code_numbered-number consent_not_found = refl
code_numbered-number token_invalid = refl
code_numbered-number grant_invalid = refl
code_numbered-number token_scope_insufficient = refl
code_numbered-number token_type_unsupported = refl
code_numbered-number tenant_name_invalid = refl
code_numbered-number role_name_invalid = refl
code_numbered-number role_name_taken = refl
code_numbered-number role_not_found = refl
code_numbered-number group_name_invalid = refl
code_numbered-number group_name_taken = refl
code_numbered-number group_not_found = refl
code_numbered-number role_text_invalid = refl
code_numbered-number grant_period_invalid = refl
code_numbered-number role_grant_not_found = refl
code_numbered-number membership_not_found = refl
code_numbered-number held_too_many = refl
code_numbered-number relation_schema_invalid = refl
code_numbered-number relation_invalid = refl
code_numbered-number relation_not_found = refl
code_numbered-number policy_invalid = refl
code_numbered-number policy_name_taken = refl
code_numbered-number policy_not_found = refl
code_numbered-number resource_type_taken = refl
code_numbered-number named_by_policy = refl

-- A slug names its code, so no two codes share one.
pub code_named-slug : (code : ErrorCode) → code_named (slug code) ≡ some code
unfolding code_named all_codes
code_named-slug internal = refl
code_named-slug storage_unavailable = refl
code_named-slug conflict = refl
code_named-slug random_unavailable = refl
code_named-slug crypto_unavailable = refl
code_named-slug request_invalid = refl
code_named-slug list_offset_too_large = refl
code_named-slug realm_not_found = refl
code_named-slug realm_name_invalid = refl
code_named-slug realm_name_taken = refl
code_named-slug username_invalid = refl
code_named-slug username_taken = refl
code_named-slug email_invalid = refl
code_named-slug email_taken = refl
code_named-slug display_name_invalid = refl
code_named-slug password_unacceptable = refl
code_named-slug person_not_found = refl
code_named-slug authenticator_not_found = refl
code_named-slug security_key_not_found = refl
code_named-slug client_authentication_failed = refl
code_named-slug client_identifier_invalid = refl
code_named-slug client_identifier_taken = refl
code_named-slug client_name_invalid = refl
code_named-slug scope_invalid = refl
code_named-slug scope_not_allowed = refl
code_named-slug grant_not_allowed = refl
code_named-slug grant_type_unsupported = refl
code_named-slug client_not_found = refl
code_named-slug capability_unknown = refl
code_named-slug redirect_uri_invalid = refl
code_named-slug redirect_uri_mismatch = refl
code_named-slug admin_authentication_failed = refl
code_named-slug capability_missing = refl
code_named-slug sign_in_failed = refl
code_named-slug hashing_busy = refl
code_named-slug authorization_request_expired = refl
code_named-slug sign_in_requests_too_frequent = refl
code_named-slug session_required = refl
code_named-slug authenticator_already_enrolled = refl
code_named-slug code_rejected = refl
code_named-slug second_factor_proof_required = refl
code_named-slug key_rejected = refl
code_named-slug security_keys_not_served = refl
code_named-slug consent_not_found = refl
code_named-slug token_invalid = refl
code_named-slug grant_invalid = refl
code_named-slug token_scope_insufficient = refl
code_named-slug token_type_unsupported = refl
code_named-slug tenant_name_invalid = refl
code_named-slug role_name_invalid = refl
code_named-slug role_name_taken = refl
code_named-slug role_not_found = refl
code_named-slug group_name_invalid = refl
code_named-slug group_name_taken = refl
code_named-slug group_not_found = refl
code_named-slug role_text_invalid = refl
code_named-slug grant_period_invalid = refl
code_named-slug role_grant_not_found = refl
code_named-slug membership_not_found = refl
code_named-slug held_too_many = refl
code_named-slug relation_schema_invalid = refl
code_named-slug relation_invalid = refl
code_named-slug relation_not_found = refl
code_named-slug policy_invalid = refl
code_named-slug policy_name_taken = refl
code_named-slug policy_not_found = refl
code_named-slug resource_type_taken = refl
code_named-slug named_by_policy = refl
