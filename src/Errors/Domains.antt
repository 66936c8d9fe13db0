-- ===== src/Errors/Domains.antt =====
-- The ranges of numbers of crates/saffui-core/src/error.rs are those of the domains of the slugs.
use saffui.Base.{ℕ, ◌/◌, String, true, ◌≡◌, refl, number_keys, ◌==◌, if◌then◌else◌}
use text.Mathlib.Text.{starts_with}
use saffui.Errors.{
  ErrorCode, number, internal, storage_unavailable, conflict, random_unavailable,
  crypto_unavailable, request_invalid, list_offset_too_large, realm_not_found, realm_name_invalid,
  realm_name_taken, username_invalid, username_taken, email_invalid, email_taken,
  display_name_invalid, password_unacceptable, person_not_found, authenticator_not_found,
  security_key_not_found, client_authentication_failed, client_identifier_invalid,
  client_identifier_taken, client_name_invalid, scope_invalid, scope_not_allowed, grant_not_allowed,
  grant_type_unsupported, client_not_found, capability_unknown, redirect_uri_invalid,
  redirect_uri_mismatch, admin_authentication_failed, capability_missing, sign_in_failed,
  hashing_busy, authorization_request_expired, sign_in_requests_too_frequent, session_required,
  authenticator_already_enrolled, code_rejected, second_factor_proof_required, key_rejected,
  security_keys_not_served, consent_not_found, token_invalid, grant_invalid,
  token_scope_insufficient, token_type_unsupported, tenant_name_invalid, role_name_invalid,
  role_name_taken, role_not_found, group_name_invalid, group_name_taken, group_not_found,
  role_text_invalid, grant_period_invalid, role_grant_not_found, membership_not_found,
  held_too_many, relation_schema_invalid, relation_invalid, relation_not_found, policy_invalid,
  policy_name_taken, policy_not_found, resource_type_taken, named_by_policy,
}
use saffui.Errors.Slugs.{slug}

-- What the slugs of each range of numbers start with, by the hundreds: the ranges of the doc of
-- `ErrorCode`, of which those of organizations and of credentials have no code yet, and no domain is past
-- 999.
pub domain : ℕ → String
domain hundreds =
    if hundreds == 0
    then "platform."
    else if hundreds == 1
    then "realm."
    else if hundreds == 2
    then "user."
    else if hundreds == 3
    then "client."
    else if hundreds == 4
    then "auth."
    else if hundreds == 5
    then "token."
    else if hundreds == 6
    then "tenant."
    else if hundreds == 7
    then "org."
    else if hundreds == 8
    then "credential."
    else if hundreds == 9
    then "authz."
    else "?"

-- A slug starts with the domain that the doc of the catalog gives the hundred of its number, and so each
-- code is numbered in the range of its domain.
pub slug-domain : (code : ErrorCode) → starts_with (slug code) (domain (number code / 100)) ≡ true
unfolding domain
slug-domain internal = refl
slug-domain storage_unavailable = refl
slug-domain conflict = refl
slug-domain random_unavailable = refl
slug-domain crypto_unavailable = refl
slug-domain request_invalid = refl
slug-domain list_offset_too_large = refl
slug-domain realm_not_found = refl
slug-domain realm_name_invalid = refl
slug-domain realm_name_taken = refl
slug-domain username_invalid = refl
slug-domain username_taken = refl
slug-domain email_invalid = refl
slug-domain email_taken = refl
slug-domain display_name_invalid = refl
slug-domain password_unacceptable = refl
slug-domain person_not_found = refl
slug-domain authenticator_not_found = refl
slug-domain security_key_not_found = refl
slug-domain client_authentication_failed = refl
slug-domain client_identifier_invalid = refl
slug-domain client_identifier_taken = refl
slug-domain client_name_invalid = refl
slug-domain scope_invalid = refl
slug-domain scope_not_allowed = refl
slug-domain grant_not_allowed = refl
slug-domain grant_type_unsupported = refl
slug-domain client_not_found = refl
slug-domain capability_unknown = refl
slug-domain redirect_uri_invalid = refl
slug-domain redirect_uri_mismatch = refl
slug-domain admin_authentication_failed = refl
slug-domain capability_missing = refl
slug-domain sign_in_failed = refl
slug-domain hashing_busy = refl
slug-domain authorization_request_expired = refl
slug-domain sign_in_requests_too_frequent = refl
slug-domain session_required = refl
slug-domain authenticator_already_enrolled = refl
slug-domain code_rejected = refl
slug-domain second_factor_proof_required = refl
slug-domain key_rejected = refl
slug-domain security_keys_not_served = refl
slug-domain consent_not_found = refl
slug-domain token_invalid = refl
slug-domain grant_invalid = refl
slug-domain token_scope_insufficient = refl
slug-domain token_type_unsupported = refl
slug-domain tenant_name_invalid = refl
slug-domain role_name_invalid = refl
slug-domain role_name_taken = refl
slug-domain role_not_found = refl
slug-domain group_name_invalid = refl
slug-domain group_name_taken = refl
slug-domain group_not_found = refl
slug-domain role_text_invalid = refl
slug-domain grant_period_invalid = refl
slug-domain role_grant_not_found = refl
slug-domain membership_not_found = refl
slug-domain held_too_many = refl
slug-domain relation_schema_invalid = refl
slug-domain relation_invalid = refl
slug-domain relation_not_found = refl
slug-domain policy_invalid = refl
slug-domain policy_name_taken = refl
slug-domain policy_not_found = refl
slug-domain resource_type_taken = refl
slug-domain named_by_policy = refl
