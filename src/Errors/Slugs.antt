-- ===== src/Errors/Slugs.antt =====
-- The names that clients match on: `slug` of crates/saffui-core/src/error.rs.
use saffui.Base.{String}
use saffui.Errors.{
  ErrorCode, internal, storage_unavailable, conflict, random_unavailable, crypto_unavailable,
  request_invalid, list_offset_too_large, realm_not_found, realm_name_invalid, realm_name_taken,
  username_invalid, username_taken, email_invalid, email_taken, display_name_invalid,
  password_unacceptable, person_not_found, authenticator_not_found, security_key_not_found,
  client_authentication_failed, client_identifier_invalid, client_identifier_taken,
  client_name_invalid, scope_invalid, scope_not_allowed, grant_not_allowed, grant_type_unsupported,
  client_not_found, capability_unknown, redirect_uri_invalid, redirect_uri_mismatch,
  admin_authentication_failed, capability_missing, sign_in_failed, hashing_busy,
  authorization_request_expired, sign_in_requests_too_frequent, session_required,
  authenticator_already_enrolled, code_rejected, second_factor_proof_required, key_rejected,
  security_keys_not_served, consent_not_found, token_invalid, grant_invalid,
  token_scope_insufficient, token_type_unsupported, tenant_name_invalid, role_name_invalid,
  role_name_taken, role_not_found, group_name_invalid, group_name_taken, group_not_found,
  role_text_invalid, grant_period_invalid, role_grant_not_found, membership_not_found,
  held_too_many, relation_schema_invalid, relation_invalid, relation_not_found, policy_invalid,
  policy_name_taken, policy_not_found, resource_type_taken, named_by_policy,
}

abbrev pub slug : ErrorCode → String
slug internal = "platform.internal"
slug storage_unavailable = "platform.storage_unavailable"
slug conflict = "platform.conflict"
slug random_unavailable = "platform.random_unavailable"
slug crypto_unavailable = "platform.crypto_unavailable"
slug request_invalid = "platform.request_invalid"
slug list_offset_too_large = "platform.list_offset_too_large"
slug realm_not_found = "realm.not_found"
slug realm_name_invalid = "realm.name_invalid"
slug realm_name_taken = "realm.name_taken"
slug username_invalid = "user.username_invalid"
slug username_taken = "user.username_taken"
slug email_invalid = "user.email_invalid"
slug email_taken = "user.email_taken"
slug display_name_invalid = "user.display_name_invalid"
slug password_unacceptable = "user.password_unacceptable"
slug person_not_found = "user.not_found"
slug authenticator_not_found = "user.authenticator_not_found"
slug security_key_not_found = "user.security_key_not_found"
slug client_authentication_failed = "client.authentication_failed"
slug client_identifier_invalid = "client.identifier_invalid"
slug client_identifier_taken = "client.identifier_taken"
slug client_name_invalid = "client.name_invalid"
slug scope_invalid = "client.scope_invalid"
slug scope_not_allowed = "client.scope_not_allowed"
slug grant_not_allowed = "client.grant_not_allowed"
slug grant_type_unsupported = "client.grant_type_unsupported"
slug client_not_found = "client.not_found"
slug capability_unknown = "client.capability_unknown"
slug redirect_uri_invalid = "client.redirect_uri_invalid"
slug redirect_uri_mismatch = "client.redirect_uri_mismatch"
slug admin_authentication_failed = "auth.admin_authentication_failed"
slug capability_missing = "auth.capability_missing"
slug sign_in_failed = "auth.sign_in_failed"
slug hashing_busy = "auth.hashing_busy"
slug authorization_request_expired = "auth.request_expired"
slug sign_in_requests_too_frequent = "auth.sign_in_requests_too_frequent"
slug session_required = "auth.session_required"
slug authenticator_already_enrolled = "auth.authenticator_already_enrolled"
slug code_rejected = "auth.code_rejected"
slug second_factor_proof_required = "auth.second_factor_proof_required"
slug key_rejected = "auth.key_rejected"
slug security_keys_not_served = "auth.security_keys_not_served"
slug consent_not_found = "auth.consent_not_found"
slug token_invalid = "token.invalid"
slug grant_invalid = "token.grant_invalid"
slug token_scope_insufficient = "token.scope_insufficient"
slug token_type_unsupported = "token.type_unsupported"
slug tenant_name_invalid = "tenant.name_invalid"
slug role_name_invalid = "authz.role_name_invalid"
slug role_name_taken = "authz.role_name_taken"
slug role_not_found = "authz.role_not_found"
slug group_name_invalid = "authz.group_name_invalid"
slug group_name_taken = "authz.group_name_taken"
slug group_not_found = "authz.group_not_found"
slug role_text_invalid = "authz.text_invalid"
slug grant_period_invalid = "authz.grant_period_invalid"
slug role_grant_not_found = "authz.grant_not_found"
slug membership_not_found = "authz.membership_not_found"
slug held_too_many = "authz.held_too_many"
slug relation_schema_invalid = "authz.relation_schema_invalid"
slug relation_invalid = "authz.relation_invalid"
slug relation_not_found = "authz.relation_not_found"
slug policy_invalid = "authz.policy_invalid"
slug policy_name_taken = "authz.policy_name_taken"
slug policy_not_found = "authz.policy_not_found"
slug resource_type_taken = "authz.resource_type_taken"
slug named_by_policy = "authz.named_by_policy"
