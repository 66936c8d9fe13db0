-- ===== src/Errors/Messages.antt =====
-- What a refusal says: `message` of crates/saffui-core/src/error.rs.
use saffui.Base.{String}
use saffui.Errors.{
  ErrorCode, internal, storage_unavailable, conflict, random_unavailable, crypto_unavailable,
  request_invalid, list_offset_too_large, realm_not_found, realm_name_invalid, realm_name_taken,
  username_invalid, username_taken, email_invalid, email_taken, display_name_invalid,
  password_unacceptable, person_not_found, authenticator_not_found, security_key_not_found,
  client_authentication_failed, client_identifier_invalid, client_identifier_taken,
  client_name_invalid, scope_invalid, scope_not_allowed, grant_not_allowed, grant_type_unsupported,
  client_not_found, capability_unknown, redirect_uri_invalid, redirect_uri_mismatch,
  admin_authentication_failed, capability_missing, sign_in_failed, hashing_busy,
  authorization_request_expired, sign_in_requests_too_frequent, session_required,
  authenticator_already_enrolled, code_rejected, second_factor_proof_required, key_rejected,
  security_keys_not_served, consent_not_found, token_invalid, grant_invalid,
  token_scope_insufficient, token_type_unsupported, tenant_name_invalid, role_name_invalid,
  role_name_taken, role_not_found, group_name_invalid, group_name_taken, group_not_found,
  role_text_invalid, grant_period_invalid, role_grant_not_found, membership_not_found,
  held_too_many, relation_schema_invalid, relation_invalid, relation_not_found, policy_invalid,
  policy_name_taken, policy_not_found, resource_type_taken, named_by_policy,
}

abbrev pub message : ErrorCode → String
message internal = "The request could not be completed."
message storage_unavailable = "The service is temporarily unavailable."
message conflict = "The request conflicts with what exists."
message random_unavailable = "The request could not be completed."
message crypto_unavailable = "The request could not be completed."
message request_invalid = "The request is missing a parameter or carries one it cannot."
message list_offset_too_large = "A list starts at 100000 at the latest: narrow it instead."
message realm_not_found = "No such realm."
message realm_name_invalid =
    "A realm name is 1 to 63 lowercase letters, digits or hyphens, and neither starts nor ends with a hyphen."
message realm_name_taken = "This realm name is already taken."
message username_invalid =
    "A username is 1 to 64 letters, digits, dots, hyphens or underscores, and starts and ends with a letter or a digit."
message username_taken = "This username is already taken."
message email_invalid = "This is not an email address."
message email_taken = "This email address is already taken."
message display_name_invalid =
    "A display name is at most 120 characters, none of them a control or a format character."
message password_unacceptable = "A password is 8 to 1024 bytes long."
message person_not_found = "No such person."
message authenticator_not_found = "This person has no authenticator application."
message security_key_not_found = "This person has no security key."
message client_authentication_failed = "Client authentication failed."
message client_identifier_invalid =
    "A client identifier is 1 to 64 letters, digits, hyphens, dots or underscores."
message client_identifier_taken = "This client identifier is already taken."
message client_name_invalid =
    "A client name is 1 to 120 characters, none of them a control or a format character."
message scope_invalid = "A scope is 1 to 64 printable characters, without a space or a quote."
message scope_not_allowed = "The client is not allowed a scope it asked for."
message grant_not_allowed = "The client is not allowed this grant."
message grant_type_unsupported = "This grant type is not supported."
message client_not_found = "No such client."
message capability_unknown = "A capability that was asked for does not exist."
message redirect_uri_invalid =
    "A redirect URI is an https URL, or an http URL of this machine, without a fragment."
message redirect_uri_mismatch = "The redirect URI is not one the client registered."
message admin_authentication_failed = "Authentication is required."
message capability_missing = "The caller is not allowed to do this."
message sign_in_failed = "The name or the password is wrong."
message hashing_busy = "The service is busy. Try again in a moment."
message authorization_request_expired =
    "This sign-in has expired. Start again from the application."
message sign_in_requests_too_frequent =
    "Too many sign-ins were started from here. Try again in a few minutes."
message session_required = "Sign in from an application first."
message authenticator_already_enrolled =
    "An authenticator application is already set up for this account."
message code_rejected = "The code is wrong, or was already used."
message second_factor_proof_required = "Sign in again with your second factor before you change it."
message key_rejected = "The security key was not accepted."
message security_keys_not_served =
    "This account needs a security key, and this service cannot use one. Ask an administrator."
message consent_not_found = "This person gave that client no consent."
message token_invalid = "The token is not valid."
message grant_invalid = "The grant is invalid, expired, or was already used."
message token_scope_insufficient = "The token was not granted what this asks."
message token_type_unsupported = "A token of this type cannot be revoked."
message tenant_name_invalid =
    "A tenant name is 1 to 120 characters, none of them a control character."
message role_name_invalid =
    "A role name is 1 to 64 letters, digits, dots, colons, hyphens or underscores."
message role_name_taken = "This role name is already taken."
message role_not_found = "No such role."
message group_name_invalid =
    "A group name is 1 to 64 letters, digits, dots, colons, hyphens or underscores."
message group_name_taken = "This group name is already taken."
message group_not_found = "No such group."
message role_text_invalid =
    "A description or a reason is at most 255 characters, none of them a control or a format character."
message grant_period_invalid =
    "A grant ends after it starts and after now, at instants written in RFC 3339."
message role_grant_not_found = "This role is not granted there."
message membership_not_found = "This person is not a member of this group."
message held_too_many = "This person holds more roles or groups than a token or a decision can say."
message relation_schema_invalid = "The schema of relations has faults."
message relation_invalid = "The schema of the realm does not admit this relation."
message relation_not_found = "No such relation."
message policy_invalid = "The policy cannot be read, or names what the realm does not have."
message policy_name_taken = "This policy name is already taken."
message policy_not_found = "No such policy."
message resource_type_taken =
    "A type of resource is decided by the schema of relations or by policies, never by both."
message named_by_policy = "A policy names this role or group: remove the policy first."
