-- ===== src/Errors.antt =====
-- The catalog of refusals: crates/saffui-core/src/error.rs, and the statuses that
-- crates/server/src/error.rs gives them.
pub mod Slugs
pub mod Messages
pub mod Numbers
pub mod Domains
pub mod Tests
pub mod Rendering
use saffui.Base.{ℕ, String, Option, none, some}
use saffui.Authz.Walk.{StorageUnavailable, StorageError, unavailable, taken, failed}

pub data ErrorKind : Type 0 where
  is_invalid : ErrorKind
  is_unauthenticated : ErrorKind
  is_forbidden : ErrorKind
  is_not_found : ErrorKind
  is_conflict : ErrorKind
  is_unavailable : ErrorKind
  is_internal : ErrorKind

pub data ErrorCode : Type 0 where
  internal : ErrorCode
  storage_unavailable : ErrorCode
  conflict : ErrorCode
  random_unavailable : ErrorCode
  crypto_unavailable : ErrorCode
  request_invalid : ErrorCode
  list_offset_too_large : ErrorCode
  realm_not_found : ErrorCode
  realm_name_invalid : ErrorCode
  realm_name_taken : ErrorCode
  username_invalid : ErrorCode
  username_taken : ErrorCode
  email_invalid : ErrorCode
  email_taken : ErrorCode
  display_name_invalid : ErrorCode
  password_unacceptable : ErrorCode
  person_not_found : ErrorCode
  authenticator_not_found : ErrorCode
  security_key_not_found : ErrorCode
  client_authentication_failed : ErrorCode
  client_identifier_invalid : ErrorCode
  client_identifier_taken : ErrorCode
  client_name_invalid : ErrorCode
  scope_invalid : ErrorCode
  scope_not_allowed : ErrorCode
  grant_not_allowed : ErrorCode
  grant_type_unsupported : ErrorCode
  client_not_found : ErrorCode
  capability_unknown : ErrorCode
  redirect_uri_invalid : ErrorCode
  redirect_uri_mismatch : ErrorCode
  admin_authentication_failed : ErrorCode
  capability_missing : ErrorCode
  sign_in_failed : ErrorCode
  hashing_busy : ErrorCode
  authorization_request_expired : ErrorCode
  sign_in_requests_too_frequent : ErrorCode
  session_required : ErrorCode
  authenticator_already_enrolled : ErrorCode
  code_rejected : ErrorCode
  second_factor_proof_required : ErrorCode
  key_rejected : ErrorCode
  security_keys_not_served : ErrorCode
  consent_not_found : ErrorCode
  token_invalid : ErrorCode
  grant_invalid : ErrorCode
  token_scope_insufficient : ErrorCode
  token_type_unsupported : ErrorCode
  tenant_name_invalid : ErrorCode
  role_name_invalid : ErrorCode
  role_name_taken : ErrorCode
  role_not_found : ErrorCode
  group_name_invalid : ErrorCode
  group_name_taken : ErrorCode
  group_not_found : ErrorCode
  role_text_invalid : ErrorCode
  grant_period_invalid : ErrorCode
  role_grant_not_found : ErrorCode
  membership_not_found : ErrorCode
  held_too_many : ErrorCode
  relation_schema_invalid : ErrorCode
  relation_invalid : ErrorCode
  relation_not_found : ErrorCode
  policy_invalid : ErrorCode
  policy_name_taken : ErrorCode
  policy_not_found : ErrorCode
  resource_type_taken : ErrorCode
  named_by_policy : ErrorCode

abbrev pub number : ErrorCode → ℕ
number internal = 1
number storage_unavailable = 2
number conflict = 3
number random_unavailable = 4
number crypto_unavailable = 5
number request_invalid = 6
number list_offset_too_large = 7
number realm_not_found = 100
number realm_name_invalid = 101
number realm_name_taken = 102
number username_invalid = 200
number username_taken = 201
number email_invalid = 202
number email_taken = 203
number display_name_invalid = 204
number password_unacceptable = 205
number person_not_found = 206
number authenticator_not_found = 207
number security_key_not_found = 208
number client_authentication_failed = 300
number client_identifier_invalid = 301
number client_identifier_taken = 302
number client_name_invalid = 303
number scope_invalid = 304
number scope_not_allowed = 305
number grant_not_allowed = 306
number grant_type_unsupported = 307
number client_not_found = 308
number capability_unknown = 309
number redirect_uri_invalid = 310
number redirect_uri_mismatch = 311
number admin_authentication_failed = 400
number capability_missing = 401
number sign_in_failed = 402
number hashing_busy = 403
number authorization_request_expired = 404
number sign_in_requests_too_frequent = 405
number session_required = 406
number authenticator_already_enrolled = 407
number code_rejected = 408
number second_factor_proof_required = 409
number key_rejected = 410
number security_keys_not_served = 411
number consent_not_found = 412
number token_invalid = 500
number grant_invalid = 501
number token_scope_insufficient = 502
number token_type_unsupported = 503
number tenant_name_invalid = 600
number role_name_invalid = 900
number role_name_taken = 901
number role_not_found = 902
number group_name_invalid = 903
number group_name_taken = 904
number group_not_found = 905
number role_text_invalid = 906
number grant_period_invalid = 907
number role_grant_not_found = 908
number membership_not_found = 909
number held_too_many = 918
number relation_schema_invalid = 910
number relation_invalid = 911
number relation_not_found = 912
number policy_invalid = 913
number policy_name_taken = 914
number policy_not_found = 915
number resource_type_taken = 916
number named_by_policy = 917

abbrev pub kind : ErrorCode → ErrorKind
kind internal = is_internal
kind storage_unavailable = is_unavailable
kind conflict = is_conflict
kind random_unavailable = is_internal
kind crypto_unavailable = is_internal
kind request_invalid = is_invalid
kind list_offset_too_large = is_invalid
kind realm_not_found = is_not_found
kind realm_name_invalid = is_invalid
kind realm_name_taken = is_conflict
kind username_invalid = is_invalid
kind username_taken = is_conflict
kind email_invalid = is_invalid
kind email_taken = is_conflict
kind display_name_invalid = is_invalid
kind password_unacceptable = is_invalid
kind person_not_found = is_not_found
kind authenticator_not_found = is_not_found
kind security_key_not_found = is_not_found
kind client_authentication_failed = is_unauthenticated
kind client_identifier_invalid = is_invalid
kind client_identifier_taken = is_conflict
kind client_name_invalid = is_invalid
kind scope_invalid = is_invalid
kind scope_not_allowed = is_invalid
kind grant_not_allowed = is_forbidden
kind grant_type_unsupported = is_invalid
kind client_not_found = is_not_found
kind capability_unknown = is_invalid
kind redirect_uri_invalid = is_invalid
kind redirect_uri_mismatch = is_invalid
kind admin_authentication_failed = is_unauthenticated
kind capability_missing = is_forbidden
kind sign_in_failed = is_unauthenticated
kind hashing_busy = is_unavailable
kind authorization_request_expired = is_invalid
kind sign_in_requests_too_frequent = is_unavailable
kind session_required = is_unauthenticated
kind authenticator_already_enrolled = is_conflict
kind code_rejected = is_unauthenticated
kind second_factor_proof_required = is_forbidden
kind key_rejected = is_unauthenticated
kind security_keys_not_served = is_forbidden
kind consent_not_found = is_not_found
kind token_invalid = is_unauthenticated
kind grant_invalid = is_invalid
kind token_scope_insufficient = is_forbidden
kind token_type_unsupported = is_invalid
kind tenant_name_invalid = is_invalid
kind role_name_invalid = is_invalid
kind role_name_taken = is_conflict
kind role_not_found = is_not_found
kind group_name_invalid = is_invalid
kind group_name_taken = is_conflict
kind group_not_found = is_not_found
kind role_text_invalid = is_invalid
kind grant_period_invalid = is_invalid
kind role_grant_not_found = is_not_found
kind membership_not_found = is_not_found
kind held_too_many = is_conflict
kind relation_schema_invalid = is_invalid
kind relation_invalid = is_invalid
kind relation_not_found = is_not_found
kind policy_invalid = is_invalid
kind policy_name_taken = is_conflict
kind policy_not_found = is_not_found
kind resource_type_taken = is_conflict
kind named_by_policy = is_conflict

pub record Failure : Type 0 where
  pub code : ErrorCode
  pub detail : Option String

-- `From<StorageError>`; the detail of an unavailable storage is what `thiserror` prints of it.
pub from_storage : (StorageUnavailable → String) → StorageError → Failure
from_storage reason (unavailable why) = record {
  code = storage_unavailable;
  detail = some (reason why);
}
from_storage reason (taken what) = record { code = conflict; detail = some what }
from_storage reason failed = record { code = internal; detail = none }
