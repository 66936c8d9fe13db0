-- ===== src/Oidc/Failures.antt =====
-- How a refusal is told to a client: crates/saffui-core/src/oidc/errors.rs.
use saffui.Base.{String}
use saffui.Errors.{
  ErrorKind, ErrorCode, Failure, kind, is_unavailable, is_internal, client_authentication_failed,
  realm_not_found, scope_invalid, scope_not_allowed, grant_not_allowed, grant_invalid,
  grant_type_unsupported, token_type_unsupported,
}

pub data OauthError : Type 0 where
  invalid_request : OauthError
  invalid_client : OauthError
  unauthorized_client : OauthError
  unsupported_grant_type : OauthError
  invalid_grant : OauthError
  invalid_scope : OauthError
  unsupported_response_type : OauthError
  login_required : OauthError
  consent_required : OauthError
  access_denied : OauthError
  unsupported_token_type : OauthError
  server_error : OauthError
  temporarily_unavailable : OauthError

abbrev pub error_name : OauthError → String
error_name invalid_request = "invalid_request"
error_name invalid_client = "invalid_client"
error_name unauthorized_client = "unauthorized_client"
error_name unsupported_grant_type = "unsupported_grant_type"
error_name invalid_grant = "invalid_grant"
error_name invalid_scope = "invalid_scope"
error_name unsupported_response_type = "unsupported_response_type"
error_name login_required = "login_required"
error_name consent_required = "consent_required"
error_name access_denied = "access_denied"
error_name unsupported_token_type = "unsupported_token_type"
error_name server_error = "server_error"
error_name temporarily_unavailable = "temporarily_unavailable"

abbrev error_of_kind : ErrorKind → OauthError
error_of_kind is_unavailable = temporarily_unavailable
error_of_kind is_internal = server_error
error_of_kind _ = invalid_request

-- `From<Failure>`.
unfoldable pub error_of_code : ErrorCode → OauthError
error_of_code client_authentication_failed = invalid_client
error_of_code realm_not_found = invalid_client
error_of_code scope_invalid = invalid_scope
error_of_code scope_not_allowed = invalid_scope
error_of_code grant_not_allowed = unauthorized_client
error_of_code grant_invalid = invalid_grant
error_of_code grant_type_unsupported = unsupported_grant_type
error_of_code token_type_unsupported = unsupported_token_type
error_of_code other = error_of_kind (kind other)

pub record OauthFailure : Type 0 where
  pub error : OauthError
  pub cause : Failure

unfoldable pub oauth_failure : Failure → OauthFailure
unfolding error_of_code
oauth_failure cause = record { error = error_of_code cause.code; cause = cause }
