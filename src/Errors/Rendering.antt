-- ===== src/Errors/Rendering.antt =====
-- What a refusal becomes on the administration plane: crates/server/src/error.rs.
use saffui.Base.{ℕ, String, List, [], ◌∷◌}
use saffui.Errors.{
  ErrorKind, is_invalid, is_unauthenticated, is_forbidden, is_not_found, is_conflict,
  is_unavailable, is_internal, Failure, number, kind,
}
use saffui.Errors.Slugs.{slug}
use saffui.Errors.Messages.{message}

abbrev pub choose_status : ErrorKind → ℕ
choose_status is_invalid = 400
choose_status is_unauthenticated = 401
choose_status is_forbidden = 403
choose_status is_not_found = 404
choose_status is_conflict = 409
choose_status is_unavailable = 503
choose_status is_internal = 500

pub record ErrorBody : Type 0 where
  pub code : String
  pub error_code : ℕ
  pub message : String

pub record Response : Type 0 where
  pub status : ℕ
  pub headers : List (String × String)
  pub body : ErrorBody

abbrev challenge : ErrorKind → List (String × String)
challenge is_unauthenticated = ("WWW-Authenticate", "Bearer") ∷ []
challenge _ = []

pub render_failure : Failure → Response
render_failure failure = record {
  status = choose_status (kind failure.code);
  headers = challenge (kind failure.code);
  body = record {
    code = slug failure.code;
    error_code = number failure.code;
    message = message failure.code;
  };
}
