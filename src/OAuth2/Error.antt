-- ===== src/OAuth2/Error.antt =====
-- internal/oauth2/error.go.
use fikua_lab_idp.Prelude.{ℕ, String}

abbrev pub invalid_request : String
invalid_request = "invalid_request"

abbrev pub invalid_grant : String
invalid_grant = "invalid_grant"

abbrev pub invalid_client : String
invalid_client = "invalid_client"

abbrev pub invalid_client_attestation : String
invalid_client_attestation = "invalid_client_attestation"

abbrev pub unsupported_response_type : String
unsupported_response_type = "unsupported_response_type"

pub record OAuthError : Type 0 where
  pub code : String
  pub description : String

pub record Exception : Type 0 where
  pub http_status : ℕ
  pub err : OAuthError

abbrev pub bad_request : String → String → Exception
bad_request code description = record {
  http_status = 400;
  err = record { code = code; description = description };
}

abbrev pub not_found : String → String → Exception
not_found code description = record {
  http_status = 404;
  err = record { code = code; description = description };
}

abbrev pub unauthorized : String → String → Exception
unauthorized code description = record {
  http_status = 401;
  err = record { code = code; description = description };
}

abbrev pub service_unavailable : String → String → Exception
service_unavailable code description = record {
  http_status = 503;
  err = record { code = code; description = description };
}
