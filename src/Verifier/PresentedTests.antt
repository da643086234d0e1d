-- ===== src/Verifier/PresentedTests.antt =====
-- A response with an SD-JWT presentation, through internal/verifier and internal/sdjwtverify.
use fikua_lab_idp.Prelude.{◌*◌, String, none, some, [], ◌∷◌, second}
use fikua_lab_idp.Json.{text}
use fikua_lab_idp.Action.{err}
use fikua_lab_idp.Session.Types.{DcqlCredentialQuery}
use fikua_lab_idp.Verifier.Types.{Service, ResponseRequest, VpResult, success_result}
use fikua_lab_idp.SdJwt.Tests.{library}
use fikua_lab_idp.Verifier.Presented.{MdocVerify, presentations_at}
use fikua_lab_idp.Verifier.Examples.{svc}

abbrev no_mdoc : MdocVerify
no_mdoc token doc_type client_id nonce thumbprint response_uri = err "mdoc"

abbrev wired_svc : Service String
wired_svc = record svc { presentations = presentations_at library no_mdoc (2 * second) }

abbrev response : ResponseRequest
response = record { vp_token = ""; state = ""; response = "issuer~d1~kb" }

abbrev presented_name : VpResult
presented_name = success_result (("given_name", text "Ana") ∷ [])

abbrev query : DcqlCredentialQuery
query = record {
  id = "pid";
  format = "dc+sd-jwt";
  meta = some (record { vct_values = "urn:pid" ∷ []; doctype_value = "" });
  claims = record { path = "given_name" ∷ []; values = []; essential = none } ∷ [];
}
