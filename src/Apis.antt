-- ===== src/Apis.antt =====
-- The interfaces to other services that modules call: runtime/plaid/src/apis.
pub mod Network
pub mod Web
use plaid.Base.{String}

-- `WebError` of runtime/plaid/src/apis/web/mod.rs
pub data WebError : Type 0 where
  module_unauthorized_to_use_key failed_to_encode_jwt : WebError
  unsupported_header_field bad_request unsupported_field : WebError
  unsupported_key_type failed_to_parse_private_key enforced_claims_conflict : WebError

-- `ApiError` of runtime/plaid/src/apis/mod.rs; `service_error` stands for the errors of the
-- services that are not modelled.
pub data ApiError : Type 0 where
  bad_request impossible_error test_mode network_response_too_large : ApiError
  network_error configuration_error : ApiError
  missing_parameter tls_error service_error : String → ApiError
  web_error : WebError → ApiError
