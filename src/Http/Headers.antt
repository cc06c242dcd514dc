-- ===== src/Http/Headers.antt =====
-- The identity headers of a request: `identity_from_headers` and `required_header` in
-- crates/runlane-server/src/http.rs. The header map of the framework is a parameter.
use runlane.Prelude.{String, Option, [], ◌∷◌, Result, ok, ◌>>=◌, ok_or}
use runlane.Text.{format}
use runlane.Domain.{AgentIdentity}
use runlane.Http.{HttpApiError, api_error, bad_request, unauthorized}

pub record HeaderMap (Headers Value : Type 0) : Type 0 where
  -- `headers.get(name)`
  pub get : Headers → String → Option Value
  -- `value.to_str().ok()`
  pub to_str : Value → Option String

module _ {Headers Value : Type 0} (map : HeaderMap Headers Value) where
  unfoldable pub required_header : Headers → String → Result HttpApiError String
  required_header headers name = do
    value ← ok_or (map.get headers name) (
        api_error unauthorized "missing_identity"
          (format ("missing required identity header " ∷ name ∷ [])))
    ok_or (map.to_str value) (
        api_error bad_request "invalid_identity_header"
          (format ("identity header " ∷ name ∷ " is not valid UTF-8" ∷ [])))

  unfoldable pub identity_from_headers : Headers → Result HttpApiError AgentIdentity
  identity_from_headers headers = do
    node_id ← required_header headers "x-runlane-node-id"
    fingerprint ← required_header headers "x-runlane-certificate-fingerprint"
    ok (record { node_id = node_id; certificate_fingerprint = fingerprint })
