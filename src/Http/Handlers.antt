-- ===== src/Http/Handlers.antt =====
-- The handlers of the server's routes, crates/runlane-server/src/http.rs. A handler that returns an
-- error before it has the lock leaves the state alone, as the `?` operator does there.
use runlane.Prelude.{String, not, List, [], ◌∷◌, ◌==◌, err, ok_or, map_err, if◌then◌else◌}
use runlane.Prelude.Action.{Action, ◌>>=◌, ◌>>◌, pure, lift, reject_if}
use runlane.Runtime.{ControlPlane, RuntimeError}
use runlane.Runtime as Runtime
use runlane.Http.{
  HttpState, CreateEnrollmentTokenRequest, CreateEnrollmentTokenResponse, EnrollmentRequestDto,
  AgentIdentityResponse, PullTaskRequest, PullTaskResponse, AgentResultSubmissionDto,
  AgentResultResponse, SpoolReplayRequest, SpoolReplayResponse, HttpApiError, api_error,
  bad_request, forbidden, internal_server_error, envelope_dto, payload_dto, format_operating_system,
  result_response, runtime_error, parse_operating_system, into_core,
}
use runlane.Http.Headers.{HeaderMap, identity_from_headers}

-- `HttpState::lock`, and a call on the control plane that it guards
unfoldable pub with_lock :
    {A : Type 0} → Action ControlPlane RuntimeError A → Action HttpState HttpApiError A
with_lock call state =
    if state.poisoned
    then (
      err (
          api_error internal_server_error "control_plane_lock_poisoned"
            "control plane state lock is poisoned"),
      state,
    )
    else let (answer, plane) = call state.control_plane in
      (map_err runtime_error answer, record state { control_plane = plane })

-- a request of a route of `router`, with its decoded body
pub data Request (Headers : Type 0) : Type 0 where
  token_request : CreateEnrollmentTokenRequest → Request Headers
  enroll_request : EnrollmentRequestDto → Request Headers
  pull_request : Headers → PullTaskRequest → Request Headers
  result_request : Headers → AgentResultSubmissionDto → Request Headers
  replay_request : Headers → SpoolReplayRequest → Request Headers

module _ (debug_str : String → String) where
  unfoldable pub create_enrollment_token :
      CreateEnrollmentTokenRequest → Action HttpState HttpApiError CreateEnrollmentTokenResponse
  create_enrollment_token request = do
    os ← lift (parse_operating_system debug_str request.platform_family)
    with_lock (
        Runtime.create_enrollment_token (record {
          token_id = request.token_id;
          token = request.token;
          node_id = request.node_id;
          os = os;
          server_trust_root = request.server_trust_root;
          expires_at_unix_seconds = request.expires_at_unix_seconds;
          nonce = request.nonce;
        }))
    pure (record { status = "created"; token_id = request.token_id; node_id = request.node_id })

  unfoldable pub enroll_agent :
      EnrollmentRequestDto → Action HttpState HttpApiError AgentIdentityResponse
  enroll_agent request = do
    os ← lift (parse_operating_system debug_str request.platform_family)
    identity ← with_lock (
        Runtime.enroll_agent (record {
          token = request.token;
          node_id = request.node_id;
          os = os;
          certificate_fingerprint = request.certificate_fingerprint;
          server_trust_root = request.server_trust_root;
          now_unix_seconds = request.now_unix_seconds;
        }))
    pure (record {
      node_id = identity.node_id;
      platform_family = format_operating_system identity.os;
      certificate_fingerprint = identity.certificate_fingerprint;
      server_trust_root = identity.server_trust_root;
    })

  module _ {Headers Value : Type 0} (map : HeaderMap Headers Value) where
    unfoldable pub pull_task :
        Headers → PullTaskRequest → Action HttpState HttpApiError PullTaskResponse
    pull_task headers request = do
      identity ← lift (identity_from_headers map headers)
      reject_if (not (identity.node_id == request.node_id)) (
          api_error forbidden "identity_node_mismatch"
            "request node_id does not match extracted agent identity")
      pulled ← with_lock (Runtime.pull_task identity request.now_unix_seconds)
      pure
          (record { envelope = envelope_dto pulled.envelope; payload = payload_dto pulled.payload })

    unfoldable pub submit_result :
        Headers → AgentResultSubmissionDto → Action HttpState HttpApiError AgentResultResponse
    submit_result headers request = do
      identity ← lift (identity_from_headers map headers)
      now ← lift (
          ok_or request.now_unix_seconds (
            api_error bad_request "missing_result_time"
              "result submission requires now_unix_seconds"))
      result ← lift (into_core debug_str request)
      with_lock (Runtime.submit_result identity result now)
      pure (result_response "accepted" request)

    unfoldable pub replay_spool :
        Headers → SpoolReplayRequest → Action HttpState HttpApiError SpoolReplayResponse
    replay_spool headers request = do
      identity ← lift (identity_from_headers map headers)
      result ← lift (into_core debug_str request.result)
      with_lock (Runtime.submit_result identity result request.now_unix_seconds)
      pure (record { status = "accepted"; spool_id = request.spool_id })

    -- `router`, as the state after a request and the error that it is answered with, if any
    unfoldable pub serve : Request Headers → Action HttpState HttpApiError Unit
    serve (token_request request) = create_enrollment_token request >> pure tt
    serve (enroll_request request) = enroll_agent request >> pure tt
    serve (pull_request headers request) = pull_task headers request >> pure tt
    serve (result_request headers request) = submit_result headers request >> pure tt
    serve (replay_request headers request) = replay_spool headers request >> pure tt

    -- the state after requests, one after the other as the lock lets them
    unfoldable pub serve_all : List (Request Headers) → HttpState → HttpState
    serve_all [] state = state
    serve_all (request ∷ requests) state = serve_all requests (serve request state).1
