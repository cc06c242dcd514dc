-- ===== src/Http.antt =====
-- The HTTP layer of the server over the control plane, crates/runlane-server/src/http.rs: the bodies
-- of requests and responses, and errors. The framework that decodes bodies and serves the routes is
-- not in the repository.
pub mod Headers
pub mod Handlers
pub mod Platforms
pub mod Effects
pub mod Identity
mod Tests
use runlane.Prelude.{
  ℕ, String, Bool, Option, List, [], ◌∷◌, map, ◌==◌, Result, ok, err, ◌>>=◌, if◌then◌else◌,
}
use runlane.Prelude.Action.{Action}
use runlane.Text.{format, show_u64}
use runlane.Domain.{
  Capability, EvidenceEnvelope, OperatingSystem, linux, free_bsd, open_bsd, solaris, illumos,
  unknown,
}
use runlane.Audit.{AuditAppendError, non_monotonic_sequence}
use runlane.Protocol.{
  AgentTaskEnvelope, debug_rejection, AgentResultStatus, succeeded, failed, AgentResultSubmission,
}
use runlane.Runtime.{
  TypedTaskPayload, collect_evidence, execute_typed_helper_request, verify, RuntimeError,
  expired_enrollment_token, enrollment_token_mismatch, enrollment_node_mismatch,
  enrollment_os_mismatch, enrollment_trust_root_mismatch, unknown_agent, agent_identity_mismatch,
  no_task_available, task_envelope_rejected, unknown_envelope, result_envelope_mismatch,
  result_task_mismatch, result_run_mismatch, result_node_mismatch, result_expired,
  result_nonce_replay, audit_append, ControlPlane,
}

-- the control plane in its mutex, which is poisoned once a thread panics with the lock
pub record HttpState : Type 0 where
  pub control_plane : ControlPlane
  pub poisoned : Bool

pub record CreateEnrollmentTokenRequest : Type 0 where
  pub token_id : String
  pub token : String
  pub node_id : String
  pub platform_family : String
  pub server_trust_root : String
  pub expires_at_unix_seconds : ℕ
  pub nonce : String

pub record CreateEnrollmentTokenResponse : Type 0 where
  pub status : String
  pub token_id : String
  pub node_id : String

pub record EnrollmentRequestDto : Type 0 where
  pub token : String
  pub node_id : String
  pub platform_family : String
  pub certificate_fingerprint : String
  pub server_trust_root : String
  pub now_unix_seconds : ℕ

pub record AgentIdentityResponse : Type 0 where
  pub node_id : String
  pub platform_family : String
  pub certificate_fingerprint : String
  pub server_trust_root : String

pub record PullTaskRequest : Type 0 where
  pub node_id : String
  pub now_unix_seconds : ℕ
  pub capability_report_version : Option String
  pub last_seen_task_nonce : Option String

pub record AgentTaskEnvelopeDto : Type 0 where
  pub envelope_id : String
  pub run_id : String
  pub task_id : String
  pub node_id : String
  pub issued_at_unix_seconds : ℕ
  pub expires_at_unix_seconds : ℕ
  pub nonce : String
  pub required_capabilities : List String
  pub audit_correlation_id : String

pub data TypedTaskPayloadDto : Type 0 where
  -- capability, resource id
  collect_evidence_dto : String → String → TypedTaskPayloadDto
  -- action, target resource id
  execute_typed_helper_request_dto : String → String → TypedTaskPayloadDto
  -- check id, resource id
  verify_dto : String → String → TypedTaskPayloadDto

pub record PullTaskResponse : Type 0 where
  pub envelope : AgentTaskEnvelopeDto
  pub payload : TypedTaskPayloadDto

pub record EvidenceDto : Type 0 where
  pub source : String
  pub content_type : String
  pub body : String
  pub truncated : Bool

pub record AgentResultSubmissionDto : Type 0 where
  pub envelope_id : String
  pub run_id : String
  pub task_id : String
  pub node_id : String
  pub nonce : String
  pub status : String
  pub now_unix_seconds : Option ℕ
  pub evidence : List EvidenceDto
  pub audit_correlation_id : String

pub record AgentResultResponse : Type 0 where
  pub status : String
  pub envelope_id : String
  pub task_id : String
  pub node_id : String

pub record SpoolReplayRequest : Type 0 where
  pub spool_id : String
  pub reason : Option String
  pub result : AgentResultSubmissionDto
  pub now_unix_seconds : ℕ

pub record SpoolReplayResponse : Type 0 where
  pub status : String
  pub spool_id : String

-- the constants of `StatusCode` that are used
pub data StatusCode : Type 0 where
  bad_request unauthorized forbidden not_found conflict internal_server_error : StatusCode

pub record HttpApiError : Type 0 where
  pub status : StatusCode
  pub kind : String
  pub message : String

-- `HttpApiError::new`, and with a status `bad_request`, `unauthorized` and `conflict`
abbrev pub api_error : StatusCode → String → String → HttpApiError
api_error status kind message = record { status = status; kind = kind; message = message }

-- `From<EvidenceDto> for EvidenceEnvelope`
abbrev pub evidence_of : EvidenceDto → EvidenceEnvelope
evidence_of value = record {
  source = value.source;
  content_type = value.content_type;
  body = value.body;
  truncated = value.truncated;
}

-- `From<AgentTaskEnvelope> for AgentTaskEnvelopeDto`
abbrev pub envelope_dto : AgentTaskEnvelope → AgentTaskEnvelopeDto
envelope_dto value = record {
  envelope_id = value.envelope_id;
  run_id = value.run_id;
  task_id = value.task_id;
  node_id = value.node_id;
  issued_at_unix_seconds = value.issued_at_unix_seconds;
  expires_at_unix_seconds = value.expires_at_unix_seconds;
  nonce = value.nonce;
  required_capabilities = map (λ capability. capability.name) value.required_capabilities;
  audit_correlation_id = value.audit_correlation_id;
}

-- `From<TypedTaskPayload> for TypedTaskPayloadDto`
abbrev pub payload_dto : TypedTaskPayload → TypedTaskPayloadDto
payload_dto (collect_evidence capability resource_id) =
    collect_evidence_dto capability.name resource_id
payload_dto (execute_typed_helper_request action target) =
    execute_typed_helper_request_dto action target
payload_dto (verify check_id resource_id) = verify_dto check_id resource_id

abbrev pub format_operating_system : OperatingSystem → String
format_operating_system linux = "linux"
format_operating_system free_bsd = "freebsd"
format_operating_system open_bsd = "openbsd"
format_operating_system solaris = "solaris"
format_operating_system illumos = "illumos"
format_operating_system unknown = "unknown"

abbrev pub result_response : String → AgentResultSubmissionDto → AgentResultResponse
result_response status request = record {
  status = status;
  envelope_id = request.envelope_id;
  task_id = request.task_id;
  node_id = request.node_id;
}

-- the submission of a body whose status is read
abbrev pub submission_of : AgentResultSubmissionDto → AgentResultStatus → AgentResultSubmission
submission_of dto status = record {
  envelope_id = dto.envelope_id;
  run_id = dto.run_id;
  task_id = dto.task_id;
  node_id = dto.node_id;
  nonce = dto.nonce;
  status = status;
  evidence = map evidence_of dto.evidence;
  audit_correlation_id = dto.audit_correlation_id;
}

-- the derived `Debug` of the errors that are answered with a conflict
abbrev pub debug_runtime_error : RuntimeError → String
debug_runtime_error expired_enrollment_token = "ExpiredEnrollmentToken"
debug_runtime_error enrollment_token_mismatch = "EnrollmentTokenMismatch"
debug_runtime_error enrollment_node_mismatch = "EnrollmentNodeMismatch"
debug_runtime_error enrollment_os_mismatch = "EnrollmentOsMismatch"
debug_runtime_error enrollment_trust_root_mismatch = "EnrollmentTrustRootMismatch"
debug_runtime_error (task_envelope_rejected rejection) =
    format ("TaskEnvelopeRejected(" ∷ debug_rejection rejection ∷ ")" ∷ [])
debug_runtime_error unknown_envelope = "UnknownEnvelope"
debug_runtime_error result_envelope_mismatch = "ResultEnvelopeMismatch"
debug_runtime_error result_task_mismatch = "ResultTaskMismatch"
debug_runtime_error result_run_mismatch = "ResultRunMismatch"
debug_runtime_error result_node_mismatch = "ResultNodeMismatch"
debug_runtime_error result_expired = "ResultExpired"
debug_runtime_error result_nonce_replay = "ResultNonceReplay"
debug_runtime_error unknown_agent = "UnknownAgent"
debug_runtime_error agent_identity_mismatch = "AgentIdentityMismatch"
debug_runtime_error no_task_available = "NoTaskAvailable"
debug_runtime_error (audit_append (non_monotonic_sequence expected actual)) = format (
    "AuditAppend(NonMonotonicSequence { expected: "
    ∷ show_u64 expected
    ∷ ", actual: "
    ∷ show_u64 actual
    ∷ " })"
    ∷ [])

abbrev debug_append_error : AuditAppendError → String
debug_append_error (non_monotonic_sequence expected actual) = format (
    "NonMonotonicSequence { expected: "
    ∷ show_u64 expected
    ∷ ", actual: "
    ∷ show_u64 actual
    ∷ " }"
    ∷ [])

unfoldable pub runtime_error : RuntimeError → HttpApiError
runtime_error unknown_agent =
    api_error unauthorized "unknown_agent" "agent identity is not enrolled"
runtime_error agent_identity_mismatch =
    api_error forbidden "agent_identity_mismatch"
      "certificate fingerprint does not match enrolled agent identity"
runtime_error no_task_available = api_error not_found "no_task_available" "no task available"
runtime_error (audit_append error) =
    api_error internal_server_error "audit_append_failed" (debug_append_error error)
runtime_error other = api_error conflict "control_plane_rejected" (debug_runtime_error other)

-- `{:?}` of a text, as in the other modules, is a parameter
module _ (debug_str : String → String) where
  unfoldable pub parse_operating_system : String → Result HttpApiError OperatingSystem
  parse_operating_system value =
      if value == "linux"
      then ok linux
      else if value == "freebsd"
      then ok free_bsd
      else if value == "openbsd"
      then ok open_bsd
      else err (
          api_error bad_request "invalid_platform_family"
            (format ("unsupported platform_family " ∷ debug_str value ∷ [])))

  unfoldable pub parse_result_status : String → Result HttpApiError AgentResultStatus
  parse_result_status value =
      if value == "succeeded"
      then ok succeeded
      else if value == "failed"
      then ok failed
      else err (
          api_error bad_request "invalid_result_status"
            (format ("unsupported result status " ∷ debug_str value ∷ [])))

  -- `AgentResultSubmissionDto::into_core`
  unfoldable pub into_core : AgentResultSubmissionDto → Result HttpApiError AgentResultSubmission
  into_core dto = parse_result_status dto.status >>= λ status. ok (submission_of dto status)
