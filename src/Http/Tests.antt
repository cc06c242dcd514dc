-- ===== src/Http/Tests.antt =====
-- The server through a token, an enrolment, a pull and a result.
use runlane.Prelude.{
  ◌≡◌, refl, String, false, Option, none, some, List, [], ◌∷◌, ◌==◌, ok, ◌>>=◌, if◌then◌else◌,
}
use runlane.Text.{format}
use runlane.Audit.{append, next_sequence}
use runlane.Protocol.{AgentTaskEnvelope, validate_agent_task_envelope}
use runlane.Runtime.{
  PendingAgentTask, ControlPlane, collect_evidence, empty_plane, append_event, enqueue_task,
  require_agent, check_envelope, reject_result,
}
use runlane.Runtime as Runtime
use runlane.Http.{
  HttpState, CreateEnrollmentTokenRequest, EnrollmentRequestDto, AgentIdentityResponse,
  PullTaskRequest, PullTaskResponse, AgentResultSubmissionDto, SpoolReplayRequest, envelope_dto,
  collect_evidence_dto, parse_operating_system,
}
use runlane.Http.Headers.{HeaderMap, required_header, identity_from_headers}
use runlane.Http.Handlers.{
  with_lock, create_enrollment_token, enroll_agent, pull_task, submit_result, replay_spool, Request,
  token_request, enroll_request, pull_request, serve_all,
}
use runlane.Http.Effects.{Follows, serve_all-Follows}
use runlane.Http.Identity.{Served, pull_task-Served, replay_spool-submit}

-- headers as pairs of a name and a text
abbrev header_at : List (String × String) → String → Option String
header_at [] name = none
header_at ((key, value) ∷ rest) name = if key == name then some value else header_at rest name

abbrev header_map : HeaderMap (List (String × String)) String
header_map = record { get = header_at; to_str = λ value. some value }

abbrev headers : List (String × String)
headers =
    ("x-runlane-node-id", "prod-web-01") ∷ ("x-runlane-certificate-fingerprint", "sha256:1") ∷ []

-- `{:?}` of a text without characters that are escaped
abbrev quoted : String → String
quoted s = format ("\"" ∷ s ∷ "\"" ∷ [])

abbrev token : CreateEnrollmentTokenRequest
token = record {
  token_id = "token-1";
  token = "secret";
  node_id = "prod-web-01";
  platform_family = "linux";
  server_trust_root = "root-1";
  expires_at_unix_seconds = 200;
  nonce = "nonce-0";
}

abbrev enrollment : EnrollmentRequestDto
enrollment = record {
  token = "secret";
  node_id = "prod-web-01";
  platform_family = "linux";
  certificate_fingerprint = "sha256:1";
  server_trust_root = "root-1";
  now_unix_seconds = 100;
}

abbrev pull : PullTaskRequest
pull = record {
  node_id = "prod-web-01";
  now_unix_seconds = 150;
  capability_report_version = none;
  last_seen_task_nonce = none;
}

abbrev envelope : AgentTaskEnvelope
envelope = record {
  envelope_id = "envelope-1";
  run_id = "run-1";
  task_id = "task-1";
  node_id = "prod-web-01";
  issued_at_unix_seconds = 100;
  expires_at_unix_seconds = 200;
  nonce = "nonce-1";
  required_capabilities = record { name = "logs.journald" } ∷ [];
  audit_correlation_id = "audit-1";
}

abbrev task : PendingAgentTask
task = record {
  envelope = envelope;
  payload = collect_evidence (record { name = "logs.journald" }) "system:node/prod-web-01";
}

abbrev empty_state : HttpState
empty_state = record { control_plane = empty_plane; poisoned = false }

abbrev issued : HttpState
issued = (create_enrollment_token quoted token empty_state).1

abbrev enrolled : HttpState
enrolled = (enroll_agent quoted enrollment issued).1

abbrev waiting : HttpState
waiting = record enrolled { control_plane = enqueue_task task enrolled.control_plane }

abbrev requests : List (Request (List (String × String)))
requests = token_request token ∷ enroll_request enrollment ∷ pull_request headers pull ∷ []

abbrev result : AgentResultSubmissionDto
result = record {
  envelope_id = "envelope-1";
  run_id = "run-1";
  task_id = "task-1";
  node_id = "prod-web-01";
  nonce = "nonce-1";
  status = "succeeded";
  now_unix_seconds = none;
  evidence = [];
  audit_correlation_id = "audit-1";
}

abbrev replay : SpoolReplayRequest
replay = record { spool_id = "spool-1"; reason = none; result = result; now_unix_seconds = 160 }

serve_all-Follows_example : Follows waiting (serve_all quoted header_map requests waiting) 3
serve_all-Follows_example = serve_all-Follows quoted header_map requests waiting

-- the task goes out
abbrev answer : PullTaskResponse
answer = record {
  envelope = envelope_dto envelope;
  payload = collect_evidence_dto "logs.journald" "system:node/prod-web-01";
}

abbrev pulled : HttpState
pulled = (pull_task quoted header_map headers pull waiting).1

pull_step : pull_task quoted header_map headers pull waiting ≡ (ok answer, pulled)
unfolding create_enrollment_token enroll_agent pull_task with_lock parse_operating_system
    required_header identity_from_headers Runtime.create_enrollment_token Runtime.enroll_agent
    enqueue_task require_agent check_envelope Runtime.pull_task append_event append next_sequence
    validate_agent_task_envelope
pull_step = refl

pull_task-Served_example : Served quoted header_map headers pull waiting answer
pull_task-Served_example =
    pull_task-Served quoted header_map headers pull waiting pulled answer pull_step

replay_spool-submit_example :
    let (answer, next) =
      submit_result quoted header_map headers
        (record result { now_unix_seconds = some 160 })
        pulled in
    replay_spool quoted header_map headers replay pulled
    ≡ (answer >>= λ _. ok (record { status = "accepted"; spool_id = "spool-1" }), next)
replay_spool-submit_example = replay_spool-submit quoted header_map headers replay pulled

abbrev identity_response : AgentIdentityResponse
identity_response = record {
  node_id = "prod-web-01";
  platform_family = "linux";
  certificate_fingerprint = "sha256:1";
  server_trust_root = "root-1";
}

enroll_step : enroll_agent quoted enrollment issued ≡ (ok identity_response, enrolled)
unfolding create_enrollment_token enroll_agent with_lock parse_operating_system
    Runtime.create_enrollment_token Runtime.enroll_agent append_event append next_sequence
enroll_step = refl
