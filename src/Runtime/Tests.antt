-- ===== src/Runtime/Tests.antt =====
-- The control plane through an enrolment, a pull and a result.
use runlane.Prelude.{
  ◌≤◌, length, ok, ◌↔◌, ◌⊎◌, some, arith, ◌≡◌, ◌≢◌, String, refl, List, [], ◌∷◌, ◌++◌, err,
}
use runlane.Domain.{AgentIdentity, linux}
use runlane.Audit.{agent_task_rejected, append, next_sequence}
use runlane.Protocol.{
  AgentTaskEnvelope, AgentResultSubmission, succeeded, expired_envelope,
  validate_agent_task_envelope,
}
use runlane.Runtime.{
  RuntimeError, EnrollmentToken, AgentEnrollmentRequest, PendingAgentTask, collect_evidence,
  ControlPlane, empty_plane, enrolled, append_event, create_enrollment_token, enroll_agent,
  enqueue_task, require_agent, check_envelope, pull_task, reject_result, submit_result,
  task_envelope_rejected,
}
use runlane.Runtime.Steps.{
  Call, create_token_call, enroll_call, enqueue_call, pull_call, submit_call, after, after_all,
}
use runlane.Runtime.Events.{noted}
use runlane.Runtime.Enroll.{with_agent, Honours, enroll_agent_iff}
use runlane.Runtime.Pull.{queue_of, pull_task-fifo}
use runlane.Runtime.Bounds.{after_all-length-le}
use runlane.Runtime.Starvation.{IsNext, pull_task-starved}
use runlane.Runtime.Submit.{Authentic, submit_result_iff}
use runlane.Runtime.Invariant.{Sound, after_all-Sound, empty-Sound, after_all-require_agent}

abbrev token : EnrollmentToken
token = record {
  token_id = "token-1";
  token = "secret";
  node_id = "prod-web-01";
  os = linux;
  server_trust_root = "root-1";
  expires_at_unix_seconds = 200;
  nonce = "nonce-0";
}

abbrev request : AgentEnrollmentRequest
request = record {
  token = "secret";
  node_id = "prod-web-01";
  os = linux;
  certificate_fingerprint = "sha256:1";
  server_trust_root = "root-1";
  now_unix_seconds = 100;
}

abbrev identity : AgentIdentity
identity = record { node_id = "prod-web-01"; certificate_fingerprint = "sha256:1" }

abbrev envelope : AgentTaskEnvelope
envelope = record {
  envelope_id = "envelope-1";
  run_id = "run-1";
  task_id = "task-1";
  node_id = "prod-web-01";
  issued_at_unix_seconds = 100;
  expires_at_unix_seconds = 200;
  nonce = "nonce-1";
  required_capabilities = [];
  audit_correlation_id = "audit-1";
}

abbrev task : PendingAgentTask
task = record {
  envelope = envelope;
  payload = collect_evidence (record { name = "logs.journald" }) "system:node/prod-web-01";
}

abbrev submission : AgentResultSubmission
submission = record {
  envelope_id = "envelope-1";
  run_id = "run-1";
  task_id = "task-1";
  node_id = "prod-web-01";
  nonce = "nonce-1";
  status = succeeded;
  evidence = [];
  audit_correlation_id = "audit-1";
}

abbrev setup_calls : List Call
setup_calls = create_token_call token ∷ enroll_call request ∷ enqueue_call task ∷ []

abbrev waiting : ControlPlane
waiting = after_all setup_calls empty_plane

abbrev pulled : ControlPlane
pulled = after (pull_call identity 150) waiting

abbrev all_calls : List Call
all_calls = setup_calls ++ pull_call identity 150 ∷ submit_call identity submission 160 ∷ []

after_all-Sound_example : Sound (after_all all_calls empty_plane)
after_all-Sound_example = after_all-Sound all_calls empty_plane empty-Sound

-- the result is accepted at the end
accepted_test : (after_all all_calls empty_plane).accepted_results ≡ submission ∷ []
unfolding after_all after create_enrollment_token enroll_agent enqueue_task require_agent
    check_envelope pull_task reject_result submit_result append_event append next_sequence
    validate_agent_task_envelope
accepted_test = refl

-- the enrolment with another certificate comes later
abbrev late_calls : List Call
late_calls =
    enroll_call (record request { certificate_fingerprint = "sha256:2" })
    ∷ pull_call identity 150
    ∷ []

after_all-require_agent_example :
    (require_agent identity (after_all late_calls waiting)).0 ≡ (require_agent identity waiting).0
unfolding after_all after create_enrollment_token enroll_agent enqueue_task require_agent
    append_event append next_sequence
after_all-require_agent_example =
    after_all-require_agent identity late_calls waiting (λ unknown. ground arith)

submit_result_iff_example : Authentic identity submission 160 pulled
unfolding after_all after create_enrollment_token enroll_agent enqueue_task require_agent
    check_envelope pull_task reject_result submit_result append_event append next_sequence
    validate_agent_task_envelope
submit_result_iff_example = (submit_result_iff identity submission 160 pulled).0 refl

pull_task-fifo_example :
    (queue_of "prod-web-01" waiting ≡ task ∷ queue_of "prod-web-01" pulled)
    × (pulled.pulled_tasks ≡ waiting.pulled_tasks ++ task ∷ [])
    × ((other : String) → other ≢ "prod-web-01" → queue_of other pulled ≡ queue_of other waiting)
unfolding after_all after create_enrollment_token enroll_agent enqueue_task require_agent
    check_envelope pull_task reject_result submit_result append_event append next_sequence
    validate_agent_task_envelope
pull_task-fifo_example =
    pull_task-fifo identity 150 waiting pulled
      (record { envelope = envelope; payload = task.payload }) refl

-- another task is queued behind the expired one, and the node is enrolled again
abbrev starving_calls : List Call
starving_calls =
    enqueue_call task ∷ enroll_call request ∷ pull_call identity 210 ∷ enqueue_call task ∷ []

pull_task-starved_example :
    IsNext "prod-web-01" task (after_all starving_calls waiting)
    × (pull_task identity 250 (after_all starving_calls waiting) ≡ (
      err (task_envelope_rejected expired_envelope),
      noted
          (some (agent_task_rejected "prod-web-01" "ExpiredEnvelope"))
          (after_all starving_calls waiting),
    ))
unfolding after_all after create_enrollment_token enroll_agent enqueue_task require_agent
    append_event append next_sequence
pull_task-starved_example =
    pull_task-starved identity 250 task starving_calls waiting refl refl
      (refl, (refl, (refl, (refl, tt)))) (omega arith)

-- the control plane that has issued the token and enrolled nobody
abbrev issued : ControlPlane
issued = after (create_token_call token) empty_plane

enroll_agent_iff_example :
    ((enroll_agent request issued ≡ (ok (enrolled request), with_agent request issued))
      ↔ ((found : EnrollmentToken) × Honours request issued found))
    × ((enroll_agent request issued ≡ (ok (enrolled request), with_agent request issued))
        ⊎ ((e : RuntimeError) × (enroll_agent request issued ≡ (err e, issued))))
enroll_agent_iff_example = enroll_agent_iff request issued

enroll_agent_test : enroll_agent request issued ≡ (ok (enrolled request), with_agent request issued)
unfolding after create_enrollment_token append_event append next_sequence
enroll_agent_test = (enroll_agent_iff request issued).0.1 (
  token,
  record {
    issued = refl;
    current = omega arith;
    same_node = refl;
    same_os = refl;
    same_root = refl;
  },
)

after_all-length-le_example :
    (length (after_all all_calls empty_plane).accepted_results
      ≤ length (after_all all_calls empty_plane).pulled_tasks)
    × (length (after_all all_calls empty_plane).pulled_tasks ≤ 1)
after_all-length-le_example = after_all-length-le all_calls
