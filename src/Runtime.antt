-- ===== src/Runtime.antt =====
-- The control plane: crates/runlane-core/src/runtime.rs.
pub mod Events
pub mod Pull
pub mod Submit
pub mod Enroll
pub mod Steps
pub mod Invariant
pub mod Starvation
pub mod Bounds
mod Tests
use runlane.Prelude.{
  ℕ, String, Bool, true, false, not, Option, none, some, List, [], ◌∷◌, ◌++◌, any, find,
  remove_first, leb, ◌==◌, Result, ok, err, ok_or, map_err, if◌then◌else◌,
}
use runlane.Prelude.Action.{Action, ◌>>=◌, ◌>>◌, pure, lift, gets, modify, reject_if}
use runlane.Domain.{AgentIdentity, Capability, OperatingSystem, os_eq}
use runlane.Protocol.{
  AgentTaskEnvelope, AgentTaskRejection, debug_rejection, AgentResultSubmission, LocalSpoolItem,
  validate_agent_task_envelope,
}
use runlane.Audit.{
  AuditLedger, empty_ledger, AuditAppendError, AuditEventKind, enrollment_token_created,
  agent_enrolled, agent_task_pulled, agent_task_rejected, agent_result_accepted,
  agent_result_rejected, agent_result_spooled, append, next_event,
}

pub record EnrollmentToken : Type 0 where
  pub token_id : String
  pub token : String
  pub node_id : String
  pub os : OperatingSystem
  pub server_trust_root : String
  pub expires_at_unix_seconds : ℕ
  pub nonce : String

pub record AgentEnrollmentRequest : Type 0 where
  pub token : String
  pub node_id : String
  pub os : OperatingSystem
  pub certificate_fingerprint : String
  pub server_trust_root : String
  pub now_unix_seconds : ℕ

pub record AgentIdentityRecord : Type 0 where
  pub node_id : String
  pub os : OperatingSystem
  pub certificate_fingerprint : String
  pub server_trust_root : String

pub data TypedTaskPayload : Type 0 where
  -- capability, resource id
  collect_evidence : Capability → String → TypedTaskPayload
  -- action, target resource id
  execute_typed_helper_request : String → String → TypedTaskPayload
  -- check id, resource id
  verify : String → String → TypedTaskPayload

pub record PendingAgentTask : Type 0 where
  pub envelope : AgentTaskEnvelope
  pub payload : TypedTaskPayload

-- `PulledAgentTask`, which has the fields of `PendingAgentTask`
pub record PulledAgentTask : Type 0 where
  pub envelope : AgentTaskEnvelope
  pub payload : TypedTaskPayload

pub data RuntimeError : Type 0 where
  expired_enrollment_token enrollment_token_mismatch enrollment_node_mismatch : RuntimeError
  enrollment_os_mismatch enrollment_trust_root_mismatch : RuntimeError
  unknown_agent agent_identity_mismatch no_task_available : RuntimeError
  task_envelope_rejected : AgentTaskRejection → RuntimeError
  unknown_envelope result_envelope_mismatch result_task_mismatch : RuntimeError
  result_run_mismatch result_node_mismatch result_expired result_nonce_replay : RuntimeError
  audit_append : AuditAppendError → RuntimeError

pub record ControlPlane : Type 0 where
  pub enrollment_tokens : List EnrollmentToken
  pub agents : List AgentIdentityRecord
  pub pending_tasks : List PendingAgentTask
  pub pulled_tasks : List PendingAgentTask
  pub accepted_result_nonces : List String
  pub accepted_results : List AgentResultSubmission
  pub spooled_results : List LocalSpoolItem
  pub ledger : AuditLedger

-- `ControlPlane::empty`
abbrev pub empty_plane : ControlPlane
empty_plane = record {
  enrollment_tokens = [];
  agents = [];
  pending_tasks = [];
  pulled_tasks = [];
  accepted_result_nonces = [];
  accepted_results = [];
  spooled_results = [];
  ledger = empty_ledger;
}

unfoldable pub append_event : AuditEventKind → Action ControlPlane RuntimeError Unit
append_event kind plane =
    let (done, ledger) =
      append (next_event "runtime-event-" "runtime" kind plane.ledger) plane.ledger in
    (map_err audit_append done, record plane { ledger = ledger })

unfoldable pub create_enrollment_token : EnrollmentToken → Action ControlPlane RuntimeError Unit
create_enrollment_token token = do
  append_event (enrollment_token_created token.token_id token.node_id)
  modify (λ plane. record plane { enrollment_tokens = plane.enrollment_tokens ++ token ∷ [] })

abbrev pub enrolled : AgentEnrollmentRequest → AgentIdentityRecord
enrolled request = record {
  node_id = request.node_id;
  os = request.os;
  certificate_fingerprint = request.certificate_fingerprint;
  server_trust_root = request.server_trust_root;
}

unfoldable pub enroll_agent :
    AgentEnrollmentRequest → Action ControlPlane RuntimeError AgentIdentityRecord
enroll_agent request = do
  found ← gets (λ plane. find (λ token. token.token == request.token) plane.enrollment_tokens)
  token ← lift (ok_or found enrollment_token_mismatch)
  reject_if (leb token.expires_at_unix_seconds request.now_unix_seconds) expired_enrollment_token
  reject_if (not (token.node_id == request.node_id)) enrollment_node_mismatch
  reject_if (not (os_eq token.os request.os)) enrollment_os_mismatch
  reject_if (not (token.server_trust_root == request.server_trust_root))
      enrollment_trust_root_mismatch
  append_event (agent_enrolled request.node_id request.os)
  modify (λ plane. record plane { agents = plane.agents ++ enrolled request ∷ [] })
  pure (enrolled request)

unfoldable pub enqueue_task : PendingAgentTask → ControlPlane → ControlPlane
enqueue_task task plane = record plane { pending_tasks = plane.pending_tasks ++ task ∷ [] }

unfoldable pub require_agent : AgentIdentity → Action ControlPlane RuntimeError Unit
require_agent identity = do
  found ← gets (λ plane. find (λ agent. agent.node_id == identity.node_id) plane.agents)
  agent ← lift (ok_or found unknown_agent)
  reject_if (not (agent.certificate_fingerprint == identity.certificate_fingerprint))
      agent_identity_mismatch

abbrev pub is_for : String → PendingAgentTask → Bool
is_for node_id task = task.envelope.node_id == node_id

-- the rejection of an envelope, audited
unfoldable pub check_envelope :
    AgentIdentity → PendingAgentTask → ℕ → Action ControlPlane RuntimeError Unit
check_envelope identity task now =
    elim (validate_agent_task_envelope task.envelope
      (record { node_id = identity.node_id; now_unix_seconds = now; seen_nonces = [] })) [
        | ok _ ↦ pure tt
        | err rejection ↦ do
          append_event (agent_task_rejected identity.node_id (debug_rejection rejection))
          lift (err (task_envelope_rejected rejection))
      ]

unfoldable pub pull_task : AgentIdentity → ℕ → Action ControlPlane RuntimeError PulledAgentTask
pull_task identity now = do
  require_agent identity
  found ← gets (λ plane. find (is_for identity.node_id) plane.pending_tasks)
  task ← lift (ok_or found no_task_available)
  check_envelope identity task now
  modify (λ plane. record plane {
    pending_tasks = remove_first (is_for identity.node_id) plane.pending_tasks;
  })
  append_event
      (agent_task_pulled task.envelope.envelope_id task.envelope.task_id task.envelope.node_id)
  modify (λ plane. record plane { pulled_tasks = plane.pulled_tasks ++ task ∷ [] })
  pure (record { envelope = task.envelope; payload = task.payload })

unfoldable pub audit_result_rejection :
    AgentResultSubmission → String → Action ControlPlane RuntimeError Unit
audit_result_rejection submission reason =
    append_event (agent_result_rejected submission.envelope_id reason)

-- `if test { self.audit_result_rejection(&submission, reason)?; return Err(e) }`
unfoldable pub reject_result :
    AgentResultSubmission → Bool → String → RuntimeError → Action ControlPlane RuntimeError Unit
reject_result submission test reason e plane =
    if test
    then (audit_result_rejection submission reason >> lift (err e)) plane
    else (ok tt, plane)

unfoldable pub submit_result :
    AgentIdentity → AgentResultSubmission → ℕ → Action ControlPlane RuntimeError Unit
submit_result identity submission now = do
  require_agent identity
  reject_result submission (not (submission.node_id == identity.node_id)) "result node mismatch"
      result_node_mismatch
  seen ← gets (λ plane. any (λ nonce. nonce == submission.nonce) plane.accepted_result_nonces)
  reject_result submission seen "result nonce replay" result_nonce_replay
  found ← gets (λ plane.
      find (λ task. task.envelope.envelope_id == submission.envelope_id) plane.pulled_tasks)
  task ← lift (ok_or found unknown_envelope)
  reject_result submission (leb task.envelope.expires_at_unix_seconds now) "result envelope expired"
      result_expired
  reject_result submission (not (task.envelope.task_id == submission.task_id))
      "result task mismatch" result_task_mismatch
  reject_result submission (not (task.envelope.run_id == submission.run_id)) "result run mismatch"
      result_run_mismatch
  reject_result submission (not (task.envelope.nonce == submission.nonce)) "result nonce mismatch"
      result_envelope_mismatch
  append_event (agent_result_accepted submission.envelope_id submission.task_id submission.node_id)
  modify (λ plane. record plane {
    accepted_result_nonces = plane.accepted_result_nonces ++ submission.nonce ∷ [];
  })
  modify (λ plane. record plane { accepted_results = plane.accepted_results ++ submission ∷ [] })

unfoldable pub spool_result : LocalSpoolItem → Action ControlPlane RuntimeError LocalSpoolItem
spool_result spool = do
  append_event (agent_result_spooled spool.spool_id spool.reason)
  modify (λ plane. record plane { spooled_results = plane.spooled_results ++ spool ∷ [] })
  pure spool
