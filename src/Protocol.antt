-- ===== src/Protocol.antt =====
-- The agent pull protocol: task envelopes, result submissions and the spool, in
-- crates/runlane-core/src/lib.rs.
pub mod Acceptance
mod Tests
use runlane.Prelude.{
  ℕ, String, Bool, not, List, any, leb, ◌==◌, Result, ok, err, ◌>>◌, refuse_if, if◌then◌else◌,
}
use runlane.Domain.{Capability, EvidenceEnvelope, SpoolReason}

pub record AgentTaskEnvelope : Type 0 where
  pub envelope_id : String
  pub run_id : String
  pub task_id : String
  pub node_id : String
  pub issued_at_unix_seconds : ℕ
  pub expires_at_unix_seconds : ℕ
  pub nonce : String
  pub required_capabilities : List Capability
  pub audit_correlation_id : String

pub record AgentProtocolContext : Type 0 where
  pub node_id : String
  pub now_unix_seconds : ℕ
  pub seen_nonces : List String

pub record AcceptedAgentTask : Type 0 where
  pub envelope_id : String
  pub run_id : String
  pub task_id : String
  pub audit_correlation_id : String

pub data AgentTaskRejection : Type 0 where
  node_mismatch expired_envelope replayed_nonce : AgentTaskRejection

-- the derived `Debug`
abbrev pub debug_rejection : AgentTaskRejection → String
debug_rejection node_mismatch = "NodeMismatch"
debug_rejection expired_envelope = "ExpiredEnvelope"
debug_rejection replayed_nonce = "ReplayedNonce"

abbrev pub accepted_task : AgentTaskEnvelope → AcceptedAgentTask
accepted_task envelope = record {
  envelope_id = envelope.envelope_id;
  run_id = envelope.run_id;
  task_id = envelope.task_id;
  audit_correlation_id = envelope.audit_correlation_id;
}

unfoldable pub validate_agent_task_envelope :
    AgentTaskEnvelope → AgentProtocolContext → Result AgentTaskRejection AcceptedAgentTask
validate_agent_task_envelope envelope context = do
  refuse_if (not (envelope.node_id == context.node_id)) node_mismatch
  refuse_if (leb envelope.expires_at_unix_seconds context.now_unix_seconds) expired_envelope
  refuse_if (any (λ nonce. nonce == envelope.nonce) context.seen_nonces) replayed_nonce
  ok (accepted_task envelope)

pub data AgentResultStatus : Type 0 where
  succeeded failed : AgentResultStatus

pub record AgentResultSubmission : Type 0 where
  pub envelope_id : String
  pub run_id : String
  pub task_id : String
  pub node_id : String
  pub nonce : String
  pub status : AgentResultStatus
  pub evidence : List EvidenceEnvelope
  pub audit_correlation_id : String

pub record LocalSpoolItem : Type 0 where
  pub spool_id : String
  pub reason : SpoolReason
  pub result : AgentResultSubmission
