-- ===== src/Protocol/Tests.antt =====
-- An envelope, accepted and rejected.
use runlane.Prelude.{refl, [], ◌∷◌}
use runlane.Protocol.{
  AgentTaskEnvelope, AgentProtocolContext, replayed_nonce, validate_agent_task_envelope,
}
use runlane.Protocol.Acceptance.{Rejects, Acceptable, validate_iff, validate-Rejects}

abbrev envelope : AgentTaskEnvelope
envelope = record {
  envelope_id = "envelope-1";
  run_id = "run-1";
  task_id = "task-1";
  node_id = "prod-web-01";
  issued_at_unix_seconds = 100;
  expires_at_unix_seconds = 200;
  nonce = "nonce-1";
  required_capabilities = [];
  audit_correlation_id = "audit-1";
}

abbrev fresh_context : AgentProtocolContext
fresh_context = record {
  node_id = "prod-web-01";
  now_unix_seconds = 150;
  seen_nonces = "nonce-0" ∷ [];
}

abbrev used_context : AgentProtocolContext
used_context = record {
  node_id = "prod-web-01";
  now_unix_seconds = 150;
  seen_nonces = "nonce-0" ∷ "nonce-1" ∷ [];
}

accepted_test : Acceptable envelope fresh_context
unfolding validate_agent_task_envelope
accepted_test = (validate_iff envelope fresh_context).0 refl

rejected_test : Rejects envelope used_context replayed_nonce
unfolding validate_agent_task_envelope
rejected_test = validate-Rejects envelope used_context replayed_nonce refl
