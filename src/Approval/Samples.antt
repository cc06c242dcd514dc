-- ===== src/Approval/Samples.antt =====
-- A concrete approval and its store, for the tests here and in the helper's.
use runlane.Prelude.{[], ◌∷◌}
use runlane.Domain.{system, exclusive, ResourceLeaseRequest}
use runlane.Audit.{empty_ledger, approval_requested}
use runlane.Analyzer.{propose_service_restart}
use runlane.Approval.{ApprovalRecord, ApprovalStore, pending}
use runlane.Approval.Store.{log}
use runlane.Approval.Demo.{demo_service, demo_impact, demo_verification}

abbrev pub restart_lease : ResourceLeaseRequest
restart_lease = record {
  resource_id = demo_service;
  mode = exclusive;
  reason = "service-unhealthy analyzer proposed serialized restart";
}

abbrev pub restart_record : ApprovalRecord
restart_record = record {
  id = "approval-demo-1";
  run_id = "run-demo-1";
  proposal_id = "proposal-demo-1";
  action_id = "restart-service";
  action = propose_service_restart;
  layer = system;
  target = record { resource_id = demo_service; subject = "sshd" };
  impact = demo_impact;
  lease_request = restart_lease;
  verification = demo_verification;
  evidence_references = "service_status" ∷ [];
  state = pending;
  requested_at_unix_seconds = 100;
  expires_at_unix_seconds = 200;
}

abbrev pub restart_store : ApprovalStore
restart_store = record {
  records = restart_record ∷ [];
  ledger =
      log (approval_requested "approval-demo-1" "proposal-demo-1" "restart-service") empty_ledger;
}
