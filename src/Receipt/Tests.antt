-- ===== src/Receipt/Tests.antt =====
-- The receipt of a run with one event of each stage.
use runlane.Prelude.{◌≡◌, refl, true, [], ◌∷◌}
use runlane.Domain.{service_restart, succeeded, direct_impact, VerificationPlan}
use runlane.Audit.{
  AuditEventKind, AuditEvent, AuditLedger, incident_created, evidence_collected, proposal_generated,
  capability_lease_issued, action_result, verification_selected, verification_completed,
}
use runlane.Receipt.{OperatorReceipt, generate_operator_receipt}
use runlane.Receipt.Complete.{
  is_ok, IsComplete, incident, evidence, proposal, lease, action, selection, completion, shows,
  generate_iff,
}

abbrev event : AuditEventKind → AuditEvent
event kind = record { id = "event"; run_id = "run-1"; sequence = 1; kind = kind }

abbrev checks : VerificationPlan
checks = record {
  required =
      record { id = "service_active"; resource_id = "service/sshd"; tier = direct_impact } ∷ [];
  conditional = [];
  skipped = [];
}

abbrev ledger : AuditLedger
ledger = record {
  events =
      event (incident_created "incident-1" "web-01" "service-unhealthy")
      ∷ event (evidence_collected "service_status")
      ∷ event (proposal_generated "proposal-1" "sshd is down")
      ∷ event (capability_lease_issued "lease-1" "approval-1")
      ∷ event (
          action_result service_restart (record { resource_id = "service/sshd"; subject = "sshd" })
            succeeded)
      ∷ event (verification_selected checks)
      ∷ event (verification_completed "service_active" "service/sshd")
      ∷ [];
}

complete : IsComplete "run-1" ledger
unfolding IsComplete shows
complete incident = refl
complete evidence = refl
complete proposal = refl
complete lease = refl
complete action = refl
complete selection = refl
complete completion = refl

generate_iff_example : is_ok (generate_operator_receipt "run-1" ledger) ≡ true
generate_iff_example = (generate_iff "run-1" ledger).1 complete

abbrev receipt : OperatorReceipt
receipt = record {
  run_id = "run-1";
  incident_id = "incident-1";
  node_id = "web-01";
  layer = runlane.Domain.system;
  changed_resources = "service/sshd" ∷ [];
  evidence_references = "service_status" ∷ [];
  proposal_id = "proposal-1";
  hypothesis = "sshd is down";
  approval_id = "approval-1";
  lease_id = "lease-1";
  helper_action = service_restart;
  helper_status = succeeded;
  verification_checks = checks.required;
  verification_completed = "service_active:service/sshd" ∷ [];
  skipped_checks = [];
  residual_risk = "root cause still requires operator review if service fails again";
  takeover_notes = "operator can inspect collected evidence and rerun verification";
}
