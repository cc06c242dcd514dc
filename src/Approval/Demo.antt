-- ===== src/Approval/Demo.antt =====
-- The store that the command-line demos and the tests start from: `demo_approval_store` in
-- crates/runlane-core/src/approval.rs.
use runlane.Prelude.{false, String, Option, none, some, [], ◌∷◌}
use runlane.Domain.{system, ImpactSet, EvidenceEnvelope, VerificationPlan, direct_impact}
use runlane.Analyzer.{StructuredProposal, analyze_service_unhealthy}
use runlane.Approval.{ApprovalRecord, ApprovalStore, empty_store, new_record, request}

abbrev pub demo_service : String
demo_service = "system:node/prod-web-01/service/sshd"

-- `EvidenceEnvelope::text`
abbrev pub text_evidence : String → String → EvidenceEnvelope
text_evidence source body = record {
  source = source;
  content_type = "text/plain";
  body = body;
  truncated = false;
}

unfoldable pub demo_proposal : StructuredProposal
demo_proposal =
    analyze_service_unhealthy "proposal-demo-1" "prod-web-01" "sshd"
      (text_evidence "service_status" "service=not-active" ∷ [])

abbrev pub demo_impact : ImpactSet
demo_impact = record {
  layer = system;
  writes = demo_service ∷ [];
  may_affect = "platform:on-node/prod-web-01" ∷ "application:on-node/prod-web-01" ∷ [];
  does_not_affect = "system:node/prod-web-01/package-db" ∷ "system:node/prod-web-01/firewall" ∷ [];
}

abbrev pub demo_verification : VerificationPlan
demo_verification = record {
  required =
      record { id = "service_active"; resource_id = demo_service; tier = direct_impact } ∷ [];
  conditional = [];
  skipped =
      record {
        check_id = "package_audit";
        reason = "service restart did not mutate package database";
      }
      ∷ record {
        check_id = "firewall_audit";
        reason = "service restart did not mutate firewall rules";
      }
      ∷ [];
}

unfoldable pub demo_record : Option ApprovalRecord
demo_record =
    new_record "approval-demo-1" "run-demo-1" demo_proposal "restart-service" system "sshd"
      demo_impact demo_verification 100 200

-- `none` is the panic on a proposal without the action
unfoldable pub demo_approval_store : Option ApprovalStore
demo_approval_store = elim demo_record [ none ↦ none | some r ↦ some (request r empty_store).1 ]
