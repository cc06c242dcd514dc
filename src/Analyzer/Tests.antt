-- ===== src/Analyzer/Tests.antt =====
-- The analyzers at evidence of a failed service and of a full disk.
use runlane.Prelude.{◌≡◌, ◌≢◌, refl, true, false, String, List, [], ◌∷◌, All, length}
use runlane.Text.{join, contains, to_ascii_lowercase}
use runlane.Domain.{EvidenceEnvelope}
use runlane.Analyzer.{
  StructuredProposal, disk_pressure_policy, analyze_service_unhealthy, analyze_disk_pressure,
  service_active, service_unhealthy, evidence_unsupported,
}
use runlane.Analyzer.Policy.{Conforms, validate_proposal_iff}
use runlane.Analyzer.Proposals.{
  IsDueAction, restart_due, analyze_service_unhealthy-action, analyze_disk_pressure-valid,
}

abbrev evidence : String → List EvidenceEnvelope
evidence body =
    record {
      source = "service_status";
      content_type = "text/plain";
      body = body;
      truncated = false;
    }
    ∷ []

abbrev proposal : StructuredProposal
proposal =
    analyze_service_unhealthy "proposal-1" "prod-web-01" "sshd" (evidence "Service=Not-Active")

abbrev cleanup : StructuredProposal
cleanup =
    analyze_disk_pressure "proposal-2" "prod-web-01" "/var" "path/cache"
      (evidence "usage=92 cleanup_candidate=present") ("path/cache" ∷ [])

due_test : restart_due "proposal-1" "prod-web-01" "sshd" (evidence "Service=Not-Active") ≡ true
unfolding service_active service_unhealthy evidence_unsupported join contains to_ascii_lowercase
due_test = refl

analyze_service_unhealthy-action_example :
    (length proposal.proposed_actions ≡ 1)
    × All
        (IsDueAction "proposal-1" "prod-web-01" "sshd" (evidence "Service=Not-Active"))
        proposal.proposed_actions
    × (proposal.approval_required
        ≡ restart_due "proposal-1" "prod-web-01" "sshd" (evidence "Service=Not-Active"))
analyze_service_unhealthy-action_example =
    analyze_service_unhealthy-action "proposal-1" "prod-web-01" "sshd"
      (evidence "Service=Not-Active")

validate_proposal_iff_example :
    (cleanup.proposed_actions ≢ []) × All (Conforms disk_pressure_policy) cleanup.proposed_actions
validate_proposal_iff_example = (validate_proposal_iff cleanup disk_pressure_policy).0 (
    analyze_disk_pressure-valid "proposal-2" "prod-web-01" "/var" "path/cache"
      (evidence "usage=92 cleanup_candidate=present") ("path/cache" ∷ []))
