-- ===== src/Analyzer/Proposals.antt =====
-- What the analyzers can propose, whatever the evidence says.
use runlane.Prelude.{
  String, ◌≡◌, ◌⊎◌, inl, inr, Bool, not, ◌&&◌, none, true, false, List, some, ok, any, ◌==◌, arith,
  length, All, Bool-cases,
}
use mathlib.Core.List.{Mem}
use runlane.Prelude.Search.{contains-mem}
use runlane.Domain.{EvidenceEnvelope, ResourceLeaseRequest, exclusive}
use runlane.Analyzer.{
  ProposedAction, StructuredProposal, propose_service_restart, propose_remove_allowlisted_file,
  collect_more_logs, manual_takeover, service_unhealthy_policy, disk_pressure_policy, normalized,
  service_active, service_unhealthy, evidence_unsupported, service_resource_id,
  analyze_service_unhealthy, analyze_disk_pressure, validate_proposal, validate_actions,
  validate_action,
}

module _ (proposal_id node_id service : String) (evidence : List EvidenceEnvelope) where
  -- Whatever the evidence says, the service analyzer's proposal passes the service policy.
  pub analyze_service_unhealthy-valid :
      validate_proposal
        (analyze_service_unhealthy proposal_id node_id service evidence)
        service_unhealthy_policy
      ≡ ok tt
  unfolding validate_proposal validate_actions validate_action analyze_service_unhealthy
  analyze_service_unhealthy-valid = ground arith

  -- the evidence that makes the service analyzer propose a restart
  abbrev pub restart_due : Bool
  restart_due =
      let text : String = normalized evidence in
      service_unhealthy text && not (service_active text) && not (evidence_unsupported text)

  abbrev restart_request : ResourceLeaseRequest
  restart_request = record {
    resource_id = service_resource_id node_id service;
    mode = exclusive;
    reason = "service-unhealthy analyzer proposed serialized restart";
  }

  -- A restart under an exclusive lease, with approval, if it is due; else a request for logs or a
  -- takeover with neither. The target is the service's own resource.
  abbrev pub IsDueAction : ProposedAction → Type 0
  IsDueAction action =
      (action.target_resource_id ≡ service_resource_id node_id service)
      × (action.requires_approval ≡ restart_due)
      × (restart_due ≡ true
          → (action.kind ≡ propose_service_restart) × (action.lease_request ≡ some restart_request))
      × (restart_due ≡ false
          → ((action.kind ≡ collect_more_logs) ⊎ (action.kind ≡ manual_takeover))
            × (action.lease_request ≡ none))

  -- The service analyzer proposes one action, on the service's own resource. It is a restart under
  -- an exclusive lease and with approval exactly when the evidence is unhealthy, not active and not
  -- unsupported; otherwise it is a request for logs or a takeover, with no lease and no approval.
  pub analyze_service_unhealthy-action :
      let proposal : StructuredProposal =
        analyze_service_unhealthy proposal_id node_id service evidence in
      (length proposal.proposed_actions ≡ 1)
      × All IsDueAction proposal.proposed_actions
      × (proposal.approval_required ≡ restart_due)
  unfolding analyze_service_unhealthy
  analyze_service_unhealthy-action = ground arith

module _ (proposal_id node_id mount cleanup : String) (evidence : List EvidenceEnvelope)
    (allowed : List String) where
  -- Whatever the evidence says, the disk analyzer's proposal passes the disk policy.
  pub analyze_disk_pressure-valid :
      validate_proposal
        (analyze_disk_pressure proposal_id node_id mount cleanup evidence allowed)
        disk_pressure_policy
      ≡ ok tt
  unfolding validate_proposal validate_actions validate_action analyze_disk_pressure
  analyze_disk_pressure-valid = ground arith

  -- The disk analyzer proposes a removal only of the given resource, only where that resource is
  -- one of the allowed ones, and always with approval and under an exclusive lease.
  pub analyze_disk_pressure-removal :
      All
        (λ action.
          action.kind ≡ propose_remove_allowlisted_file
          → (action.target_resource_id ≡ cleanup)
            × Mem cleanup allowed
            × (action.requires_approval ≡ true))
        (analyze_disk_pressure proposal_id node_id mount cleanup evidence allowed).proposed_actions
  unfolding analyze_disk_pressure
  analyze_disk_pressure-removal = elim (Bool-cases (any (λ r. r == cleanup) allowed)) [
    | inl e ↦ let listed : Mem cleanup allowed = contains-mem allowed cleanup e in ground arith
    | inr e ↦ ground arith
  ]
