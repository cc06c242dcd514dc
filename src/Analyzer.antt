-- ===== src/Analyzer.antt =====
-- Proposals from untrusted evidence, and their validation against a policy:
-- crates/runlane-core/src/analyzer.rs.
pub mod Policy
pub mod Proposals
mod Tests
use runlane.Prelude.{
  ℕ, String, Bool, true, false, not, ◌&&◌, ◌||◌, Option, none, some, List, [], ◌∷◌, map, any, keep,
  ◌==◌, Result, ok, err, ◌>>=◌, ◌>>◌, if◌then◌else◌,
}
use mathlib.Core.Bool.{beq}
use runlane.Text.{format, join, contains, to_ascii_lowercase}
use runlane.Domain.{
  ActionKind, service_restart, service_reload, remove_allowlisted_file, EvidenceEnvelope, exclusive,
  ResourceLeaseRequest,
}

pub data ProposedActionKind : Type 0 where
  propose_service_restart propose_service_reload : ProposedActionKind
  propose_remove_allowlisted_file collect_more_logs manual_takeover : ProposedActionKind

-- the derived `PartialEq`
abbrev pub proposed_eq : ProposedActionKind → ProposedActionKind → Bool
proposed_eq propose_service_restart propose_service_restart = true
proposed_eq propose_service_reload propose_service_reload = true
proposed_eq propose_remove_allowlisted_file propose_remove_allowlisted_file = true
proposed_eq collect_more_logs collect_more_logs = true
proposed_eq manual_takeover manual_takeover = true
proposed_eq _ _ = false

abbrev pub helper_action : ProposedActionKind → Option ActionKind
helper_action propose_service_restart = some service_restart
helper_action propose_service_reload = some service_reload
helper_action propose_remove_allowlisted_file = some remove_allowlisted_file
helper_action collect_more_logs = none
helper_action manual_takeover = none

pub record ProposedAction : Type 0 where
  pub id : String
  pub kind : ProposedActionKind
  pub target_resource_id : String
  pub requires_approval : Bool
  pub lease_request : Option ResourceLeaseRequest

pub record StructuredProposal : Type 0 where
  pub id : String
  pub hypothesis : String
  pub evidence_references : List String
  pub proposed_actions : List ProposedAction
  pub confidence_percent : ℕ
  pub approval_required : Bool
  pub untrusted_evidence_excerpt : List String

pub record ProposalPolicy : Type 0 where
  pub allowed_actions : List ProposedActionKind
  pub approval_required : List ProposedActionKind

-- `ProposalPolicy::service_unhealthy`
abbrev pub service_unhealthy_policy : ProposalPolicy
service_unhealthy_policy = record {
  allowed_actions =
      propose_service_restart ∷ propose_service_reload ∷ collect_more_logs ∷ manual_takeover ∷ [];
  approval_required = propose_service_restart ∷ propose_service_reload ∷ [];
}

-- `ProposalPolicy::disk_pressure`
abbrev pub disk_pressure_policy : ProposalPolicy
disk_pressure_policy = record {
  allowed_actions = propose_remove_allowlisted_file ∷ manual_takeover ∷ [];
  approval_required = propose_remove_allowlisted_file ∷ [];
}

pub data ProposalValidationError : Type 0 where
  unsupported_action : String → ProposalValidationError
  approval_requirement_mismatch : String → ProposalValidationError
  empty_proposal : ProposalValidationError

-- the bodies of all the evidence, in lower case
abbrev pub normalized : List EvidenceEnvelope → String
normalized evidence = join (map (λ e. to_ascii_lowercase e.body) evidence) "\n"

abbrev references : List EvidenceEnvelope → List String
references = map (λ e. e.source)

abbrev log_excerpt : List EvidenceEnvelope → List String
log_excerpt evidence = map (λ e. e.body) (keep (λ e. contains e.source "logs") evidence)

-- the three tests on the text of service evidence
unfoldable pub service_active : String → Bool
service_active text =
    contains text "service=active"
    || contains text "activestate=active"
    || contains text "is running"
    || contains text "(ok)"

unfoldable pub service_unhealthy : String → Bool
service_unhealthy text =
    contains text "service=not-active"
    || contains text "activestate=failed"
    || contains text "failed"
    || contains text "exited"
    || contains text "connection refused"

unfoldable pub evidence_unsupported : String → Bool
evidence_unsupported text = contains text "unsupported" || contains text "not available"

-- hypothesis, confidence and actions
abbrev pub Finding : Type 0
Finding = String × ℕ × List ProposedAction

abbrev unapproved : String → ProposedActionKind → String → ProposedAction
unapproved id kind target = record {
  id = id;
  kind = kind;
  target_resource_id = target;
  requires_approval = false;
  lease_request = none;
}

abbrev approved_exclusive : String → ProposedActionKind → String → String → ProposedAction
approved_exclusive id kind target reason = record {
  id = id;
  kind = kind;
  target_resource_id = target;
  requires_approval = true;
  lease_request = some (record { resource_id = target; mode = exclusive; reason = reason });
}

unfoldable pub service_finding : String → String → String → Bool → Bool → Bool → Finding
service_finding node_id service target unsupported active unhealthy =
    if unsupported
    then (
      format (service ∷ " evidence collection is unsupported or unavailable on " ∷ node_id ∷ []),
      55,
      unapproved "manual-takeover" manual_takeover target ∷ [],
    )
    else if active && unhealthy
    then (
      format (service ∷ " has conflicting status and log evidence on " ∷ node_id ∷ []),
      45,
      unapproved "collect-more-logs" collect_more_logs target ∷ [],
    )
    else if unhealthy
    then (
      format (
          service ∷ " appears unhealthy on " ∷ node_id ∷ "; restart is the typed recovery action"
          ∷ []),
      82,
      approved_exclusive "restart-service" propose_service_restart target
            "service-unhealthy analyzer proposed serialized restart"
          ∷ [],
    )
    else (
      format (service ∷ " appears healthy on " ∷ node_id ∷ "; no restart proposed" ∷ []),
      70,
      unapproved "collect-more-logs" collect_more_logs target ∷ [],
    )

abbrev to_proposal : String → List EvidenceEnvelope → Finding → StructuredProposal
to_proposal id evidence (hypothesis, confidence, actions) = record {
  id = id;
  hypothesis = hypothesis;
  evidence_references = references evidence;
  proposed_actions = actions;
  confidence_percent = confidence;
  approval_required = any (λ action. action.requires_approval) actions;
  untrusted_evidence_excerpt = log_excerpt evidence;
}

unfoldable pub service_resource_id : String → String → String
service_resource_id node_id service = format ("system:node/" ∷ node_id ∷ "/service/" ∷ service ∷ [])

unfoldable pub analyze_service_unhealthy :
    String → String → String → List EvidenceEnvelope → StructuredProposal
unfolding service_finding
analyze_service_unhealthy proposal_id node_id service evidence =
    let text : String = normalized evidence in
    to_proposal proposal_id evidence (
      service_finding node_id service (service_resource_id node_id service)
        (evidence_unsupported text) (service_active text) (service_unhealthy text))

unfoldable pub pressure_detected : String → Bool
pressure_detected text =
    contains text "disk_pressure=high" || contains text "usage=92" || contains text "free_space=low"

unfoldable pub candidate_present : String → Bool
candidate_present text = contains text "cleanup_candidate=present"

unfoldable pub disk_finding : String → String → String → Bool → Finding
disk_finding node_id mount cleanup_resource_id cleanup =
    if cleanup
    then (
      format (
          node_id ∷ " has disk pressure on " ∷ mount
          ∷ "; cleanup is limited to the declared allowlist path" ∷ []),
      84,
      approved_exclusive "remove-allowlisted-cleanup-path" propose_remove_allowlisted_file
            cleanup_resource_id "disk-pressure analyzer proposed allowlisted cleanup"
          ∷ [],
    )
    else (
      format (node_id ∷ " disk pressure evidence does not match an allowlisted cleanup path" ∷ []),
      50,
      unapproved "manual-takeover" manual_takeover
            (format ("system:node/" ∷ node_id ∷ "/filesystem/" ∷ mount ∷ []))
          ∷ [],
    )

unfoldable pub analyze_disk_pressure :
    String → String → String → String → List EvidenceEnvelope → List String → StructuredProposal
unfolding disk_finding
analyze_disk_pressure proposal_id node_id mount cleanup_resource_id evidence allowed =
    let text : String = normalized evidence in
    to_proposal proposal_id evidence (
      disk_finding node_id mount cleanup_resource_id (
        pressure_detected text
        && candidate_present text
        && any (λ resource. resource == cleanup_resource_id) allowed))

abbrev pub contains_kind : List ProposedActionKind → ProposedActionKind → Bool
contains_kind kinds kind = any (λ k. proposed_eq k kind) kinds

-- one round of the loop of `validate_proposal`
unfoldable pub validate_action :
    ProposalPolicy → ProposedAction → Result ProposalValidationError (Unit {0})
validate_action policy action =
    if not (contains_kind policy.allowed_actions action.kind)
    then err (unsupported_action action.id)
    else if not (beq (contains_kind policy.approval_required action.kind) action.requires_approval)
    then err (approval_requirement_mismatch action.id)
    else ok tt

unfoldable pub validate_actions :
    ProposalPolicy → List ProposedAction → Result ProposalValidationError (Unit {0})
validate_actions policy [] = ok tt
validate_actions policy (action ∷ rest) = do
  validate_action policy action
  validate_actions policy rest

abbrev is_empty {ℓ} : {A : Type ℓ} → List A → Bool
is_empty [] = true
is_empty (_ ∷ _) = false

unfoldable pub validate_proposal :
    StructuredProposal → ProposalPolicy → Result ProposalValidationError (Unit {0})
validate_proposal proposal policy =
    if is_empty proposal.proposed_actions
    then err empty_proposal
    else validate_actions policy proposal.proposed_actions
