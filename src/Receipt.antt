-- ===== src/Receipt.antt =====
-- Receipts for the operator, from the audit ledger: crates/runlane-core/src/receipt.rs.
pub mod Render
pub mod Contents
pub mod Complete
mod Tests
use Prim.Native.Nat.{Ordering}
use Prim.Native.String as S
use runlane.Prelude.{
  String, Bool, true, false, Option, none, some, List, [], ◌∷◌, ◌++◌, map, keep, ◌==◌, Result, ok,
  err, ◌>>=◌, ◌>>◌, ok_or, refuse_if, if◌then◌else◌,
}
use runlane.Text.{format, join}
use runlane.Domain.{
  OperationalLayer, system, debug_layer, ActionKind, service_restart, service_reload,
  package_update, node_reboot, run_allowlisted_script, remove_allowlisted_file, HelperActionStatus,
  succeeded, failed, denied, ApprovalOutcome, VerificationCheck, SkippedVerification,
}
use runlane.Audit.{
  AuditEventKind, AuditEvent, AuditLedger, incident_created, evidence_collected, proposal_generated,
  approval_decision, capability_lease_issued, resource_lease_granted, action_result,
  verification_selected, verification_completed, verification_skipped,
}

pub record OperatorReceipt : Type 0 where
  pub run_id : String
  pub incident_id : String
  pub node_id : String
  pub layer : OperationalLayer
  pub changed_resources : List String
  pub evidence_references : List String
  pub proposal_id : String
  pub hypothesis : String
  pub approval_id : String
  pub lease_id : String
  pub helper_action : ActionKind
  pub helper_status : HelperActionStatus
  pub verification_checks : List VerificationCheck
  pub verification_completed : List String
  pub skipped_checks : List SkippedVerification
  pub residual_risk : String
  pub takeover_notes : String

pub data ReceiptError : Type 0 where
  missing_event : String → ReceiptError

pub record ReceiptParts : Type 0 where
  pub incident_id : Option String
  pub node_id : Option String
  pub evidence_references : List String
  pub proposal_id : Option String
  pub hypothesis : Option String
  pub approval_id : Option String
  pub lease_id : Option String
  pub changed_resources : List String
  pub helper_action : Option ActionKind
  pub helper_status : Option HelperActionStatus
  pub verification_checks : List VerificationCheck
  pub verification_completed : List String
  pub skipped_checks : List SkippedVerification

-- `ReceiptParts::default`
abbrev pub no_parts : ReceiptParts
no_parts = record {
  incident_id = none;
  node_id = none;
  evidence_references = [];
  proposal_id = none;
  hypothesis = none;
  approval_id = none;
  lease_id = none;
  changed_resources = [];
  helper_action = none;
  helper_status = none;
  verification_checks = [];
  verification_completed = [];
  skipped_checks = [];
}

-- `get_or_insert_with`
abbrev pub or_insert : Option String → String → Option String
or_insert none s = some s
or_insert (some t) s = some t

unfoldable pub apply : ReceiptParts → AuditEventKind → ReceiptParts
apply p (incident_created id node _) = record p { incident_id = some id; node_id = some node }
apply p (evidence_collected source) = record p {
  evidence_references = p.evidence_references ++ source ∷ [];
}
apply p (proposal_generated id text) = record p { proposal_id = some id; hypothesis = some text }
apply p (approval_decision id _ ApprovalOutcome.approved) = record p { approval_id = some id }
apply p (capability_lease_issued id approved) = record p {
  lease_id = some id;
  approval_id = or_insert p.approval_id approved;
}
apply p (resource_lease_granted _ resource _) = record p {
  changed_resources = p.changed_resources ++ resource ∷ [];
}
apply p (action_result action target status) = record p {
  helper_action = some action;
  helper_status = some status;
  changed_resources = p.changed_resources ++ target.resource_id ∷ [];
}
apply p (verification_selected plan) = record p {
  verification_checks = p.verification_checks ++ plan.required;
  skipped_checks = p.skipped_checks ++ plan.skipped;
}
apply p (AuditEventKind.verification_completed check_id resource_id) = record p {
  verification_completed =
      p.verification_completed ++ format (check_id ∷ ":" ∷ resource_id ∷ []) ∷ [];
}
apply p (verification_skipped skipped) = record p {
  skipped_checks = p.skipped_checks ++ skipped ∷ [];
}
apply p _ = p

unfoldable pub apply_all : ReceiptParts → List AuditEvent → ReceiptParts
apply_all p [] = p
apply_all p (event ∷ rest) = apply_all (apply p event.kind) rest

abbrev pub is_of : String → AuditEvent → Bool
is_of run_id event = event.run_id == run_id

unfoldable pub collect_receipt_parts : String → AuditLedger → ReceiptParts
collect_receipt_parts run_id ledger = apply_all no_parts (keep (is_of run_id) ledger.events)

module _ {A : Type 0} (key : A → String) where
  -- `sort_by` on a key, which is stable, and `dedup_by` on it, which keeps the first of a row
  abbrev pub insert_by : A → List A → List A
  insert_by a [] = a ∷ []
  insert_by a (b ∷ rest) =
      let later = insert_by a rest in
      elim (S.compare (key a) (key b)) as (λ _. List A) [
        | Ordering.gt ↦ b ∷ later
        | _ ↦ a ∷ b ∷ rest
      ]

  abbrev pub sort_by : List A → List A
  sort_by [] = []
  sort_by (a ∷ rest) = insert_by a (sort_by rest)

  abbrev pub dedup_after : A → List A → List A
  dedup_after a [] = []
  dedup_after a (b ∷ rest) = elim (key b == key a) as (λ _. List A) [
    | true ↦ dedup_after a rest
    | false ↦ b ∷ dedup_after b rest
  ]

  abbrev pub dedup_by : List A → List A
  dedup_by [] = []
  dedup_by (a ∷ rest) = a ∷ dedup_after a rest

unfoldable pub receipt_operator_notes : ActionKind → String × String
receipt_operator_notes remove_allowlisted_file = (
  "disk pressure may recur until the growth source is fixed; cleanup was limited to the allowlist",
  "operator can inspect disk evidence, cleanup allowlist, and verification before broader cleanup",
)
receipt_operator_notes _ = (
  "root cause still requires operator review if service fails again",
  "operator can inspect collected evidence and rerun verification",
)

abbrev is_empty {ℓ} : {A : Type ℓ} → List A → Bool
is_empty [] = true
is_empty (_ ∷ _) = false

unfoldable pub finalize : ReceiptParts → String → Result ReceiptError OperatorReceipt
finalize p run_id = do
  incident_id ← ok_or p.incident_id (missing_event "incident_created")
  node_id ← ok_or p.node_id (missing_event "incident_node")
  refuse_if (is_empty p.evidence_references) (missing_event "evidence_collected")
  proposal_id ← ok_or p.proposal_id (missing_event "proposal_generated")
  hypothesis ← ok_or p.hypothesis (missing_event "proposal_hypothesis")
  approval_id ← ok_or p.approval_id (missing_event "approval_approved")
  lease_id ← ok_or p.lease_id (missing_event "capability_lease_issued")
  helper_action ← ok_or p.helper_action (missing_event "helper_action_result")
  helper_status ← ok_or p.helper_status (missing_event "helper_action_status")
  refuse_if (is_empty p.verification_checks) (missing_event "verification_selected")
  refuse_if (is_empty p.verification_completed) (missing_event "verification_completed")
  let notes = receipt_operator_notes helper_action in
      ok (record {
        run_id = run_id;
        incident_id = incident_id;
        node_id = node_id;
        layer = system;
        changed_resources = dedup_by (λ s. s) (sort_by (λ s. s) p.changed_resources);
        evidence_references = p.evidence_references;
        proposal_id = proposal_id;
        hypothesis = hypothesis;
        approval_id = approval_id;
        lease_id = lease_id;
        helper_action = helper_action;
        helper_status = helper_status;
        verification_checks = p.verification_checks;
        verification_completed = p.verification_completed;
        skipped_checks = dedup_by (λ s. s.check_id) (sort_by (λ s. s.check_id) p.skipped_checks);
        residual_risk = notes.0;
        takeover_notes = notes.1;
      })

unfoldable pub generate_operator_receipt :
    String → AuditLedger → Result ReceiptError OperatorReceipt
generate_operator_receipt run_id ledger = finalize (collect_receipt_parts run_id ledger) run_id
