-- ===== src/Approval.antt =====
-- Approvals bound to one proposal action: crates/runlane-core/src/approval.rs.
pub mod Store
pub mod Lifecycle
pub mod Ledger
pub mod Demo
pub mod Samples
mod Tests
use runlane.Prelude.{
  ℕ, String, Bool, true, false, not, Option, none, some, List, [], ◌∷◌, ◌++◌, keep, find,
  update_first, leb, ◌==◌, Result, ok, err, ok_or, map_err, if◌then◌else◌,
}
use runlane.Prelude.Action.{Action, ◌>>=◌, ◌>>◌, pure, lift, modify, reject_if}
use runlane.Text.{format, strip_prefix, first_segment}
use runlane.Domain.{
  OperationalLayer, ActionTarget, ResourceLeaseRequest, exclusive, ImpactSet, VerificationPlan,
  CapabilityLeaseClaims,
}
use runlane.Audit.{
  AuditLedger, empty_ledger, AuditAppendError, AuditEventKind, approval_requested,
  approval_decision, approval_expired, approval_superseded, approval_adapter_rejected, append,
  next_event,
}
use runlane.Domain.{ApprovalOutcome}
use runlane.Analyzer.{ProposedActionKind, ProposedAction, StructuredProposal, helper_action}

pub data ApprovalState : Type 0 where
  pending approved rejected expired superseded : ApprovalState

-- the derived `PartialEq`, against `Pending`
abbrev pub is_pending : ApprovalState → Bool
is_pending pending = true
is_pending _ = false

pub record ApprovalRecord : Type 0 where
  pub id : String
  pub run_id : String
  pub proposal_id : String
  pub action_id : String
  pub action : ProposedActionKind
  pub layer : OperationalLayer
  pub target : ActionTarget
  pub impact : ImpactSet
  pub lease_request : ResourceLeaseRequest
  pub verification : VerificationPlan
  pub evidence_references : List String
  pub state : ApprovalState
  pub requested_at_unix_seconds : ℕ
  pub expires_at_unix_seconds : ℕ

abbrev default_lease : ProposedAction → ResourceLeaseRequest
default_lease action = record {
  resource_id = action.target_resource_id;
  mode = exclusive;
  reason = "approval-bound default exclusive lease";
}

-- `ApprovalRecord::new`; `none` is the panic on an action id that the proposal lacks
unfoldable pub new_record :
    String
    → String
    → StructuredProposal
    → String
    → OperationalLayer
    → String
    → ImpactSet
    → VerificationPlan
    → ℕ
    → ℕ
    → Option ApprovalRecord
new_record id run_id proposal action_id layer subject impact verification requested_at expires_at =
    elim (find (λ action. action.id == action_id) proposal.proposed_actions) [
      | none ↦ none
      | some action ↦ some (record {
        id = id;
        run_id = run_id;
        proposal_id = proposal.id;
        action_id = action.id;
        action = action.kind;
        layer = layer;
        target = record { resource_id = action.target_resource_id; subject = subject };
        impact = impact;
        lease_request = elim action.lease_request [
          | none ↦ default_lease action
          | some request ↦ request
        ];
        verification = verification;
        evidence_references = proposal.evidence_references;
        state = pending;
        requested_at_unix_seconds = requested_at;
        expires_at_unix_seconds = expires_at;
      })
    ]

pub data ApprovalError : Type 0 where
  unknown_approval not_pending stale_approval action_mismatch : ApprovalError
  unsupported_helper_action : ApprovalError
  audit_append : AuditAppendError → ApprovalError

pub record ApprovalStore : Type 0 where
  pub records : List ApprovalRecord
  pub ledger : AuditLedger

-- `ApprovalStore::empty`
abbrev pub empty_store : ApprovalStore
empty_store = record { records = []; ledger = empty_ledger }

unfoldable pub append_event : AuditEventKind → Action ApprovalStore ApprovalError Unit
append_event kind store =
    let (done, ledger) =
      append (next_event "approval-event-" "approval" kind store.ledger) store.ledger in
    (map_err audit_append done, record store { ledger = ledger })

abbrev pub has_id : String → ApprovalRecord → Bool
has_id id r = r.id == id

-- `records[index_of(id)?]`: the first record with the id
abbrev pub record_of : String → Action ApprovalStore ApprovalError ApprovalRecord
record_of id store = (ok_or (find (has_id id) store.records) unknown_approval, store)

abbrev pub set_state : ApprovalState → ApprovalRecord → ApprovalRecord
set_state state r = record r { state = state }

-- `records[index_of(id)?].state = state`
abbrev pub assign_state : String → ApprovalState → ApprovalStore → ApprovalStore
assign_state id state store = record store {
  records = update_first (has_id id) (set_state state) store.records;
}

unfoldable pub ensure_pending_not_stale : ApprovalRecord → ℕ → Result ApprovalError (Unit {0})
ensure_pending_not_stale r now =
    if not (is_pending r.state)
    then err not_pending
    else if leb r.expires_at_unix_seconds now
    then err stale_approval
    else ok tt

unfoldable pub node_from_target : String → String
node_from_target resource_id = elim (strip_prefix resource_id "system:node/") [
  | none ↦ "unknown-node"
  | some rest ↦ first_segment rest
]

unfoldable pub request : ApprovalRecord → Action ApprovalStore ApprovalError Unit
request r = do
  append_event (approval_requested r.id r.proposal_id r.action_id)
  modify (λ store. record store { records = store.records ++ r ∷ [] })

unfoldable pub list_pending : ApprovalStore → List ApprovalRecord
list_pending store = keep (λ r. is_pending r.state) store.records

unfoldable pub show : ApprovalStore → String → Option ApprovalRecord
show store id = find (has_id id) store.records

unfoldable pub approve :
    String
    → String
    → String
    → ℕ
    → String
    → String
    → Action ApprovalStore ApprovalError CapabilityLeaseClaims
approve id expected_action_id actor now allowlist_entry_id lease_nonce = do
  r ← record_of id
  lift (ensure_pending_not_stale r now)
  reject_if (not (r.action_id == expected_action_id)) action_mismatch
  action ← lift (ok_or (helper_action r.action) unsupported_helper_action)
  modify (assign_state id approved)
  append_event (approval_decision id actor ApprovalOutcome.approved)
  pure (record {
    lease_id = format ("lease-" ∷ id ∷ []);
    run_id = r.run_id;
    approval_id = r.id;
    node_id = node_from_target r.target.resource_id;
    action = action;
    target = r.target;
    allowlist_entry_id = allowlist_entry_id;
    expires_at_unix_seconds = r.expires_at_unix_seconds;
    nonce = lease_nonce;
  })

unfoldable pub reject : String → String → ℕ → Action ApprovalStore ApprovalError Unit
reject id actor now = do
  r ← record_of id
  lift (ensure_pending_not_stale r now)
  modify (assign_state id rejected)
  append_event (approval_decision id actor ApprovalOutcome.rejected)

unfoldable pub expire : String → ℕ → Action ApprovalStore ApprovalError Unit
expire id now = do
  r ← record_of id
  reject_if (not (is_pending r.state)) not_pending
  reject_if (not (leb r.expires_at_unix_seconds now)) stale_approval
  modify (assign_state id expired)
  append_event (approval_expired id)

unfoldable pub supersede : String → String → Action ApprovalStore ApprovalError Unit
supersede id superseded_by = do
  r ← record_of id
  reject_if (not (is_pending r.state)) not_pending
  modify (assign_state id superseded)
  append_event (approval_superseded id superseded_by)

unfoldable pub record_adapter_rejection : String → String → Action ApprovalStore ApprovalError Unit
record_adapter_rejection adapter reason = append_event (approval_adapter_rejected adapter reason)
