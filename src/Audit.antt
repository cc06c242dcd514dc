-- ===== src/Audit.antt =====
-- The append-only audit ledger: `AuditEventKind`, `AuditEvent` and `AuditLedger` in
-- crates/runlane-core/src/lib.rs.
pub mod Numbering
mod Tests
use runlane.Prelude.{
  ℕ, ◌+◌, String, List, [], ◌∷◌, ◌++◌, ok, err, nat_eq, not, length, if◌then◌else◌,
}
use runlane.Prelude.Action.{Action, ◌>>=◌, ◌>>◌, gets, modify, reject_if}
use runlane.Domain.{
  OperatingSystem, LeaseMode, SpoolReason, VerificationPlan, SkippedVerification, ActionKind,
  ActionTarget, HelperActionStatus, ApprovalOutcome,
}
use runlane.Text.{format, show_u64}
use runlane.Run.{RunState}
use runlane.Scheduler.{SchedulerDecision}

-- the fields of each event are in the order of the source
pub data AuditEventKind : Type 0 where
  -- token id, node id
  enrollment_token_created : String → String → AuditEventKind
  -- node id, platform
  agent_enrolled : String → OperatingSystem → AuditEventKind
  -- envelope id, task id, node id
  agent_task_pulled : String → String → String → AuditEventKind
  -- node id, reason
  agent_task_rejected : String → String → AuditEventKind
  -- envelope id, task id, node id
  agent_result_accepted : String → String → String → AuditEventKind
  -- envelope id, reason
  agent_result_rejected : String → String → AuditEventKind
  -- spool id, reason
  agent_result_spooled : String → SpoolReason → AuditEventKind
  -- incident id, node id, runbook
  incident_created : String → String → String → AuditEventKind
  -- source
  evidence_collected : String → AuditEventKind
  -- proposal id, hypothesis
  proposal_generated : String → String → AuditEventKind
  -- lease id, approval id
  capability_lease_issued : String → String → AuditEventKind
  -- check id, resource id
  verification_completed : String → String → AuditEventKind
  -- from, to
  run_state_transition : RunState → RunState → AuditEventKind
  -- task id, resource id, mode
  resource_lease_requested : String → String → LeaseMode → AuditEventKind
  -- lease id, resource id, mode
  resource_lease_granted : String → String → LeaseMode → AuditEventKind
  -- resource id, mode, reason
  resource_lease_denied : String → LeaseMode → String → AuditEventKind
  -- decision
  scheduler_decision : SchedulerDecision → AuditEventKind
  -- plan
  verification_selected : VerificationPlan → AuditEventKind
  -- skipped
  verification_skipped : SkippedVerification → AuditEventKind
  -- approval id, actor, outcome
  approval_decision : String → String → ApprovalOutcome → AuditEventKind
  -- approval id, proposal id, action id
  approval_requested : String → String → String → AuditEventKind
  -- approval id
  approval_expired : String → AuditEventKind
  -- approval id, superseded by
  approval_superseded : String → String → AuditEventKind
  -- adapter, reason
  approval_adapter_rejected : String → String → AuditEventKind
  -- action, target, status
  action_result : ActionKind → ActionTarget → HelperActionStatus → AuditEventKind
  -- receipt id
  cognitive_receipt_generated : String → AuditEventKind

pub record AuditEvent : Type 0 where
  pub id : String
  pub run_id : String
  pub sequence : ℕ
  pub kind : AuditEventKind

pub record AuditLedger : Type 0 where
  pub events : List AuditEvent

-- `AuditLedger::empty`
abbrev pub empty_ledger : AuditLedger
empty_ledger = record { events = [] }

-- expected and actual sequence
pub data AuditAppendError : Type 0 where
  non_monotonic_sequence : ℕ → ℕ → AuditAppendError

unfoldable pub next_sequence : AuditLedger → ℕ
next_sequence ledger = length ledger.events + 1

unfoldable pub append : AuditEvent → Action AuditLedger AuditAppendError Unit
append event = do
  expected ← gets next_sequence
  reject_if (not (nat_eq event.sequence expected)) (non_monotonic_sequence expected event.sequence)
  modify (λ ledger. record { events = ledger.events ++ event ∷ [] })

-- A list of events appended one after the other, up to the first that is refused.
unfoldable pub append_all : List AuditEvent → Action AuditLedger AuditAppendError Unit
append_all [] = λ ledger. (ok tt, ledger)
append_all (event ∷ rest) = do append event; append_all rest

-- The event that a component appends next: its id is the component's prefix and the number.
abbrev pub next_event : String → String → AuditEventKind → AuditLedger → AuditEvent
next_event prefix run_id kind ledger = record {
  id = format (prefix ∷ show_u64 (next_sequence ledger) ∷ []);
  run_id = run_id;
  sequence = next_sequence ledger;
  kind = kind;
}
