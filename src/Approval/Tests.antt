-- ===== src/Approval/Tests.antt =====
-- The approval store at the demo's approval.
use runlane.Prelude.{List, ◌≡◌, refl, some, [], ◌∷◌, ok}
use runlane.Text.{format, join, contains, to_ascii_lowercase, show_u64}
use runlane.Analyzer.{
  analyze_service_unhealthy, service_finding, service_active, service_unhealthy,
  evidence_unsupported, service_resource_id,
}
use runlane.Domain.{approved, CapabilityLeaseClaims, service_restart}
use runlane.Audit.{approval_decision, append, next_sequence}
use runlane.Approval.{
  ApprovalStore, new_record, approve, ensure_pending_not_stale, node_from_target, empty_store,
  append_event, request, reject, expire,
}
use runlane.Approval as Approval
use runlane.Approval.Store.{claims_of, moved}
use runlane.Approval.Demo.{demo_approval_store, demo_record, demo_proposal}
use runlane.Approval.Samples.{restart_record, restart_store}
use runlane.Approval.Lifecycle.{
  Call, request_call, approve_call, reject_call, expire_call, after_all, IsClosed, approve-once,
}
use runlane.Approval.Ledger.{Balanced, after_all-Balanced, empty-Balanced}

-- the demo's store is the one with the sample record
demo_test : demo_approval_store ≡ some restart_store
unfolding demo_approval_store demo_record demo_proposal new_record request append_event append
    next_sequence analyze_service_unhealthy service_finding service_active service_unhealthy
    evidence_unsupported service_resource_id format join contains to_ascii_lowercase show_u64
demo_test = refl

abbrev approved_store : ApprovalStore
approved_store =
    moved "approval-demo-1" Approval.approved (approval_decision "approval-demo-1" "alice" approved)
      restart_store

abbrev restart_claims : CapabilityLeaseClaims
restart_claims = claims_of "approval-demo-1" restart_record service_restart "sshd-restart" "nonce-1"

approve_test :
    approve "approval-demo-1" "restart-service" "alice" 150 "sshd-restart" "nonce-1" restart_store
    ≡ (ok restart_claims, approved_store)
unfolding approve ensure_pending_not_stale append_event append next_sequence
approve_test = refl

-- the calls that follow the approval
abbrev later_calls : List Call
later_calls =
    reject_call "approval-demo-1" "bob" 151
    ∷ expire_call "approval-demo-1" 300
    ∷ request_call restart_record
    ∷ []

approve-once_example : IsClosed "approval-demo-1" (after_all later_calls approved_store)
approve-once_example =
    approve-once "approval-demo-1" "restart-service" "alice" 150 "sshd-restart" "nonce-1"
      restart_store restart_claims approved_store later_calls approve_test

-- a request and its approval
abbrev first_calls : List Call
first_calls =
    request_call restart_record
    ∷ approve_call "approval-demo-1" "restart-service" "alice" 150 "sshd-restart" "nonce-1"
    ∷ []

after_all-Balanced_example : Balanced (after_all first_calls empty_store)
after_all-Balanced_example =
    after_all-Balanced first_calls empty_store (refl, (tt, tt)) empty-Balanced
