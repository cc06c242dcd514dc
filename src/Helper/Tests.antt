-- ===== src/Helper/Tests.antt =====
-- The helper at the demo's approval.
use mathlib.Core.List.{mem-cons_self, not-mem-nil}
use runlane.Prelude.{◌≡◌, refl, [], ◌∷◌, ok}
use runlane.Text.{format, strip_prefix, first_segment}
use runlane.Domain.{CapabilityLeaseClaims, service_restart, SignedCapabilityLease, approved}
use runlane.Audit.{approval_decision, append, next_sequence}
use runlane.Approval as Approval
use runlane.Approval.{
  ApprovalStore, approve, ensure_pending_not_stale, append_event, node_from_target, has_id,
  ApprovalRecord,
}
use runlane.Approval.Store.{claims_of, moved}
use runlane.Approval.Samples.{restart_record, restart_store}
use runlane.Approval.Demo.{demo_service}
use runlane.Helper.{
  valid, HelperAllowlist, HelperValidationContext, accepted_invocation, permits,
  validate_helper_request,
}
use runlane.Helper.Acceptance.{Permitted, validate_helper_request_iff}
use runlane.Helper.Approved.{request_of, approve-accepted}

abbrev claims : CapabilityLeaseClaims
claims = claims_of "approval-demo-1" restart_record service_restart "sshd-restart" "nonce-1"

abbrev lease : SignedCapabilityLease
lease = record { claims = claims; key_id = "key-1"; signature = "opaque" }

abbrev allowlist : HelperAllowlist
allowlist = record {
  entries =
      record { id = "sshd-restart"; action = service_restart; target_resource_id = demo_service }
      ∷ [];
}

abbrev context : HelperValidationContext
context = record {
  node_id = "prod-web-01";
  now_unix_seconds = 150;
  signature_status = valid;
  seen_nonces = [];
  allowlist = allowlist;
}

abbrev approved_store : ApprovalStore
approved_store =
    moved "approval-demo-1" Approval.approved (approval_decision "approval-demo-1" "alice" approved)
      restart_store

approve_step :
    approve "approval-demo-1" "restart-service" "alice" 150 "sshd-restart" "nonce-1" restart_store
    ≡ (ok claims, approved_store)
unfolding approve ensure_pending_not_stale append_event append next_sequence
approve_step = refl

validate_helper_request_iff_example : Permitted (request_of claims []) lease context
unfolding validate_helper_request permits node_from_target strip_prefix first_segment format
validate_helper_request_iff_example =
    (validate_helper_request_iff (request_of claims []) lease context).0 refl

approve-accepted_example :
    validate_helper_request (request_of claims []) lease context ≡ ok (accepted_invocation claims)
unfolding node_from_target strip_prefix first_segment
approve-accepted_example =
    approve-accepted "approval-demo-1" "restart-service" "alice" 150 "sshd-restart" "nonce-1"
      restart_store approved_store claims lease context [] approve_step refl refl refl refl
      not-mem-nil mem-cons_self
