-- ===== src/Helper.antt =====
-- The checks of the privileged helper: allowlist, request and `validate_helper_request` in
-- crates/runlane-core/src/lib.rs. Whether the signature of a lease is genuine is a status that the
-- cryptographic layer provides.
pub mod Acceptance
pub mod Approved
mod Tests
use runlane.Prelude.{
  ℕ, String, Bool, true, false, not, ◌&&◌, List, any, leb, ◌==◌, Result, ok, err, ◌>>◌, refuse_if,
  if◌then◌else◌,
}
use runlane.Domain.{
  ActionKind, action_eq, ActionTarget, target_eq, CapabilityLeaseClaims, SignedCapabilityLease,
  HelperActionStatus,
}

pub data LeaseSignatureStatus : Type 0 where
  valid invalid : LeaseSignatureStatus

-- the derived `PartialEq`, against `Valid`
abbrev pub is_valid_signature : LeaseSignatureStatus → Bool
is_valid_signature valid = true
is_valid_signature invalid = false

pub record HelperAllowlistEntry : Type 0 where
  pub id : String
  pub action : ActionKind
  pub target_resource_id : String

-- `HelperAllowlistEntry::permits`
abbrev pub entry_permits : HelperAllowlistEntry → ActionKind → ActionTarget → Bool
entry_permits entry action target =
    action_eq entry.action action && entry.target_resource_id == target.resource_id

pub record HelperAllowlist : Type 0 where
  pub entries : List HelperAllowlistEntry

unfoldable pub permits : HelperAllowlist → String → ActionKind → ActionTarget → Bool
permits allowlist entry_id action target =
    any (λ entry. entry.id == entry_id && entry_permits entry action target) allowlist.entries

pub record HelperArgument : Type 0 where
  pub name : String
  pub value : String

pub record HelperActionRequest : Type 0 where
  pub lease_id : String
  pub action : ActionKind
  pub target : ActionTarget
  pub arguments : List HelperArgument

pub record HelperActionResponse : Type 0 where
  pub status : HelperActionStatus
  pub message : String

pub record HelperValidationContext : Type 0 where
  pub node_id : String
  pub now_unix_seconds : ℕ
  pub signature_status : LeaseSignatureStatus
  pub seen_nonces : List String
  pub allowlist : HelperAllowlist

pub data HelperRejection : Type 0 where
  invalid_signature expired_lease replayed_nonce node_mismatch : HelperRejection
  lease_mismatch action_mismatch target_mismatch local_allowlist_denied : HelperRejection

pub record AcceptedHelperInvocation : Type 0 where
  pub lease_id : String
  pub run_id : String
  pub approval_id : String
  pub action : ActionKind
  pub target : ActionTarget

abbrev pub accepted_invocation : CapabilityLeaseClaims → AcceptedHelperInvocation
accepted_invocation claims = record {
  lease_id = claims.lease_id;
  run_id = claims.run_id;
  approval_id = claims.approval_id;
  action = claims.action;
  target = claims.target;
}

unfoldable pub validate_helper_request :
    HelperActionRequest
    → SignedCapabilityLease
    → HelperValidationContext
    → Result HelperRejection AcceptedHelperInvocation
validate_helper_request request lease context =
    let claims = lease.claims in
    do
      refuse_if (not (is_valid_signature context.signature_status)) invalid_signature
      refuse_if (leb claims.expires_at_unix_seconds context.now_unix_seconds) expired_lease
      refuse_if (any (λ nonce. nonce == claims.nonce) context.seen_nonces) replayed_nonce
      refuse_if (not (claims.node_id == context.node_id)) node_mismatch
      refuse_if (not (claims.lease_id == request.lease_id)) lease_mismatch
      refuse_if (not (action_eq claims.action request.action)) action_mismatch
      refuse_if (not (target_eq claims.target request.target)) target_mismatch
      refuse_if
          (not (permits context.allowlist claims.allowlist_entry_id request.action request.target))
          local_allowlist_denied
      ok (accepted_invocation claims)
