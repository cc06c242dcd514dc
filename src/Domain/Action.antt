-- ===== src/Domain/Action.antt =====
-- Typed actions, their targets and the claims of a capability lease
-- (crates/runlane-core/src/lib.rs).
use runlane.Prelude.{ℕ, Bool, true, false, ◌&&◌, String, ◌≡◌, ◌↔◌, arith, ◌==◌, eq_iff}

pub data ActionKind : Type 0 where
  service_restart service_reload package_update : ActionKind
  node_reboot run_allowlisted_script remove_allowlisted_file : ActionKind

-- the derived `PartialEq`
abbrev pub action_eq : ActionKind → ActionKind → Bool
action_eq service_restart service_restart = true
action_eq service_reload service_reload = true
action_eq package_update package_update = true
action_eq node_reboot node_reboot = true
action_eq run_allowlisted_script run_allowlisted_script = true
action_eq remove_allowlisted_file remove_allowlisted_file = true
action_eq _ _ = false

pub action_eq_iff : (a b : ActionKind) → (action_eq a b ≡ true) ↔ (a ≡ b)
action_eq_iff a b = ground arith

pub record ActionTarget : Type 0 where
  pub resource_id : String
  pub subject : String

-- the derived `PartialEq`
abbrev pub target_eq : ActionTarget → ActionTarget → Bool
target_eq a b = a.resource_id == b.resource_id && a.subject == b.subject

pub target_eq_iff : (a b : ActionTarget) → (target_eq a b ≡ true) ↔ (a ≡ b)
target_eq_iff a b = ground (arith, eq_iff a.resource_id b.resource_id, eq_iff a.subject b.subject)

pub record CapabilityLeaseClaims : Type 0 where
  pub lease_id : String
  pub run_id : String
  pub approval_id : String
  pub node_id : String
  pub action : ActionKind
  pub target : ActionTarget
  pub allowlist_entry_id : String
  pub expires_at_unix_seconds : ℕ
  pub nonce : String

pub record SignedCapabilityLease : Type 0 where
  pub claims : CapabilityLeaseClaims
  pub key_id : String
  pub signature : String

pub data HelperActionStatus : Type 0 where
  succeeded failed denied : HelperActionStatus

pub data ApprovalOutcome : Type 0 where
  approved rejected : ApprovalOutcome
