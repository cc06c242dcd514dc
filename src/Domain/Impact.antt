-- ===== src/Domain/Impact.antt =====
-- Impact sets and verification plans (crates/runlane-core/src/lib.rs).
use runlane.Prelude.{String, List, []}
use runlane.Domain.Layer.{OperationalLayer}

pub record ImpactSet : Type 0 where
  pub layer : OperationalLayer
  pub writes : List String
  pub may_affect : List String
  pub does_not_affect : List String

-- `ImpactSet::empty`
abbrev pub empty_impact : OperationalLayer → ImpactSet
empty_impact layer = record { layer = layer; writes = []; may_affect = []; does_not_affect = [] }

pub data VerificationTier : Type 0 where
  precondition direct_impact dependent broad_regression : VerificationTier

pub record VerificationCheck : Type 0 where
  pub id : String
  pub resource_id : String
  pub tier : VerificationTier

pub record SkippedVerification : Type 0 where
  pub check_id : String
  pub reason : String

pub record VerificationPlan : Type 0 where
  pub required : List VerificationCheck
  pub conditional : List VerificationCheck
  pub skipped : List SkippedVerification

-- `VerificationPlan::empty`
abbrev pub empty_plan : VerificationPlan
empty_plan = record { required = []; conditional = []; skipped = [] }
