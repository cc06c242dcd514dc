-- ===== src/Domain/Node.antt =====
-- Capabilities, capability reports, agent identities and evidence
-- (crates/runlane-core/src/lib.rs).
use runlane.Prelude.{Bool, String, List, any, ◌==◌}
use runlane.Domain.Layer.{OperatingSystem}

pub record Capability : Type 0 where
  pub name : String

-- the derived `PartialEq`
abbrev pub capability_eq : Capability → Capability → Bool
capability_eq a b = a.name == b.name

pub record UnsupportedCapability : Type 0 where
  pub capability : Capability
  pub reason : String

pub record CapabilityReport : Type 0 where
  pub node_id : String
  pub os : OperatingSystem
  pub capabilities : List Capability
  pub unsupported : List UnsupportedCapability

unfoldable pub supports : CapabilityReport → Capability → Bool
supports report capability = any (λ existing. capability_eq existing capability) report.capabilities

pub record AgentIdentity : Type 0 where
  pub node_id : String
  pub certificate_fingerprint : String

pub record EvidenceEnvelope : Type 0 where
  pub source : String
  pub content_type : String
  pub body : String
  pub truncated : Bool

pub data SpoolReason : Type 0 where
  server_unavailable : SpoolReason
  submission_rejected : String → SpoolReason
