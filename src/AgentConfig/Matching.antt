-- ===== src/AgentConfig/Matching.antt =====
-- When an identity agrees with its configuration.
use runlane.Prelude.{◌↔◌, ◌≡◌, sym, ap, ◌∙◌, true, ◌==◌, eq_iff, ok, arith}
use runlane.Domain.{OperatingSystem}
use runlane.AgentConfig.{
  AgentConfig, AgentIdentityMetadata, parse_operating_system, format_operating_system,
}
use runlane.AgentConfig.Shapes.{parse-format}
use runlane.AgentConfig.State.{validate_identity_matches_config}

-- the fields that an identity shares with its configuration
pub record Matches (config : AgentConfig) (identity : AgentIdentityMetadata) : Type 0 where
  pub same_node : config.node_id ≡ identity.node_id
  pub same_platform : config.platform_family ≡ identity.platform_family
  pub same_root : config.server_trust_root_path ≡ identity.server_trust_root_path
  pub same_certificate : config.certificate_path ≡ identity.certificate_path
  pub same_key : config.private_key_path ≡ identity.private_key_path

format-injective :
    (a b : OperatingSystem)
    → (format_operating_system a == format_operating_system b) ≡ true
    → a ≡ b
format-injective a b h =
    let names = (eq_iff (format_operating_system a) (format_operating_system b)).0 h in
    let same : ok a ≡ ok b =
      sym (parse-format (λ s. s) a)
      ∙ ap (parse_operating_system (λ s. s)) names
      ∙ parse-format (λ s. s) b in
    ground arith

pub validate_identity_iff :
    (config : AgentConfig) (identity : AgentIdentityMetadata)
    → (validate_identity_matches_config config identity ≡ ok tt) ↔ Matches config identity
unfolding validate_identity_matches_config
validate_identity_iff config identity = (
  λ h. record {
    same_node = (eq_iff config.node_id identity.node_id).0 (ground arith);
    same_platform = format-injective config.platform_family identity.platform_family (ground arith);
    same_root =
        (eq_iff config.server_trust_root_path identity.server_trust_root_path).0 (ground arith);
    same_certificate = (eq_iff config.certificate_path identity.certificate_path).0 (ground arith);
    same_key = (eq_iff config.private_key_path identity.private_key_path).0 (ground arith);
  },
  λ matches.
      let node = (eq_iff config.node_id identity.node_id).1 matches.same_node in
      let platform =
        (eq_iff (format_operating_system config.platform_family)
            (format_operating_system identity.platform_family)).1
          (ap format_operating_system matches.same_platform) in
      let root =
        (eq_iff config.server_trust_root_path identity.server_trust_root_path).1
          matches.same_root in
      let certificate =
        (eq_iff config.certificate_path identity.certificate_path).1 matches.same_certificate in
      let key = (eq_iff config.private_key_path identity.private_key_path).1 matches.same_key in
      ground arith,
)
