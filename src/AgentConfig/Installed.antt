-- ===== src/AgentConfig/Installed.antt =====
-- What an installed identity is.
use runlane.Prelude.{
  ℕ, ◌≡◌, refl, String, Bool, false, Option, eq_iff, ok, then_iff, refuse_if_iff, arith,
}
use runlane.Text.{is_blank}
use runlane.AgentConfig.{AgentConfig, AgentIdentityMetadata, format_operating_system}
use runlane.AgentConfig.Checks.{is_expired_at, from_config, validate_shape, validate_identity_shape}
use runlane.AgentConfig.Shapes.{validate_shape_iff}
use runlane.AgentConfig.State.{validate_identity_matches_config}

-- the identity of a configuration
pub record Describes (config : AgentConfig) (fingerprint : String) (enrolled : ℕ)
    (expires : Option ℕ) (identity : AgentIdentityMetadata) : Type 0 where
  pub present : is_blank fingerprint ≡ false
  pub unexpired : is_expired_at expires enrolled ≡ false
  pub fields : identity ≡ record {
    node_id = config.node_id;
    platform_family = config.platform_family;
    certificate_fingerprint = fingerprint;
    server_trust_root_path = config.server_trust_root_path;
    certificate_path = config.certificate_path;
    private_key_path = config.private_key_path;
    enrolled_at_unix_seconds = enrolled;
    expires_at_unix_seconds = expires;
  }

from_config-Describes :
    (config : AgentConfig) (fingerprint : String) (enrolled : ℕ) (expires : Option ℕ)
    (identity : AgentIdentityMetadata)
    → from_config config fingerprint enrolled expires ≡ ok identity
    → Describes config fingerprint enrolled expires identity
unfolding from_config
from_config-Describes config fingerprint enrolled expires identity h =
    let (present, h) = (then_iff _ _ identity).0 h in
    let (unexpired, h) = (then_iff _ _ identity).0 h in
    record {
      present = (refuse_if_iff (is_blank fingerprint) _).0 present;
      unexpired = (refuse_if_iff (is_expired_at expires enrolled) _).0 unexpired;
      fields = ground arith;
    }

module _ (is_absolute : String → Bool) where
  -- the shape of a configuration is the shape of its identity
  pub from_config-shape :
      (config : AgentConfig) (fingerprint : String) (enrolled : ℕ) (expires : Option ℕ)
      (identity : AgentIdentityMetadata)
      → validate_shape is_absolute config ≡ ok tt
      → from_config config fingerprint enrolled expires ≡ ok identity
      → validate_identity_shape is_absolute identity ≡ ok tt
  unfolding validate_identity_shape
  from_config-shape config fingerprint enrolled expires identity shaped h =
      let described = from_config-Describes config fingerprint enrolled expires identity h in
      let fine = (validate_shape_iff is_absolute config).0 shaped in
      let (root, (_, (certificate, (key, _)))) = fine.absolute in
      let node = fine.node_fine in
      let platform = fine.platform in
      let present = described.present in
      let unexpired = described.unexpired in rw (described.fields) (ground arith)

-- an identity agrees with the configuration that it was made from
pub from_config-matches :
    (config : AgentConfig) (fingerprint : String) (enrolled : ℕ) (expires : Option ℕ)
    (identity : AgentIdentityMetadata)
    → from_config config fingerprint enrolled expires ≡ ok identity
    → validate_identity_matches_config config identity ≡ ok tt
unfolding validate_identity_matches_config
from_config-matches config fingerprint enrolled expires identity h =
    let described = from_config-Describes config fingerprint enrolled expires identity h in
    rw (described.fields) (
      ground (
        arith,
        (eq_iff config.node_id config.node_id).1 refl,
        (eq_iff config.server_trust_root_path config.server_trust_root_path).1 refl,
        (eq_iff config.certificate_path config.certificate_path).1 refl,
        (eq_iff config.private_key_path config.private_key_path).1 refl,
        (eq_iff (format_operating_system config.platform_family)
              (format_operating_system config.platform_family)).1
            refl,
      ))
