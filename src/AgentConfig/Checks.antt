-- ===== src/AgentConfig/Checks.antt =====
-- The shapes of the agent's configuration and identity and their conversions from and to the form of
-- their files, crates/runlane-agent/src/config.rs.
use Prim.Native.Char.{Char, code}
use Prim.Native.String as S
use text.Mathlib.Text.{starts_with}
use runlane.Prelude.{
  ℕ, String, Bool, true, false, not, ◌||◌, Option, none, some, List, [], ◌∷◌, leb, nat_eq, Result,
  ok, ◌>>=◌, ◌>>◌, refuse_if, for_each,
}
use runlane.Text.{is_whitespace, is_blank}
use runlane.Domain.{OperatingSystem, linux, free_bsd, open_bsd}
use runlane.AgentConfig.{
  AgentConfig, AgentConfigFile, AgentIdentityMetadata, AgentIdentityFile, AgentConfigError,
  invalid_field, format_operating_system, parse_operating_system,
}

-- the characters that `validate_node_id` looks for
abbrev pub is_separator : Char → Bool
is_separator c =
    is_whitespace c || nat_eq (code c) b'/' || nat_eq (code c) b'\\' || nat_eq (code c) b':'

unfoldable pub has_separator : String → Bool
has_separator S.[] = false
has_separator (S.◌∷◌ c s) = is_separator c || has_separator s

unfoldable pub validate_node_id : String → Result AgentConfigError Unit
validate_node_id node_id = do
  refuse_if (is_blank node_id) (invalid_field "node_id" "must not be empty")
  refuse_if (has_separator node_id)
      (invalid_field "node_id" "must not contain whitespace, slash, backslash, or colon")

-- `matches!(platform, Linux | FreeBsd | OpenBsd)`
abbrev pub is_startup_platform : OperatingSystem → Bool
is_startup_platform linux = true
is_startup_platform free_bsd = true
is_startup_platform open_bsd = true
is_startup_platform _ = false

-- `expires.is_some_and(|expires| expires <= enrolled)`
abbrev pub is_expired_at : Option ℕ → ℕ → Bool
is_expired_at none enrolled = false
is_expired_at (some expires) enrolled = leb expires enrolled

abbrev pub to_file : AgentConfig → AgentConfigFile
to_file config = record {
  node_id = config.node_id;
  server_url = config.server_url;
  server_trust_root_path = config.server_trust_root_path;
  identity_path = config.identity_path;
  certificate_path = config.certificate_path;
  private_key_path = config.private_key_path;
  spool_dir = config.spool_dir;
  platform_family = format_operating_system config.platform_family;
}

-- `AgentIdentityMetadata::to_file`
abbrev pub identity_to_file : AgentIdentityMetadata → AgentIdentityFile
identity_to_file identity = record {
  node_id = identity.node_id;
  platform_family = format_operating_system identity.platform_family;
  certificate_fingerprint = identity.certificate_fingerprint;
  server_trust_root_path = identity.server_trust_root_path;
  certificate_path = identity.certificate_path;
  private_key_path = identity.private_key_path;
  enrolled_at_unix_seconds = identity.enrolled_at_unix_seconds;
  expires_at_unix_seconds = identity.expires_at_unix_seconds;
}

-- `AgentIdentityMetadata::from_config`
unfoldable pub from_config :
    AgentConfig → String → ℕ → Option ℕ → Result AgentConfigError AgentIdentityMetadata
from_config config fingerprint enrolled expires = do
  refuse_if (is_blank fingerprint) (invalid_field "certificate_fingerprint" "must not be empty")
  refuse_if (is_expired_at expires enrolled)
      (invalid_field "expires_at_unix_seconds" "must be greater than enrolled_at_unix_seconds")
  ok (record {
    node_id = config.node_id;
    platform_family = config.platform_family;
    certificate_fingerprint = fingerprint;
    server_trust_root_path = config.server_trust_root_path;
    certificate_path = config.certificate_path;
    private_key_path = config.private_key_path;
    enrolled_at_unix_seconds = enrolled;
    expires_at_unix_seconds = expires;
  })

-- the fields of a file, with its platform read
abbrev pub configured : AgentConfigFile → OperatingSystem → AgentConfig
configured file platform = record {
  node_id = file.node_id;
  server_url = file.server_url;
  server_trust_root_path = file.server_trust_root_path;
  identity_path = file.identity_path;
  certificate_path = file.certificate_path;
  private_key_path = file.private_key_path;
  spool_dir = file.spool_dir;
  platform_family = platform;
}

abbrev pub identified : AgentIdentityFile → OperatingSystem → AgentIdentityMetadata
identified file platform = record {
  node_id = file.node_id;
  platform_family = platform;
  certificate_fingerprint = file.certificate_fingerprint;
  server_trust_root_path = file.server_trust_root_path;
  certificate_path = file.certificate_path;
  private_key_path = file.private_key_path;
  enrolled_at_unix_seconds = file.enrolled_at_unix_seconds;
  expires_at_unix_seconds = file.expires_at_unix_seconds;
}

abbrev pub config_paths : AgentConfig → List (String × String)
config_paths config =
    ("server_trust_root_path", config.server_trust_root_path)
    ∷ ("identity_path", config.identity_path)
    ∷ ("certificate_path", config.certificate_path)
    ∷ ("private_key_path", config.private_key_path)
    ∷ ("spool_dir", config.spool_dir)
    ∷ []

abbrev pub identity_paths : AgentIdentityMetadata → List (String × String)
identity_paths identity =
    ("identity.server_trust_root_path", identity.server_trust_root_path)
    ∷ ("identity.certificate_path", identity.certificate_path)
    ∷ ("identity.private_key_path", identity.private_key_path)
    ∷ []

-- whether a path is absolute is a parameter
module _ (is_absolute : String → Bool) where
  abbrev pub refuse_relative : String → String × String → Result AgentConfigError Unit
  refuse_relative reason (field, path) =
      refuse_if (not (is_absolute path)) (invalid_field field reason)

  unfoldable pub validate_shape : AgentConfig → Result AgentConfigError Unit
  validate_shape config = do
    validate_node_id config.node_id
    refuse_if (not (starts_with config.server_url "https://")) (
        invalid_field "server_url"
          "must use https://; plaintext agent transport is not a valid startup configuration")
    refuse_if (not (is_startup_platform config.platform_family)) (
        invalid_field "platform_family" "must be linux, freebsd, or openbsd for v0.1 agent startup")
    for_each (refuse_relative "must be an absolute path so startup does not depend on cwd")
        (config_paths config)

  -- `AgentIdentityMetadata::validate_shape`
  unfoldable pub validate_identity_shape : AgentIdentityMetadata → Result AgentConfigError Unit
  validate_identity_shape identity = do
    validate_node_id identity.node_id
    refuse_if (not (is_startup_platform identity.platform_family))
        (invalid_field "identity.platform_family" "must be linux, freebsd, or openbsd")
    refuse_if (is_blank identity.certificate_fingerprint)
        (invalid_field "identity.certificate_fingerprint" "must not be empty")
    refuse_if (is_expired_at identity.expires_at_unix_seconds identity.enrolled_at_unix_seconds) (
        invalid_field "identity.expires_at_unix_seconds"
          "must be greater than enrolled_at_unix_seconds")
    for_each (refuse_relative "must be an absolute path") (identity_paths identity)

  module _ (debug_str : String → String) where
    unfoldable pub from_file : AgentConfigFile → Result AgentConfigError AgentConfig
    from_file file = do
      platform ← parse_operating_system debug_str file.platform_family
      config ← ok (configured file platform)
      validate_shape config
      ok config

    -- `AgentIdentityMetadata::from_file`
    unfoldable pub identity_from_file :
        AgentIdentityFile → Result AgentConfigError AgentIdentityMetadata
    identity_from_file file = do
      platform ← parse_operating_system debug_str file.platform_family
      identity ← ok (identified file platform)
      validate_identity_shape identity
      ok identity
