-- ===== src/AgentConfig/State.antt =====
-- What the agent does with its configuration and identity, crates/runlane-agent/src/config.rs. The
-- YAML of both files is a parameter.
use runlane.Prelude.{
  String, Bool, not, [], ◌∷◌, ◌==◌, Result, map_err, refuse_if, for_each, if◌then◌else◌,
}
use runlane.Prelude.Action.{Action, ◌>>=◌, ◌>>◌, pure, lift, gets, reject_if, rethrow}
use runlane.Text.{format}
use runlane.Domain.{OperatingSystem, os_eq}
use runlane.AgentConfig.{
  AgentConfig, AgentConfigFile, AgentIdentityMetadata, AgentIdentityFile, AgentState,
  InitConfigOptions, InstallIdentityOptions, AgentConfigError, io, yaml, identity_mismatch,
  platform_mismatch, format_operating_system,
}
use runlane.AgentConfig.Checks.{
  to_file, identity_to_file, from_config, validate_shape, from_file, identity_from_file,
}
use runlane.AgentConfig.Files.{
  FileSystem, Octal, require_regular_file, require_directory, reject_group_or_other_writable,
  check_config_file_permissions, check_secret_file_permissions, create_parent,
  write_yaml_restrictive,
}

-- `serde_yaml` at the two types, with the text of its errors
pub record ConfigCodec : Type 0 where
  pub read_config : String → Result String AgentConfigFile
  pub write_config : AgentConfigFile → Result String String
  pub read_identity : String → Result String AgentIdentityFile
  pub write_identity : AgentIdentityFile → Result String String

abbrev pub compare_field : String × String × String → Result AgentConfigError Unit
compare_field (field, config_value, identity_value) =
    refuse_if (not (config_value == identity_value))
      (identity_mismatch field config_value identity_value)

unfoldable pub validate_identity_matches_config :
    AgentConfig → AgentIdentityMetadata → Result AgentConfigError Unit
validate_identity_matches_config config identity = for_each compare_field (
    ("node_id", config.node_id, identity.node_id)
    ∷ (
      "platform_family",
      format_operating_system config.platform_family,
      format_operating_system identity.platform_family,
    )
    ∷ ("server_trust_root_path", config.server_trust_root_path, identity.server_trust_root_path)
    ∷ ("certificate_path", config.certificate_path, identity.certificate_path)
    ∷ ("private_key_path", config.private_key_path, identity.private_key_path)
    ∷ [])

-- what the functions below share: the file system, the YAML, and the parameters of their texts
pub record Host (W : Type 0) : Type 0 where
  pub files : FileSystem W
  pub codec : ConfigCodec
  pub octal : Octal
  pub is_absolute : String → Bool
  pub debug_str : String → String

module _ {W : Type 0} (host : Host W) where
  abbrev read_file : String → Action W AgentConfigError String
  read_file path world = (map_err (io path) (host.files.read_to_string path world), world)

  unfoldable pub init_config : InitConfigOptions → Action W AgentConfigError Unit
  init_config options = do
    lift (validate_shape host.is_absolute options.config)
    create_parent host.files host.octal (host.files.parent options.config_path)
    rethrow (io options.config.spool_dir) (host.files.create_dir_all options.config.spool_dir)
    rethrow (io options.config.spool_dir)
        (host.files.set_permissions options.config.spool_dir 0o700)
    write_yaml_restrictive host.files host.octal options.config_path
        (host.codec.write_config (to_file options.config)) options.force

  unfoldable pub load_config : String → Action W AgentConfigError AgentConfig
  load_config path = do
    body ← read_file path
    file ← lift (map_err (yaml path) (host.codec.read_config body))
    lift (from_file host.is_absolute host.debug_str file)

  unfoldable pub load_identity : String → Action W AgentConfigError AgentIdentityMetadata
  load_identity path = do
    body ← read_file path
    file ← lift (map_err (yaml path) (host.codec.read_identity body))
    lift (identity_from_file host.is_absolute host.debug_str file)

  unfoldable pub validate_config_prerequisites : AgentConfig → Action W AgentConfigError Unit
  validate_config_prerequisites config = do
    require_regular_file host.files host.octal config.server_trust_root_path "server trust root"
    reject_group_or_other_writable host.files host.octal config.server_trust_root_path
    require_regular_file host.files host.octal config.certificate_path "agent certificate"
    reject_group_or_other_writable host.files host.octal config.certificate_path
    require_regular_file host.files host.octal config.private_key_path "agent private key"
    check_secret_file_permissions host.files host.octal config.private_key_path
    require_directory host.files host.octal config.spool_dir "agent spool directory"
    reject_group_or_other_writable host.files host.octal config.spool_dir

  unfoldable pub install_identity :
      InstallIdentityOptions → Action W AgentConfigError AgentIdentityMetadata
  install_identity options = do
    check_config_file_permissions host.files host.octal options.config_path
    config ← load_config options.config_path
    validate_config_prerequisites config
    identity ← lift (
        from_config config options.certificate_fingerprint options.enrolled_at_unix_seconds
          options.expires_at_unix_seconds)
    write_yaml_restrictive host.files host.octal config.identity_path
        (host.codec.write_identity (identity_to_file identity)) options.force
    pure identity

  unfoldable pub validate_agent_state :
      String → OperatingSystem → Action W AgentConfigError AgentState
  validate_agent_state config_path detected_platform = do
    check_config_file_permissions host.files host.octal config_path
    config ← load_config config_path
    validate_config_prerequisites config
    reject_if (not (os_eq config.platform_family detected_platform))
        (platform_mismatch config.platform_family detected_platform)
    check_secret_file_permissions host.files host.octal config.identity_path
    identity ← load_identity config.identity_path
    lift (validate_identity_matches_config config identity)
    pure (record { config = config; identity = identity })

  unfoldable pub show_config : String → Action W AgentConfigError String
  show_config config_path = do
    check_config_file_permissions host.files host.octal config_path
    config ← load_config config_path
    present ← gets (host.files.exists config.identity_path)
    pure (
        format (
          "node_id: "
          ∷ config.node_id
          ∷ "\nserver_url: "
          ∷ config.server_url
          ∷ "\nplatform_family: "
          ∷ format_operating_system config.platform_family
          ∷ "\nidentity_path: "
          ∷ config.identity_path
          ∷ "\nidentity: "
          ∷ (if present then "present" else "missing")
          ∷ "\nspool_dir: "
          ∷ config.spool_dir
          ∷ "\n"
          ∷ []))
