-- ===== src/AgentConfig/Tests.antt =====
-- Runs of the agent's configuration.
use runlane.Prelude.{
  ℕ, ◌≡◌, ◌↔◌, refl, String, true, false, Option, none, some, ◌==◌, ok, if◌then◌else◌,
}
use runlane.Text.{format, is_blank}
use runlane.Domain.{linux, open_bsd}
use runlane.AgentConfig.{
  AgentConfig, InitConfigOptions, InstallIdentityOptions, display, platform_mismatch,
  parse_operating_system,
}
use runlane.AgentConfig.Checks.{
  from_config, to_file, validate_shape, validate_identity_shape, validate_node_id, has_separator,
  from_file, identity_from_file,
}
use runlane.AgentConfig.Files.{
  check_config_file_permissions, check_secret_file_permissions, require_regular_file,
  require_directory, reject_group_or_other_writable, reject_group_or_other_accessible,
  write_yaml_restrictive,
}
use runlane.AgentConfig.State.{
  init_config, install_identity, load_config, load_identity, validate_config_prerequisites,
  validate_identity_matches_config, validate_agent_state,
}
use runlane.AgentConfig.Enrolled.{install_identity-load}
use runlane.AgentConfig.Shapes.{from_file_iff}
use runlane.AgentConfig.Written.{init_config-load}
use runlane.AgentConfig.Startup.{Started, validate_agent_state_iff}
use runlane.AgentConfig.Nodes.{
  Node, World, alter, with_text, with_mode, opened, made_directory, nodes, nodes-Faithful,
}
use runlane.AgentConfig.Samples.{config, identity, codec-ReadsBack, is_rooted, host}

from_file_iff_example :
    (from_file is_rooted (λ s. s) (to_file config) ≡ ok config)
    ↔ ((to_file config ≡ to_file config) × (validate_shape is_rooted config ≡ ok tt))
from_file_iff_example = from_file_iff is_rooted (λ s. s) (to_file config) config

display_test :
    display (λ s. s) (platform_mismatch linux open_bsd)
    ≡ "configured platform Linux does not match detected platform OpenBsd"
unfolding display format
display_test = refl

abbrev options : InitConfigOptions
options = record { config_path = "/config"; config = config; force = false }

abbrev empty : World
empty path = none

abbrev initialised : World
initialised = alter "/config" (with_mode 0o600) (
    alter "/config" (with_text "config") (
      alter "/config" (opened 0o600)
        (alter "/spool" (with_mode 0o700) (alter "/spool" made_directory empty))))

init_config-load_example :
    (check_config_file_permissions nodes (λ n. "") "/config" initialised ≡ (ok tt, initialised))
    × (load_config host "/config" initialised ≡ (ok config, initialised))
unfolding init_config validate_shape validate_node_id has_separator write_yaml_restrictive is_blank
init_config-load_example =
    init_config-load host options empty initialised nodes-Faithful codec-ReadsBack refl

abbrev node_of : ℕ → String → Option Node
node_of mode text = some (record { text = text; mode = mode; directory = false })

abbrev installed : World
installed path =
    if path == "/config"
    then node_of 0o644 "config"
    else if path == "/id"
    then node_of 0o600 "identity"
    else if path == "/key"
    then node_of 0o400 ""
    else if path == "/spool"
    then some (record { text = ""; mode = 0o700; directory = true })
    else node_of 0o444 ""

start_test :
    Started host "/config" open_bsd installed (record { config = config; identity = identity })
    × (installed ≡ installed)
unfolding validate_agent_state check_config_file_permissions check_secret_file_permissions
    require_regular_file require_directory reject_group_or_other_writable
    reject_group_or_other_accessible load_config load_identity validate_config_prerequisites
    validate_identity_matches_config from_file identity_from_file parse_operating_system
    validate_shape validate_identity_shape validate_node_id has_separator is_blank
start_test =
    (validate_agent_state_iff host "/config" open_bsd installed installed
        (record { config = config; identity = identity })).0
      refl

validate_agent_state_iff_example :
    (validate_agent_state host "/config" open_bsd installed
      ≡ (ok (record { config = config; identity = identity }), installed))
    ↔ (Started host "/config" open_bsd installed (record { config = config; identity = identity })
        × (installed ≡ installed))
validate_agent_state_iff_example =
    validate_agent_state_iff host "/config" open_bsd installed installed
      (record { config = config; identity = identity })

abbrev enrolment : InstallIdentityOptions
enrolment = record {
  config_path = "/config";
  certificate_fingerprint = "f";
  enrolled_at_unix_seconds = 1;
  expires_at_unix_seconds = some 2;
  force = true;
}

abbrev enrolled : World
enrolled =
    alter "/id" (with_mode 0o600)
      (alter "/id" (with_text "identity") (alter "/id" (opened 0o600) installed))

install_identity-load_example :
    (loaded : AgentConfig) × (load_config host "/config" installed ≡ (ok loaded, installed))
    × (validate_identity_matches_config loaded identity ≡ ok tt)
    × (check_secret_file_permissions nodes (λ n. "") loaded.identity_path enrolled
        ≡ (ok tt, enrolled))
    × (load_identity host loaded.identity_path enrolled ≡ (ok identity, enrolled))
unfolding install_identity check_config_file_permissions check_secret_file_permissions
    require_regular_file require_directory reject_group_or_other_writable
    reject_group_or_other_accessible load_config validate_config_prerequisites from_config
    write_yaml_restrictive from_file parse_operating_system validate_shape validate_node_id
    has_separator is_blank
install_identity-load_example =
    install_identity-load host enrolment installed enrolled identity nodes-Faithful codec-ReadsBack
      refl
