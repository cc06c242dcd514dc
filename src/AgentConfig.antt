-- ===== src/AgentConfig.antt =====
-- The agent's configuration and identity, crates/runlane-agent/src/config.rs: the records, their
-- shapes and their files. A path is its text.
pub mod Checks
pub mod Files
pub mod State
pub mod Shapes
pub mod Written
pub mod Enrolled
pub mod Installed
pub mod Modes
pub mod Matching
pub mod Prerequisites
pub mod Startup
pub mod Nodes
pub mod Samples
mod Tests
use Prim.Native.Char.{Char, code}
use Prim.Native.String as S
use text.Mathlib.Text.{starts_with}
use runlane.Prelude.{
  ℕ, String, Bool, true, false, not, ◌||◌, Option, none, some, List, [], ◌∷◌, leb, nat_eq, ◌==◌,
  Result, ok, err, ◌>>=◌, ◌>>◌, refuse_if, for_each, if◌then◌else◌,
}
use runlane.Text.{format, is_whitespace, is_blank}
use runlane.Domain.{OperatingSystem, linux, free_bsd, open_bsd, solaris, illumos, unknown}

-- `AgentConfig::new` is its constructor
pub record AgentConfig : Type 0 where
  pub node_id : String
  pub server_url : String
  pub server_trust_root_path : String
  pub identity_path : String
  pub certificate_path : String
  pub private_key_path : String
  pub spool_dir : String
  pub platform_family : OperatingSystem

pub record AgentConfigFile : Type 0 where
  pub node_id : String
  pub server_url : String
  pub server_trust_root_path : String
  pub identity_path : String
  pub certificate_path : String
  pub private_key_path : String
  pub spool_dir : String
  pub platform_family : String

pub record AgentIdentityMetadata : Type 0 where
  pub node_id : String
  pub platform_family : OperatingSystem
  pub certificate_fingerprint : String
  pub server_trust_root_path : String
  pub certificate_path : String
  pub private_key_path : String
  pub enrolled_at_unix_seconds : ℕ
  pub expires_at_unix_seconds : Option ℕ

pub record AgentIdentityFile : Type 0 where
  pub node_id : String
  pub platform_family : String
  pub certificate_fingerprint : String
  pub server_trust_root_path : String
  pub certificate_path : String
  pub private_key_path : String
  pub enrolled_at_unix_seconds : ℕ
  pub expires_at_unix_seconds : Option ℕ

pub record AgentState : Type 0 where
  pub config : AgentConfig
  pub identity : AgentIdentityMetadata

pub record InitConfigOptions : Type 0 where
  pub config_path : String
  pub config : AgentConfig
  pub force : Bool

pub record InstallIdentityOptions : Type 0 where
  pub config_path : String
  pub certificate_fingerprint : String
  pub enrolled_at_unix_seconds : ℕ
  pub expires_at_unix_seconds : Option ℕ
  pub force : Bool

-- the sources of the first two are given by their text
pub data AgentConfigError : Type 0 where
  -- path, source
  io yaml : String → String → AgentConfigError
  -- field, reason
  invalid_field : String → String → AgentConfigError
  -- path, reason
  permission preflight : String → String → AgentConfigError
  -- field, config value, identity value
  identity_mismatch : String → String → String → AgentConfigError
  -- configured, detected
  platform_mismatch : OperatingSystem → OperatingSystem → AgentConfigError
  -- path
  already_exists : String → AgentConfigError

abbrev pub format_operating_system : OperatingSystem → String
format_operating_system linux = "linux"
format_operating_system free_bsd = "freebsd"
format_operating_system open_bsd = "openbsd"
format_operating_system solaris = "solaris"
format_operating_system illumos = "illumos"
format_operating_system unknown = "unknown"

-- the derived `Debug`
abbrev pub debug_os : OperatingSystem → String
debug_os linux = "Linux"
debug_os free_bsd = "FreeBsd"
debug_os open_bsd = "OpenBsd"
debug_os solaris = "Solaris"
debug_os illumos = "Illumos"
debug_os unknown = "Unknown"

-- `{:?}` of a text is a parameter
unfoldable pub display : (String → String) → AgentConfigError → String
display debug_str (io path source) = format (path ∷ ": " ∷ source ∷ [])
display debug_str (yaml path source) = format (path ∷ ": invalid YAML: " ∷ source ∷ [])
display debug_str (invalid_field field reason) = format (field ∷ ": " ∷ reason ∷ [])
display debug_str (permission path reason) = format (path ∷ ": unsafe permissions: " ∷ reason ∷ [])
display debug_str (preflight path reason) = format (path ∷ ": " ∷ reason ∷ [])
display debug_str (identity_mismatch field config_value identity_value) = format (
    "identity "
    ∷ field
    ∷ " mismatch: config has "
    ∷ debug_str config_value
    ∷ ", identity has "
    ∷ debug_str identity_value
    ∷ [])
display debug_str (platform_mismatch configured detected) = format (
    "configured platform "
    ∷ debug_os configured
    ∷ " does not match detected platform "
    ∷ debug_os detected
    ∷ [])
display debug_str (already_exists path) =
    format (path ∷ " already exists; pass --force to replace it" ∷ [])

unfoldable pub parse_operating_system :
    (String → String) → String → Result AgentConfigError OperatingSystem
parse_operating_system debug_str value =
    if value == "linux"
    then ok linux
    else if value == "freebsd"
    then ok free_bsd
    else if value == "openbsd"
    then ok open_bsd
    else if value == "solaris"
    then ok solaris
    else if value == "illumos"
    then ok illumos
    else if value == "unknown"
    then ok unknown
    else err
        (invalid_field "platform_family" (format ("unsupported value " ∷ debug_str value ∷ [])))
