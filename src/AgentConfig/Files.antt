-- ===== src/AgentConfig/Files.antt =====
-- The checks of the agent's files and the writing of its secrets, crates/runlane-agent/src/config.rs,
-- on Unix. The file system is a parameter, with the state that it works on.
use Prim.Native.Nat.{bit_and}
use runlane.Prelude.{ℕ, String, Bool, not, Option, none, some, [], ◌∷◌, nat_eq, Result, map_err}
use runlane.Prelude.Action.{Action, ◌>>=◌, ◌>>◌, pure, lift, reject_if, rethrow}
use runlane.Text.{format}
use runlane.AgentConfig.{AgentConfigError, io, yaml, permission, preflight, already_exists}

pub record Metadata : Type 0 where
  pub is_file : Bool
  pub is_dir : Bool
  pub st_mode : ℕ

-- why a file is not opened
pub data OpenFailure : Type 0 where
  exists_already : OpenFailure
  other_failure : String → OpenFailure

-- the calls on the file system `W`, with the text of their errors
pub record FileSystem (W : Type 0) : Type 0 where
  pub metadata : String → W → Result String Metadata
  pub read_to_string : String → W → Result String String
  pub exists : String → W → Bool
  pub parent : String → Option String
  pub create_dir_all : String → Action W String Unit
  -- a path and a mode
  pub set_permissions : String → ℕ → Action W String Unit
  -- `options.open(path)` for writing: a path, whether an existing file is truncated, and the mode
  -- that a new file gets
  pub open_file : String → Bool → ℕ → Action W OpenFailure Unit
  -- a path and a text
  pub write_all : String → String → Action W String Unit
  pub sync_all : String → Action W String Unit

-- the digits of `{mode:o}`, for a mode that is at most `0o777`
abbrev pub Octal : Type 0
Octal = ℕ → String

module _ {W : Type 0} (files : FileSystem W) (octal : Octal) where
  abbrev stat : String → Action W AgentConfigError Metadata
  stat path world = (map_err (io path) (files.metadata path world), world)

  unfoldable pub require_regular_file : String → String → Action W AgentConfigError Unit
  require_regular_file path role = do
    metadata ← stat path
    reject_if (not metadata.is_file)
        (preflight path (format (role ∷ " must be a regular file" ∷ [])))

  unfoldable pub require_directory : String → String → Action W AgentConfigError Unit
  require_directory path role = do
    metadata ← stat path
    reject_if (not metadata.is_dir) (preflight path (format (role ∷ " must be a directory" ∷ [])))

  unfoldable pub reject_group_or_other_writable : String → Action W AgentConfigError Unit
  reject_group_or_other_writable path = do
    metadata ← stat path
    mode ← pure (bit_and metadata.st_mode 0o777)
    reject_if (not (nat_eq (bit_and mode 0o022) 0))
        (permission path (format ("mode " ∷ octal mode ∷ " is group/other writable" ∷ [])))

  unfoldable pub reject_group_or_other_accessible : String → Action W AgentConfigError Unit
  reject_group_or_other_accessible path = do
    metadata ← stat path
    mode ← pure (bit_and metadata.st_mode 0o777)
    reject_if (not (nat_eq (bit_and mode 0o077) 0))
        (permission path (format ("mode " ∷ octal mode ∷ " exposes group/other access" ∷ [])))

  -- and `check_public_file_permissions`, `check_directory_permissions`, which are the second check
  unfoldable pub check_config_file_permissions : String → Action W AgentConfigError Unit
  check_config_file_permissions path = do
    require_regular_file path "agent config"
    reject_group_or_other_writable path

  unfoldable pub check_secret_file_permissions : String → Action W AgentConfigError Unit
  check_secret_file_permissions path = do
    require_regular_file path "secret agent state"
    reject_group_or_other_accessible path

  abbrev pub create_parent : Option String → Action W AgentConfigError Unit
  create_parent none = pure tt
  create_parent (some parent) = rethrow (io parent) (files.create_dir_all parent)

  abbrev pub open_error : String → OpenFailure → AgentConfigError
  open_error path exists_already = already_exists path
  open_error path (other_failure message) = io path message

  -- the body is `serde_yaml::to_string(value)`
  unfoldable pub write_yaml_restrictive :
      String → Result String String → Bool → Action W AgentConfigError Unit
  write_yaml_restrictive path body force = do
    create_parent (files.parent path)
    text ← lift (map_err (yaml path) body)
    rethrow (open_error path) (files.open_file path force 0o600)
    rethrow (io path) (files.write_all path text)
    rethrow (io path) (files.sync_all path)
    rethrow (io path) (files.set_permissions path 0o600)
