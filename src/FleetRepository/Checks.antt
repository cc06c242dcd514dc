-- ===== src/FleetRepository/Checks.antt =====
-- The checks of the fields of fleet documents and of the references between them, in
-- crates/runlane-core/src/fleet.rs.
use runlane.Prelude.{
  String, Bool, true, false, not, ◌&&◌, ◌||◌, Option, none, some, List, [], ◌∷◌, map, any, ◌==◌,
  Result, ok, err, ◌>>◌, refuse_if, for_each, if◌then◌else◌,
}
use runlane.Text.{format, is_blank, split_colon}
use runlane.Domain.{
  OperatingSystem, linux, free_bsd, open_bsd, OperationalLayer, system, platform, application,
}
use runlane.FleetRepository.{
  FleetInventoryNode, FleetRole, FleetRunbook, FleetPolicy, FleetAllowlistEntryDoc, FleetLoadError,
  validation, invalid,
}

unfoldable pub parse_layer : String → String → Result FleetLoadError OperationalLayer
parse_layer path value =
    if value == "system"
    then ok system
    else if value == "platform"
    then ok platform
    else if value == "application"
    then ok application
    else err (invalid path "layer must be one of system, platform, application")

unfoldable pub parse_os : String → String → Result FleetLoadError OperatingSystem
parse_os path value =
    if value == "linux"
    then ok linux
    else if value == "freebsd"
    then ok free_bsd
    else if value == "openbsd"
    then ok open_bsd
    else err (invalid path "os must be one of linux, freebsd, openbsd")

-- `contains` of a set or a slice of texts
abbrev pub is_in : String → List String → Bool
is_in value known = any (λ name. name == value) known

unfoldable pub require_known : String → String → List String → Result FleetLoadError Unit
require_known label value known =
    if is_in value known
    then ok tt
    else err (validation (format ("unknown " ∷ label ∷ ": " ∷ value ∷ [])))

-- the body of the loop over the roles
abbrev pub check_role :
    List String → List String → List String → FleetRole → Result FleetLoadError Unit
check_role runbook_names policy_ids allowlist_ids role = do
  for_each (λ runbook. require_known "role runbook" runbook runbook_names) role.enabled_runbooks
  require_known "role policy" role.policy_profile policy_ids
  for_each (λ allowlist. require_known "role allowlist" allowlist allowlist_ids)
      role.enabled_allowlists

abbrev pub is_empty {ℓ} : {A : Type ℓ} → List A → Bool
is_empty [] = true
is_empty (x ∷ xs) = false

unfoldable pub validate_repository :
    List FleetInventoryNode
    → List FleetRole
    → List FleetRunbook
    → List FleetPolicy
    → List FleetAllowlistEntryDoc
    → Result FleetLoadError Unit
validate_repository inventory roles runbooks policies allowlists =
    let runbook_names = map (λ runbook. runbook.name) runbooks in
    let policy_ids = map (λ policy. policy.id) policies in
    let allowlist_ids = map (λ allowlist. allowlist.id) allowlists in
    do
      refuse_if (is_empty inventory) (validation "fleet inventory must contain at least one node")
      for_each (check_role runbook_names policy_ids allowlist_ids) roles
      for_each (λ node. require_known "node policy" node.policy_profile policy_ids) inventory

-- the pattern of `validate_resources`
unfoldable pub is_resource : String → Bool
is_resource resource = elim (split_colon resource) as (λ _. Bool) [
  | none ↦ false
  | some (prefix, rest) ↦
      (prefix == "system" || prefix == "platform" || prefix == "application") && not (is_blank rest)
]

unfoldable pub validate_resources : String → List String → Result FleetLoadError Unit
validate_resources path resources =
    for_each
      (λ resource.
        refuse_if (not (is_resource resource))
          (invalid path "resource ids must start with system:, platform:, or application:"))
      resources

abbrev pub known_capabilities : List String
known_capabilities =
    "os.linux" ∷ "os.freebsd" ∷ "os.openbsd" ∷ "service.systemd" ∷ "service.freebsd-rc"
    ∷ "service.openbsd-rcctl" ∷ "logs.journald" ∷ "logs.syslog-file" ∷ "process.procfs"
    ∷ "process.procstat" ∷ "process.ps" ∷ "socket.ss" ∷ "socket.sockstat" ∷ "socket.fstat"
    ∷ "storage.df" ∷ "storage.zfs" ∷ "package.freebsd-pkg" ∷ "package.openbsd-pkg-info"
    ∷ "firewall.pf" ∷ "privilege.sudo-helper" ∷ "privilege.doas-helper" ∷ []

unfoldable pub validate_capabilities : String → List String → Result FleetLoadError Unit
validate_capabilities path capabilities =
    for_each
      (λ capability.
        refuse_if (not (is_in capability known_capabilities))
          (invalid path (format ("unknown required capability `" ∷ capability ∷ "`" ∷ []))))
      capabilities

-- the pattern of `validate_actions`
abbrev pub known_actions : List String
known_actions =
    "service.restart" ∷ "service.reload" ∷ "file.remove_from_allowlist" ∷ "collect.more_logs" ∷ []

unfoldable pub validate_actions : String → List String → Result FleetLoadError Unit
validate_actions path actions =
    for_each
      (λ action.
        refuse_if (not (is_in action known_actions))
          (invalid path (format ("unknown action `" ∷ action ∷ "`" ∷ []))))
      actions

unfoldable pub required_name : String → Option String → Result FleetLoadError String
required_name path none = err (invalid path "overlay name is required for this tier")
required_name path (some name) =
    if is_blank name then err (invalid path "overlay name is required for this tier") else ok name
