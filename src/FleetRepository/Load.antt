-- ===== src/FleetRepository/Load.antt =====
-- `FleetRepository::load` and `load_documents`, in crates/runlane-core/src/fleet.rs. The file system
-- is a parameter; paths are texts.
use runlane.Prelude.{
  String, Bool, List, [], Result, ok, ◌>>=◌, ◌>>◌, map_err, traverse, if◌then◌else◌,
}
use runlane.Fleet.{resolve_fleet_overlays}
use runlane.FleetRepository.{FleetRepository, FleetLoadError, io}
use runlane.FleetRepository.Checks.{validate_repository}
use runlane.FleetRepository.Documents.{
  Reader, reject_runtime_truth, parse_inventory, parse_role, parse_runbook, parse_policy,
  parse_allowlist, parse_overlay,
}

pub record Directory : Type 0 where
  -- `root.join(name)`
  pub join : String → String → String
  -- `directory.exists()`
  pub exists : String → Bool
  -- `yaml_paths(directory)`, which walks the directory and those below it, and `paths.sort()`
  pub sorted_yaml_paths : String → Result FleetLoadError (List String)
  -- `fs::read_to_string(path)`
  pub read_to_string : String → Result String String

module _ {Value : Type 0} (reader : Reader Value) (files : Directory) where
  -- a file of a directory
  unfoldable pub load_document :
      {A : Type 0} → (String → String → Result FleetLoadError A) → String → Result FleetLoadError A
  load_document parser path = do
    body ← map_err (io path) (files.read_to_string path)
    reject_runtime_truth reader path body
    parser path body

  unfoldable pub load_documents :
      {A : Type 0}
      → String
      → (String → String → Result FleetLoadError A)
      → Result FleetLoadError (List A)
  load_documents directory parser =
      let loaded = files.sorted_yaml_paths directory >>= traverse (load_document parser) in
      if files.exists directory then loaded else ok []

  -- `FleetRepository::load`
  unfoldable pub load : String → Result FleetLoadError FleetRepository
  load root = do
    inventory ← load_documents (files.join root "inventory") (parse_inventory reader)
    roles ← load_documents (files.join root "roles") (parse_role reader)
    runbooks ← load_documents (files.join root "runbooks") (parse_runbook reader)
    policies ← load_documents (files.join root "policies") (parse_policy reader)
    allowlists ← load_documents (files.join root "allowlists") (parse_allowlist reader)
    overlays ← load_documents (files.join root "overlays") (parse_overlay reader)
    resolved_overlay ← ok (resolve_fleet_overlays overlays)
    validate_repository inventory roles runbooks policies allowlists
    ok (record {
      root = root;
      inventory = inventory;
      roles = roles;
      runbooks = runbooks;
      policies = policies;
      allowlists = allowlists;
      overlays = overlays;
      resolved_overlay = resolved_overlay;
    })
