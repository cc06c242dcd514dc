-- ===== src/FleetRepository/Documents.antt =====
-- The documents of a fleet repository: their parsers and the search for runtime fields, in
-- crates/runlane-core/src/fleet.rs. The reading of YAML by serde is a parameter.
use runlane.Prelude.{
  ℕ, zero, suc, String, not, Option, none, some, List, [], ◌∷◌, ◌++◌, map, find_map, any, ◌==◌,
  Result, ok, err, ◌>>=◌, ◌>>◌, map_err, refuse_if, traverse, if◌then◌else◌,
}
use runlane.Text.{format, is_blank}
use runlane.Domain.{layer_eq}
use runlane.Fleet.{
  FleetOverlayTier, global_tier, os_tier, layer_tier, role_tier, environment_tier, node_tier,
  FleetOverlayFragment,
}
use runlane.FleetRepository.{
  FleetLayers, FleetInventoryNode, FleetRole, FleetRunbook, FleetPolicy, FleetAllowlistEntryDoc,
  FleetLoadError, yaml, invalid, RawLayers, RawInventoryNode, RawRole, RawCollectStep, RawRunbook,
  RawPolicy, RawAllowlist, RawOverlay,
}
use runlane.FleetRepository.Checks.{
  parse_layer, parse_os, is_in, validate_resources, validate_capabilities, validate_actions,
  required_name,
}

-- the variant of a `serde_yaml::Value`, as far as the program tells them apart
pub data Variant (Value : Type 0) : Type 0 where
  mapping_variant : List (Value × Value) → Variant Value
  sequence_variant : List Value → Variant Value
  other_variant : Variant Value

-- `serde_yaml::from_str` at each type that is read, with the text of its error, and what is asked of
-- a value; a value is a finite tree, and `depth` bounds how far it goes down
pub record Reader (Value : Type 0) : Type 0 where
  pub value : String → Result String Value
  pub variant : Value → Variant Value
  pub as_str : Value → Option String
  pub depth : Value → ℕ
  pub inventory_node : String → Result String RawInventoryNode
  pub role : String → Result String RawRole
  pub runbook : String → Result String (RawRunbook Value)
  pub policy : String → Result String (RawPolicy Value)
  pub allowlist : String → Result String RawAllowlist
  pub overlay : String → Result String RawOverlay

abbrev pub forbidden : List String
forbidden =
    "evidence" ∷ "approvals" ∷ "helper_output" ∷ "audit_events" ∷ "audit" ∷ "cognitive_receipts"
    ∷ "receipt" ∷ "results" ∷ "runtime" ∷ []

-- `serde_yaml::from_str(body).map_err(..)`
abbrev pub parse_yaml : {A : Type 0} → String → Result String A → Result FleetLoadError A
parse_yaml path read = map_err (yaml path) read

unfoldable pub parse_layers : String → RawLayers → Result FleetLoadError FleetLayers
parse_layers path raw = do
  primary ← parse_layer path raw.primary
  supports ← traverse (parse_layer path) raw.supports
  refuse_if (not (any (λ layer. layer_eq layer primary) supports))
      (invalid path "layers.supports must include layers.primary")
  ok (record { primary = primary; supports = supports })

-- the tier of an overlay
unfoldable pub parse_tier : String → RawOverlay → Result FleetLoadError FleetOverlayTier
parse_tier path raw =
    if raw.tier == "global"
    then ok global_tier
    else if raw.tier == "os"
    then (required_name path raw.name >>= λ name. parse_os path name >>= λ os. ok (os_tier os))
    else if raw.tier == "layer"
    then (required_name path raw.name >>= λ name.
        parse_layer path name >>= λ layer. ok (layer_tier layer))
    else if raw.tier == "role"
    then (required_name path raw.name >>= λ name. ok (role_tier name))
    else if raw.tier == "environment"
    then (required_name path raw.name >>= λ name. ok (environment_tier name))
    else if raw.tier == "node"
    then (required_name path raw.name >>= λ name. ok (node_tier name))
    else err (invalid path "overlay tier must be global/os/layer/role/environment/node")

-- the capability of a step, if it has one
abbrev pub option_list {ℓ} : {A : Type ℓ} → Option A → List A
option_list none = []
option_list (some a) = a ∷ []

module _ {Value : Type 0} (reader : Reader Value) where
  -- one entry of a mapping, with the search in its value; a key that is not a text ends it
  abbrev pub key_of_entry : (Value → Option String) → Value × Value → Option String
  key_of_entry search (key, value) = elim (reader.as_str key) [
    | none ↦ none
    | some name ↦ if is_in name forbidden then some name else search value
  ]

  -- the arms of `find_runtime_key`, with the search in what is inside
  abbrev pub find_in : (Value → Option String) → Variant Value → Option String
  find_in search (mapping_variant pairs) = find_map (key_of_entry search) pairs
  find_in search (sequence_variant items) = find_map search items
  find_in search other_variant = none

  -- `find_runtime_key`, on fuel
  unfoldable pub find_key : ℕ → Value → Option String
  find_key zero value = none
  find_key (suc fuel) value = find_in (find_key fuel) (reader.variant value)

  unfoldable pub find_runtime_key : Value → Option String
  find_runtime_key value = find_key (suc (reader.depth value)) value

  abbrev refuse_key : String → Option String → Result FleetLoadError Unit
  refuse_key path none = ok tt
  refuse_key path (some key) =
      err
        (invalid path (format ("runtime field `" ∷ key ∷ "` is not allowed in fleet intent" ∷ [])))

  unfoldable pub reject_runtime_truth : String → String → Result FleetLoadError Unit
  reject_runtime_truth path body = do
    value ← map_err (yaml path) (reader.value body)
    refuse_key path (find_runtime_key value)

  unfoldable pub parse_inventory : String → String → Result FleetLoadError FleetInventoryNode
  parse_inventory path body = do
    raw ← parse_yaml path (reader.inventory_node body)
    layers ← parse_layers path raw.layers
    validate_capabilities path raw.capabilities.requested
    os ← parse_os path raw.os
    ok (record {
      id = raw.id;
      hostname = raw.hostname;
      os = os;
      labels = raw.labels;
      layers = layers;
      requested_capabilities = raw.capabilities.requested;
      policy_profile = raw.policy.profile;
    })

  unfoldable pub parse_role : String → String → Result FleetLoadError FleetRole
  parse_role path body = do
    raw ← parse_yaml path (reader.role body)
    layer ← parse_layer path raw.layers.primary
    ok (record {
      id = raw.id;
      primary_layer = layer;
      enabled_runbooks = raw.runbooks.enabled;
      policy_profile = raw.policies.profile;
      enabled_allowlists = raw.allowlists.enabled;
    })

  -- the loop over the collect steps, with the capabilities that it gathers
  unfoldable pub step_capabilities :
      String → List (RawCollectStep Value) → Result FleetLoadError (List String)
  step_capabilities path [] = ok []
  step_capabilities path (step ∷ steps) = do
    refuse_if (is_blank step.id) (invalid path "collect step id must not be empty")
    rest ← step_capabilities path steps
    ok (option_list step.capability ++ step.capability_any ++ rest)

  unfoldable pub parse_runbook : String → String → Result FleetLoadError FleetRunbook
  parse_runbook path body = do
    raw ← parse_yaml path (reader.runbook body)
    capabilities ← step_capabilities path raw.collect
    validate_capabilities path capabilities
    validate_resources path (raw.resources.reads ++ raw.resources.writes ++ raw.resources.conflicts)
    refuse_if (not (raw.analyze.mode == "structured_proposal"))
        (invalid path "analyze.mode must be structured_proposal")
    validate_actions path raw.analyze.allowed_actions
    layer ← parse_layer path raw.layer
    ok (record {
      name = raw.name;
      version = raw.version;
      layer = layer;
      reads = raw.resources.reads;
      writes = raw.resources.writes;
      conflicts = raw.resources.conflicts;
      required_capabilities = capabilities;
      allowed_actions = raw.analyze.allowed_actions;
    })

  unfoldable pub parse_policy : String → String → Result FleetLoadError FleetPolicy
  parse_policy path body = do
    raw ← parse_yaml path (reader.policy body)
    ok (record {
      id = raw.id;
      require_signed_lease = raw.helper.require_signed_lease;
      reject_replay = raw.helper.reject_replay;
    })

  unfoldable pub parse_allowlist : String → String → Result FleetLoadError FleetAllowlistEntryDoc
  parse_allowlist path body = do
    raw ← parse_yaml path (reader.allowlist body)
    validate_actions path (raw.action ∷ [])
    validate_resources path (raw.target_resource_id ∷ [])
    ok (record { id = raw.id; action = raw.action; target_resource_id = raw.target_resource_id })

  unfoldable pub parse_overlay : String → String → Result FleetLoadError FleetOverlayFragment
  parse_overlay path body = do
    raw ← parse_yaml path (reader.overlay body)
    tier ← parse_tier path raw
    ok (record {
      tier = tier;
      settings = map (λ (key, value). record { key = key; value = value }) raw.settings;
    })
