-- ===== src/FleetRepository.antt =====
-- The desired intent that a fleet repository holds, crates/runlane-core/src/fleet.rs: the documents,
-- before and after their checks, and the errors. A `BTreeMap` is the list of its entries.
pub mod Checks
pub mod Documents
pub mod Load
pub mod Accepted
pub mod RuntimeKeys
pub mod Consistency
mod Tests
use runlane.Prelude.{ℕ, String, Bool, Option, List, [], ◌∷◌, length}
use runlane.Text.{format}
use runlane.Domain.{OperatingSystem, OperationalLayer}
use runlane.Fleet.{FleetOverlayFragment, ResolvedFleetIntent}

pub record FleetLayers : Type 0 where
  pub primary : OperationalLayer
  pub supports : List OperationalLayer

pub record FleetInventoryNode : Type 0 where
  pub id : String
  pub hostname : String
  pub os : OperatingSystem
  pub labels : List (String × String)
  pub layers : FleetLayers
  pub requested_capabilities : List String
  pub policy_profile : String

pub record FleetRole : Type 0 where
  pub id : String
  pub primary_layer : OperationalLayer
  pub enabled_runbooks : List String
  pub policy_profile : String
  pub enabled_allowlists : List String

pub record FleetRunbook : Type 0 where
  pub name : String
  pub version : String
  pub layer : OperationalLayer
  pub reads : List String
  pub writes : List String
  pub conflicts : List String
  pub required_capabilities : List String
  pub allowed_actions : List String

pub record FleetPolicy : Type 0 where
  pub id : String
  pub require_signed_lease : Bool
  pub reject_replay : Bool

pub record FleetAllowlistEntryDoc : Type 0 where
  pub id : String
  pub action : String
  pub target_resource_id : String

pub record FleetRepository : Type 0 where
  pub root : String
  pub inventory : List FleetInventoryNode
  pub roles : List FleetRole
  pub runbooks : List FleetRunbook
  pub policies : List FleetPolicy
  pub allowlists : List FleetAllowlistEntryDoc
  pub overlays : List FleetOverlayFragment
  pub resolved_overlay : ResolvedFleetIntent

pub record FleetSyncSummary : Type 0 where
  pub nodes : ℕ
  pub roles : ℕ
  pub runbooks : ℕ
  pub policies : ℕ
  pub allowlists : ℕ
  pub overlays : ℕ
  pub resolved_settings : ℕ

-- `FleetRepository::summary`
unfoldable pub summary : FleetRepository → FleetSyncSummary
summary repository = record {
  nodes = length repository.inventory;
  roles = length repository.roles;
  runbooks = length repository.runbooks;
  policies = length repository.policies;
  allowlists = length repository.allowlists;
  overlays = length repository.overlays;
  resolved_settings = length repository.resolved_overlay.settings;
}

-- the sources of the first two are given by their text
pub data FleetLoadError : Type 0 where
  -- path, source
  io yaml : String → String → FleetLoadError
  -- path, message
  invalid_document : String → String → FleetLoadError
  -- message
  validation : String → FleetLoadError

-- `Display`
unfoldable pub display : FleetLoadError → String
display (io path source) = format (path ∷ ": " ∷ source ∷ [])
display (yaml path source) = format (path ∷ ": invalid yaml: " ∷ source ∷ [])
display (invalid_document path message) = format (path ∷ ": " ∷ message ∷ [])
display (validation message) = message

-- `invalid`
abbrev pub invalid : String → String → FleetLoadError
invalid path message = invalid_document path message

pub record RawLayers : Type 0 where
  pub primary : String
  pub supports : List String

pub record RawCapabilities : Type 0 where
  pub requested : List String

pub record RawNodePolicy : Type 0 where
  pub profile : String

pub record RawInventoryNode : Type 0 where
  pub id : String
  pub hostname : String
  pub os : String
  pub labels : List (String × String)
  pub layers : RawLayers
  pub capabilities : RawCapabilities
  pub policy : RawNodePolicy

pub record RawRoleLayers : Type 0 where
  pub primary : String

pub record RawEnabledList : Type 0 where
  pub enabled : List String

pub record RawRole : Type 0 where
  pub id : String
  pub layers : RawRoleLayers
  pub runbooks : RawEnabledList
  pub policies : RawNodePolicy
  pub allowlists : RawEnabledList

pub record RawCollectStep (Value : Type 0) : Type 0 where
  pub id : String
  pub capability : Option String
  pub capability_any : List String
  -- the field `with`
  pub arguments : List (String × Value)

pub record RawRunbookResources : Type 0 where
  pub reads : List String
  pub writes : List String
  pub conflicts : List String

pub record RawAnalyze : Type 0 where
  pub mode : String
  pub allowed_actions : List String

pub record RawRunbook (Value : Type 0) : Type 0 where
  pub name : String
  pub version : String
  pub summary : Option String
  pub layer : String
  pub select : Option Value
  pub parameters : List (String × Value)
  pub resources : RawRunbookResources
  pub collect : List (RawCollectStep Value)
  pub analyze : RawAnalyze
  pub policy : Option Value
  pub recover : List Value

pub record RawHelperPolicy : Type 0 where
  pub require_signed_lease : Bool
  pub reject_replay : Bool

pub record RawPolicy (Value : Type 0) : Type 0 where
  pub id : String
  pub approval : Option Value
  pub verification : Option Value
  pub helper : RawHelperPolicy

pub record RawAllowlist : Type 0 where
  pub id : String
  pub action : String
  pub target_resource_id : String

pub record RawOverlay : Type 0 where
  pub tier : String
  pub name : Option String
  pub settings : List (String × String)
