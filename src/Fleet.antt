-- ===== src/Fleet.antt =====
-- Desired intent of a fleet and its overlays: `FleetOverlayTier` to `resolve_fleet_overlays` in
-- crates/runlane-core/src/lib.rs.
pub mod Overlays
mod Tests
use Prim.Native.Nat.{Ordering}
use Prim.Native.String as S
use mathlib.Core.Option
use runlane.Prelude.{
  ℕ, String, Bool, Option, none, some, List, [], ◌∷◌, map, find, leb, ◌==◌, if◌then◌else◌,
}
use runlane.Domain.{OperatingSystem, OperationalLayer}

pub data FleetOverlayTier : Type 0 where
  global_tier : FleetOverlayTier
  os_tier : OperatingSystem → FleetOverlayTier
  layer_tier : OperationalLayer → FleetOverlayTier
  role_tier environment_tier node_tier : String → FleetOverlayTier

abbrev pub rank : FleetOverlayTier → ℕ
rank global_tier = 0
rank (os_tier _) = 1
rank (layer_tier _) = 2
rank (role_tier _) = 3
rank (environment_tier _) = 4
rank (node_tier _) = 5

pub record FleetIntentSetting : Type 0 where
  pub key : String
  pub value : String

pub record FleetOverlayFragment : Type 0 where
  pub tier : FleetOverlayTier
  pub settings : List FleetIntentSetting

pub record ResolvedFleetIntent : Type 0 where
  pub settings : List FleetIntentSetting

pub record FleetLayerDeclaration : Type 0 where
  pub layer : OperationalLayer
  pub selector : String

abbrev pub value_of : String → List FleetIntentSetting → Option String
value_of key settings = Option.map (λ s. s.value) (find (λ s. s.key == key) settings)

-- `ResolvedFleetIntent::get`
unfoldable pub get : ResolvedFleetIntent → String → Option String
get resolved key = value_of key resolved.settings

-- `sort_by_key`, which is stable: a fragment comes before those of its rank that follow it
abbrev pub insert_fragment :
    FleetOverlayFragment → List FleetOverlayFragment → List FleetOverlayFragment
insert_fragment f [] = f ∷ []
insert_fragment f (g ∷ rest) =
    if leb (rank f.tier) (rank g.tier) then f ∷ g ∷ rest else g ∷ insert_fragment f rest

unfoldable pub sort_fragments : List FleetOverlayFragment → List FleetOverlayFragment
sort_fragments [] = []
sort_fragments (f ∷ rest) = insert_fragment f (sort_fragments rest)

-- `BTreeMap::insert`, on the entries in the order of their keys
unfoldable pub insert_setting :
    FleetIntentSetting → List FleetIntentSetting → List FleetIntentSetting
insert_setting s [] = s ∷ []
insert_setting s (t ∷ rest) =
    let later = insert_setting s rest in
    elim (S.compare s.key t.key) as (λ _. List FleetIntentSetting) [
      | Ordering.lt ↦ s ∷ t ∷ rest
      | Ordering.eq ↦ record { key = t.key; value = s.value } ∷ rest
      | Ordering.gt ↦ t ∷ later
    ]

-- the two loops of `resolve_fleet_overlays`
unfoldable pub insert_settings :
    List FleetIntentSetting → List FleetIntentSetting → List FleetIntentSetting
insert_settings [] entries = entries
insert_settings (s ∷ rest) entries = insert_settings rest (insert_setting s entries)

unfoldable pub insert_fragments :
    List FleetOverlayFragment → List FleetIntentSetting → List FleetIntentSetting
insert_fragments [] entries = entries
insert_fragments (f ∷ rest) entries = insert_fragments rest (insert_settings f.settings entries)

unfoldable pub resolve_fleet_overlays : List FleetOverlayFragment → ResolvedFleetIntent
resolve_fleet_overlays fragments = record {
  settings = insert_fragments (sort_fragments fragments) [];
}
