-- ===== src/Fleet/Tests.antt =====
-- Overlays given out of the order of their tiers.
use mathlib.Core.Option
use runlane.Prelude.{◌≡◌, refl, some, List, [], ◌∷◌}
use runlane.Domain.{linux}
use runlane.Fleet.{
  global_tier, os_tier, node_tier, FleetOverlayFragment, get, sort_fragments, insert_setting,
  insert_settings, insert_fragments, resolve_fleet_overlays,
}
use runlane.Fleet.Overlays.{winner, get-resolve}

abbrev fragments : List FleetOverlayFragment
fragments =
    record { tier = node_tier "web-01"; settings = record { key = "ntp"; value = "node" } ∷ [] }
    ∷ record { tier = global_tier; settings = record { key = "ntp"; value = "global" } ∷ [] }
    ∷ record { tier = os_tier linux; settings = record { key = "init"; value = "systemd" } ∷ [] }
    ∷ []

node_test : get (resolve_fleet_overlays fragments) "ntp" ≡ some "node"
unfolding get resolve_fleet_overlays sort_fragments insert_fragments insert_settings insert_setting
node_test = refl

get-resolve_example :
    get (resolve_fleet_overlays fragments) "ntp" ≡ Option.map (λ h. h.1) (winner "ntp" fragments)
get-resolve_example = get-resolve "ntp" fragments
