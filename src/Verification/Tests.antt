-- ===== src/Verification/Tests.antt =====
-- The planner at a package update.
use runlane.Prelude.{◌≡◌, refl, [], ◌∷◌, map}
use runlane.Text.{contains}
use runlane.Domain.{system, package_update, ImpactSet}
use runlane.Verification.{
  conservative, minimal, plan, plan_system_package_update, affected_service_resource,
}
use runlane.Verification.Plans.{WellFormed, plan-WellFormed}

abbrev update : ImpactSet
update = record {
  layer = system;
  writes = "system:node/web-01/package-db" ∷ [];
  may_affect = "system:node/web-01/service/sshd" ∷ [];
  does_not_affect = [];
}

ids_test :
    map (λ c. c.id) (plan conservative package_update update).required
    ≡ "package_db_consistent" ∷ "package_state_matches_policy" ∷ "changed_files_classified"
      ∷ "affected_services_identified" ∷ "reboot_required_detected"
      ∷ "service_health_for_affected_services" ∷ "package_audit" ∷ []
unfolding plan plan_system_package_update affected_service_resource contains
ids_test = refl

plan-WellFormed_example : WellFormed (plan minimal package_update update)
plan-WellFormed_example = plan-WellFormed minimal package_update update
