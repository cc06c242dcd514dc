-- ===== src/Verification/Plans.antt =====
-- What every verification plan has, for each action, layer, impact and policy.
use runlane.Prelude.{
  String, Bool, true, false, ◌≡◌, ◌≢◌, refl, inl, inr, Option, none, some, [], ◌∷◌, map, any, ◌==◌,
  All, Bool-cases,
}
use runlane.Prelude.Search.{Distinct}
use runlane.Text.{contains}
use runlane.Domain.{
  OperationalLayer, system, platform, application, ActionKind, service_restart, service_reload,
  package_update, node_reboot, run_allowlisted_script, remove_allowlisted_file, ImpactSet,
  VerificationPlan, precondition, direct_impact, dependent,
}
use runlane.Verification.{
  VerificationPolicy, plan, plan_for, plan_generic, plan_system_other, push_if, check, skip,
  package_skips, package_resource, primary_resource, dependent_resource, reboot_resource, unwrap_or,
  package_checks, plan_generic_service_change, plan_generic_typed_action,
  plan_application_service_change, plan_platform_reload, plan_system_package_update,
  plan_system_package_mutation, plan_system_reboot, plan_system_allowlisted_file_cleanup,
  affected_service_resource,
}

abbrev pub is_required : VerificationPlan → String → Bool
is_required p id = any (λ c. c.id == id) p.required

-- It requires a check; no check is required twice; a check that it skips is not required as well,
-- and comes with a reason.
pub WellFormed : VerificationPlan → Type 0
WellFormed p =
    (p.required ≢ [])
    × Distinct (map (λ c. c.id) p.required)
    × All (λ s. (is_required p s.check_id ≡ false) × ((s.reason == "") ≡ false)) p.skipped

-- the plan of a package mutation, whatever its resources are
package-WellFormed :
    (audit : Bool) (resource reboot : String) (service : Option String)
    → let required = package_checks audit resource reboot service in
      WellFormed
        (record { required = required; conditional = []; skipped = package_skips required })
unfolding WellFormed
package-WellFormed true resource reboot (some s) =
    (λ q. cc, (refl, (refl, (refl, (refl, (refl, (refl, (refl, tt))))))), ((refl, refl), tt))
package-WellFormed true resource reboot none = (
  λ q. cc,
  (refl, (refl, (refl, (refl, (refl, (refl, tt)))))),
  ((refl, refl), ((refl, refl), tt)),
)
package-WellFormed false resource reboot (some s) =
    (λ q. cc, (refl, (refl, (refl, (refl, (refl, (refl, tt)))))), ((refl, refl), tt))
package-WellFormed false resource reboot none =
    (λ q. cc, (refl, (refl, (refl, (refl, (refl, tt))))), ((refl, refl), ((refl, refl), tt)))

reload-WellFormed :
    (canary : Bool) (resource other : String)
    → WellFormed (record {
      required = push_if canary (check "dependent_app_canary" other dependent) (
          check "config_syntax_valid" resource precondition
          ∷ check "platform_accepts_connections" resource direct_impact
          ∷ []);
      conditional = [];
      skipped =
          skip "full_package_audit" "platform config reload did not mutate system package database"
          ∷ [];
    })
unfolding WellFormed
reload-WellFormed true resource other = (λ q. cc, (refl, (refl, (refl, tt))), ((refl, refl), tt))
reload-WellFormed false resource other = (λ q. cc, (refl, (refl, tt)), ((refl, refl), tt))

generic-WellFormed :
    (action : ActionKind) (impact : ImpactSet) → WellFormed (plan_generic action impact)
unfolding WellFormed plan_generic_service_change plan_generic_typed_action
generic-WellFormed service_restart impact = (λ q. cc, (refl, (refl, tt)), tt)
generic-WellFormed service_reload impact = (λ q. cc, (refl, (refl, tt)), tt)
generic-WellFormed package_update impact = (λ q. cc, (refl, tt), tt)
generic-WellFormed node_reboot impact = (λ q. cc, (refl, tt), tt)
generic-WellFormed run_allowlisted_script impact = (λ q. cc, (refl, tt), tt)
generic-WellFormed remove_allowlisted_file impact = (λ q. cc, (refl, tt), tt)

module _ (policy : VerificationPolicy) where
  update-WellFormed : (impact : ImpactSet) → WellFormed (plan_system_package_update policy impact)
  unfolding plan_system_package_update
  update-WellFormed impact =
      package-WellFormed policy.require_broad_package_audit_for_system_package_mutation
        (package_resource impact) (unwrap_or (reboot_resource impact) (package_resource impact))
        (affected_service_resource impact)

  other-WellFormed :
      (action : ActionKind) (impact : ImpactSet)
      → WellFormed (plan_system_other policy action impact)
  unfolding plan_system_package_mutation
  other-WellFormed action impact =
      elim (Bool-cases (any (λ r. contains r "package-db") impact.writes)) [
        | inl e ↦ rw e (update-WellFormed impact)
        | inr e ↦ rw e (generic-WellFormed action impact)
      ]

  plan_for-WellFormed :
      (layer : OperationalLayer) (action : ActionKind) (impact : ImpactSet)
      → WellFormed (plan_for policy layer action impact)
  unfolding WellFormed plan_application_service_change plan_generic_service_change
      plan_platform_reload plan_system_reboot plan_system_allowlisted_file_cleanup
  plan_for-WellFormed application service_restart impact =
      (λ q. cc, (refl, (refl, tt)), ((refl, refl), ((refl, refl), ((refl, refl), tt))))
  plan_for-WellFormed application service_reload impact =
      (λ q. cc, (refl, (refl, tt)), ((refl, refl), ((refl, refl), ((refl, refl), tt))))
  plan_for-WellFormed application package_update impact = generic-WellFormed package_update impact
  plan_for-WellFormed application node_reboot impact = generic-WellFormed node_reboot impact
  plan_for-WellFormed application run_allowlisted_script impact =
      generic-WellFormed run_allowlisted_script impact
  plan_for-WellFormed application remove_allowlisted_file impact =
      generic-WellFormed remove_allowlisted_file impact
  plan_for-WellFormed platform service_reload impact =
      reload-WellFormed policy.require_dependent_app_canary_for_platform (primary_resource impact)
        (dependent_resource impact)
  plan_for-WellFormed platform service_restart impact = generic-WellFormed service_restart impact
  plan_for-WellFormed platform package_update impact = generic-WellFormed package_update impact
  plan_for-WellFormed platform node_reboot impact = generic-WellFormed node_reboot impact
  plan_for-WellFormed platform run_allowlisted_script impact =
      generic-WellFormed run_allowlisted_script impact
  plan_for-WellFormed platform remove_allowlisted_file impact =
      generic-WellFormed remove_allowlisted_file impact
  plan_for-WellFormed system remove_allowlisted_file impact =
      (λ q. cc, (refl, (refl, (refl, (refl, tt)))), tt)
  plan_for-WellFormed system package_update impact = update-WellFormed impact
  plan_for-WellFormed system node_reboot impact =
      (λ q. cc, (refl, (refl, (refl, (refl, tt)))), ((refl, refl), tt))
  plan_for-WellFormed system service_restart impact = other-WellFormed service_restart impact
  plan_for-WellFormed system service_reload impact = other-WellFormed service_reload impact
  plan_for-WellFormed system run_allowlisted_script impact =
      other-WellFormed run_allowlisted_script impact

  -- Every plan requires a check, requires none twice, and skips only checks that it does not
  -- require, each with a reason.
  pub plan-WellFormed :
      (action : ActionKind) (impact : ImpactSet) → WellFormed (plan policy action impact)
  unfolding plan
  plan-WellFormed action impact = plan_for-WellFormed impact.layer action impact
