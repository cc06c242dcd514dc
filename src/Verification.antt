-- ===== src/Verification.antt =====
-- The verification planner: `VerificationPolicy` and `VerificationPlanner` in
-- crates/runlane-core/src/lib.rs.
pub mod Plans
mod Tests
use runlane.Prelude.{
  String, Bool, true, false, not, ◌&&◌, Option, none, some, List, [], ◌∷◌, ◌++◌, any, find, ◌==◌,
  if◌then◌else◌,
}
use runlane.Text.{format, contains}
use runlane.Domain.{
  OperationalLayer, system, platform, application, debug_layer, ActionKind, service_restart,
  service_reload, package_update, node_reboot, remove_allowlisted_file, ImpactSet,
  VerificationCheck, VerificationPlan, VerificationTier, precondition, direct_impact, dependent,
  broad_regression, SkippedVerification,
}

pub record VerificationPolicy : Type 0 where
  pub require_dependent_app_canary_for_platform : Bool
  pub require_broad_package_audit_for_system_package_mutation : Bool

-- `VerificationPolicy::conservative`, `VerificationPolicy::minimal`
abbrev pub conservative : VerificationPolicy
conservative = record {
  require_dependent_app_canary_for_platform = true;
  require_broad_package_audit_for_system_package_mutation = true;
}

abbrev pub minimal : VerificationPolicy
minimal = record {
  require_dependent_app_canary_for_platform = false;
  require_broad_package_audit_for_system_package_mutation = false;
}

abbrev pub check : String → String → VerificationTier → VerificationCheck
check id resource_id tier = record { id = id; resource_id = resource_id; tier = tier }

abbrev pub skip : String → String → SkippedVerification
skip check_id reason = record { check_id = check_id; reason = reason }

-- `first().cloned().unwrap_or_else(..)`
abbrev pub first_or : List String → String → String
first_or [] fallback = fallback
first_or (s ∷ _) fallback = s

abbrev pub unwrap_or : Option String → String → String
unwrap_or none fallback = fallback
unwrap_or (some s) fallback = s

unfoldable pub primary_resource : ImpactSet → String
primary_resource impact =
    first_or impact.writes (format (debug_layer impact.layer ∷ ":unknown" ∷ []))

unfoldable pub dependent_resource : ImpactSet → String
dependent_resource impact = first_or impact.may_affect (primary_resource impact)

unfoldable pub package_resource : ImpactSet → String
package_resource impact =
    unwrap_or (find (λ r. contains r "package-db") (impact.writes ++ impact.may_affect))
      (primary_resource impact)

unfoldable pub reboot_resource : ImpactSet → Option String
reboot_resource impact = find (λ r. contains r "/reboot") (impact.writes ++ impact.may_affect)

unfoldable pub affected_service_resource : ImpactSet → Option String
affected_service_resource impact = find (λ r. contains r "/service/") impact.may_affect

abbrev direct_check : ActionKind → String
direct_check service_reload = "service_reloaded"
direct_check _ = "service_active"

unfoldable pub plan_generic_service_change : ActionKind → ImpactSet → VerificationPlan
plan_generic_service_change action impact = record {
  required =
      check "helper_result_matches_request" (primary_resource impact) direct_impact
      ∷ check (direct_check action) (primary_resource impact) direct_impact
      ∷ [];
  conditional = [];
  skipped = [];
}

unfoldable pub plan_generic_typed_action : ImpactSet → VerificationPlan
plan_generic_typed_action impact = record {
  required = check "helper_result_matches_request" (primary_resource impact) direct_impact ∷ [];
  conditional = [];
  skipped = [];
}

unfoldable pub plan_application_service_change : ActionKind → ImpactSet → VerificationPlan
plan_application_service_change action impact =
    let plan = plan_generic_service_change action impact in
    record plan {
      skipped =
          plan.skipped
          ++ skip "package_audit"
              "application service change did not mutate system package database"
            ∷ skip "full_disk_scan"
                "application service change did not mutate filesystem allocation"
            ∷ skip "firewall_audit" "application service change did not mutate firewall rules"
            ∷ [];
    }

-- `if test { required.push(check) }`
abbrev pub push_if : Bool → VerificationCheck → List VerificationCheck → List VerificationCheck
push_if test c required = if test then required ++ c ∷ [] else required

unfoldable pub plan_platform_reload : VerificationPolicy → ImpactSet → VerificationPlan
plan_platform_reload policy impact = record {
  required =
      push_if policy.require_dependent_app_canary_for_platform
        (check "dependent_app_canary" (dependent_resource impact) dependent)
        (check "config_syntax_valid" (primary_resource impact) precondition
          ∷ check "platform_accepts_connections" (primary_resource impact) direct_impact
          ∷ []);
  conditional = [];
  skipped =
      skip "full_package_audit" "platform config reload did not mutate system package database"
      ∷ [];
}

-- `if let Some(service) = affected_service_resource { required.push(..) }`
abbrev pub push_service : Option String → List VerificationCheck → List VerificationCheck
push_service none required = required
push_service (some service) required =
    required ++ check "service_health_for_affected_services" service dependent ∷ []

-- the required checks, from the policy's toggle and the resources
abbrev pub package_checks : Bool → String → String → Option String → List VerificationCheck
package_checks audit resource reboot service =
    push_if audit (check "package_audit" resource broad_regression) (
      push_service service (
        check "package_db_consistent" resource direct_impact
        ∷ check "package_state_matches_policy" resource direct_impact
        ∷ check "changed_files_classified" resource direct_impact
        ∷ check "affected_services_identified" resource dependent
        ∷ check "reboot_required_detected" reboot dependent
        ∷ []))

-- the skipped checks, from the required ones
abbrev pub package_skips : List VerificationCheck → List SkippedVerification
package_skips required =
    let scan =
      skip "full_disk_scan"
        "package mutation classified changed files without broad filesystem writes"
      ∷ [] in
    if not (any (λ c. c.id == "service_health_for_affected_services") required)
    then scan
      ++ skip "service_health_for_affected_services"
          "package impact did not declare affected service resources; affected_services_identified owns discovery"
        ∷ []
    else scan

unfoldable pub plan_system_package_update : VerificationPolicy → ImpactSet → VerificationPlan
plan_system_package_update policy impact =
    let resource = package_resource impact in
    let required =
      package_checks policy.require_broad_package_audit_for_system_package_mutation resource
        (unwrap_or (reboot_resource impact) resource) (affected_service_resource impact) in
    record { required = required; conditional = []; skipped = package_skips required }

-- `plan_system_package_mutation`
unfoldable pub plan_system_package_mutation : VerificationPolicy → ImpactSet → VerificationPlan
plan_system_package_mutation policy impact = plan_system_package_update policy impact

unfoldable pub plan_system_reboot : ImpactSet → VerificationPlan
plan_system_reboot impact =
    let reboot = unwrap_or (reboot_resource impact) (primary_resource impact) in
    record {
      required =
          check "drain_completed" reboot precondition
          ∷ check "reboot_completed" reboot direct_impact
          ∷ check "node_health_after_reboot" reboot direct_impact
          ∷ check "affected_services_healthy_after_reboot" (dependent_resource impact) dependent
          ∷ [];
      conditional = [];
      skipped =
          skip "package_audit"
            "node reboot does not mutate package database; package update verification owns package state"
          ∷ [];
    }

unfoldable pub plan_system_allowlisted_file_cleanup : ImpactSet → VerificationPlan
plan_system_allowlisted_file_cleanup impact =
    let cleanup = primary_resource impact in
    record {
      required =
          check "helper_result_matches_request" cleanup direct_impact
          ∷ check "free_space_improved" (dependent_resource impact) direct_impact
          ∷ check "cleaned_paths_match_allowlist" cleanup direct_impact
          ∷ check "no_unrelated_deletion_reported" cleanup direct_impact
          ∷ [];
      conditional = [];
      skipped = [];
    }

-- the last two arms of `plan`, for a pair that no earlier arm takes
abbrev pub plan_generic : ActionKind → ImpactSet → VerificationPlan
plan_generic service_restart impact = plan_generic_service_change service_restart impact
plan_generic service_reload impact = plan_generic_service_change service_reload impact
plan_generic _ impact = plan_generic_typed_action impact

-- the arm with a guard, for the other actions on the system layer
abbrev pub plan_system_other : VerificationPolicy → ActionKind → ImpactSet → VerificationPlan
plan_system_other policy action impact =
    if any (λ r. contains r "package-db") impact.writes
    then plan_system_package_mutation policy impact
    else plan_generic action impact

abbrev pub plan_for :
    VerificationPolicy → OperationalLayer → ActionKind → ImpactSet → VerificationPlan
plan_for policy application service_restart impact =
    plan_application_service_change service_restart impact
plan_for policy application service_reload impact =
    plan_application_service_change service_reload impact
plan_for policy system remove_allowlisted_file impact = plan_system_allowlisted_file_cleanup impact
plan_for policy platform service_reload impact = plan_platform_reload policy impact
plan_for policy system package_update impact = plan_system_package_update policy impact
plan_for policy system node_reboot impact = plan_system_reboot impact
plan_for policy system action impact = plan_system_other policy action impact
plan_for policy _ action impact = plan_generic action impact

unfoldable pub plan : VerificationPolicy → ActionKind → ImpactSet → VerificationPlan
plan policy action impact = plan_for policy impact.layer action impact
