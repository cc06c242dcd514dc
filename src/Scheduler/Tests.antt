-- ===== src/Scheduler/Tests.antt =====
-- A restart beside an observation of the same service, and below it a node that reboots.
use mathlib.Core.List.{not-mem-nil}
use runlane.Prelude.{◌≡◌, String, refl, none, [], ◌∷◌, ◌++◌}
use runlane.Domain.{application, observe, drain, reboot, ResourceLease}
use runlane.Task.{Task, new_task, effective_lease_requests, mutated_resource_ids}
use runlane.Scheduler.{
  SchedulerSnapshot, lower_layer_disruption, find_conflict, find_lower_layer_disruption,
  decide_task,
}
use runlane.Scheduler.Decisions.{MayRun, decide_task-run}
use runlane.Scheduler.Waits.{Justified, wait-Justified}
use runlane.Scheduler.Grants.{Coherent, granted, granted-Coherent}

abbrev lease : String → String → ResourceLease
lease id resource_id = record {
  id = id;
  run_id = "run-0";
  task_id = none;
  resource_id = resource_id;
  mode = observe;
  reason = "probe";
}

abbrev restart : Task
restart = record (new_task "task-1" application) {
  writes = "service/web" ∷ [];
  dependencies = "task-0" ∷ [];
}

abbrev quiet : SchedulerSnapshot
quiet = record {
  completed_task_ids = "task-0" ∷ [];
  active_leases = lease "lease-0" "service/web" ∷ [];
  dependency_paths =
      record { lower_resource_id = "node/1"; upper_resource_id = "service/web" } ∷ [];
}

abbrev rebooting : SchedulerSnapshot
rebooting = record quiet {
  active_leases = record (lease "lease-9" "node/1") { mode = reboot } ∷ [];
}

decide_task-run_example : MayRun quiet restart
unfolding decide_task effective_lease_requests mutated_resource_ids find_conflict
    find_lower_layer_disruption new_task
decide_task-run_example = (decide_task-run quiet restart).0 refl

wait-Justified_example :
    (restart.id ≡ restart.id)
    × Justified rebooting restart (lower_layer_disruption "node/1" "service/web" "lease-9" reboot)
unfolding decide_task effective_lease_requests mutated_resource_ids find_conflict
    find_lower_layer_disruption new_task
wait-Justified_example =
    wait-Justified rebooting restart "task-1"
      (lower_layer_disruption "node/1" "service/web" "lease-9" reboot) refl

granted-Coherent_example :
    Coherent (granted (λ q. "lease-1") "run-1" restart ++ lease "lease-0" "service/web" ∷ [])
unfolding decide_task effective_lease_requests mutated_resource_ids find_conflict
    find_lower_layer_disruption new_task
granted-Coherent_example =
    granted-Coherent quiet restart (λ q. "lease-1") "run-1"
      ((λ m mem same. absurd (not-mem-nil mem)), tt) ((λ m mem same. absurd (not-mem-nil mem)), tt)
      refl

abbrev held : ResourceLease
held = record (lease "lease-1" "node/1") { mode = drain }

abbrev rebooted : ResourceLease
rebooted = record (lease "lease-2" "node/1") { mode = reboot }
