-- ===== src/Scheduler.antt =====
-- Whether a task may run now: `SchedulerSnapshot::decide_task` and
-- `find_lower_layer_disruption` in crates/runlane-core/src/lib.rs.
pub mod Decisions
pub mod Waits
pub mod Grants
mod Tests
use runlane.Prelude.{
  Bool, true, false, not, ◌&&◌, String, Option, none, some, List, ◌==◌, any, find, find_map, keep,
}
use mathlib.Core.Option
use runlane.Domain.{
  OperationalLayer, system, layer_eq, LeaseMode, drain, reboot, ResourceLease, ResourceLeaseRequest,
  is_compatible_with,
}
use runlane.Task.{Task, effective_lease_requests, mutated_resource_ids}

pub record ResourceDependencyPath : Type 0 where
  pub lower_resource_id : String
  pub upper_resource_id : String

pub data SchedulerRunReason : Type 0 where
  dependencies_satisfied_no_conflicts : SchedulerRunReason

pub data SchedulerWaitReason : Type 0 where
  dependency_incomplete : String → SchedulerWaitReason
  -- the resource, the lease that holds it and its mode, and the mode that was asked for
  resource_conflict : String → String → LeaseMode → LeaseMode → SchedulerWaitReason
  -- the lower and the upper resource, the lease on the lower one and its mode
  lower_layer_disruption : String → String → String → LeaseMode → SchedulerWaitReason

pub data SchedulerDecision : Type 0 where
  run : String → SchedulerRunReason → SchedulerDecision
  wait : String → SchedulerWaitReason → SchedulerDecision

pub record SchedulerSnapshot : Type 0 where
  pub completed_task_ids : List String
  pub active_leases : List ResourceLease
  pub dependency_paths : List ResourceDependencyPath

-- `ids.contains(id)`
abbrev pub contains_id : List String → String → Bool
contains_id ids id = any (λ x. x == id) ids

abbrev pub conflicts : ResourceLeaseRequest → ResourceLease → Bool
conflicts request existing =
    existing.resource_id == request.resource_id
    && not (is_compatible_with existing.mode request.mode)

-- the first active lease in the way of a request
abbrev pub conflict_of :
    List ResourceLease → ResourceLeaseRequest → Option (ResourceLeaseRequest × ResourceLease)
conflict_of leases request =
    Option.map (λ existing. (request, existing)) (find (conflicts request) leases)

unfoldable pub find_conflict :
    List ResourceLease → List ResourceLeaseRequest → Option (ResourceLeaseRequest × ResourceLease)
find_conflict leases = find_map (conflict_of leases)

abbrev pub is_disruptive : LeaseMode → Bool
is_disruptive drain = true
is_disruptive reboot = true
is_disruptive _ = false

abbrev pub disrupts : Task → ResourceLease → ResourceDependencyPath → Bool
disrupts task lease path =
    path.lower_resource_id == lease.resource_id
    && contains_id (mutated_resource_ids task) path.upper_resource_id
    && not (layer_eq task.layer system)

abbrev pub disruption_of :
    List ResourceDependencyPath
    → Task
    → ResourceLease
    → Option (ResourceDependencyPath × ResourceLease)
disruption_of paths task lease =
    Option.map (λ path. (path, lease)) (find (disrupts task lease) paths)

unfoldable pub find_lower_layer_disruption :
    SchedulerSnapshot → Task → Option (ResourceDependencyPath × ResourceLease)
find_lower_layer_disruption snapshot task =
    find_map (disruption_of snapshot.dependency_paths task)
      (keep (λ lease. is_disruptive lease.mode) snapshot.active_leases)

abbrev pub is_incomplete : SchedulerSnapshot → String → Bool
is_incomplete snapshot id = not (contains_id snapshot.completed_task_ids id)

unfoldable pub decide_task : SchedulerSnapshot → Task → SchedulerDecision
decide_task snapshot task = elim (find (is_incomplete snapshot) task.dependencies) [
  | some dependency_id ↦ wait task.id (dependency_incomplete dependency_id)
  | none ↦ elim (find_conflict snapshot.active_leases (effective_lease_requests task)) [
    | some (request, existing) ↦
        wait task.id (resource_conflict request.resource_id existing.id existing.mode request.mode)
    | none ↦ elim (find_lower_layer_disruption snapshot task) [
      | some (path, lease) ↦
          wait task.id (
            lower_layer_disruption path.lower_resource_id path.upper_resource_id lease.id
              lease.mode)
      | none ↦ run task.id dependencies_satisfied_no_conflicts
    ]
  ]
]
