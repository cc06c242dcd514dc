-- ===== src/Scheduler/Decisions.antt =====
-- When a task runs.
use mathlib.Core.List.{Mem}
use runlane.Prelude.{
  true, false, ◌&&◌, String, ◌≡◌, ◌↔◌, none, refl, ◌==◌, eq_iff, arith, find, and-not_iff,
  and-true_iff,
}
use runlane.Prelude.Search.{
  find-none, find-eq-none, mem-keep, mem_of_mem-keep, contains-mem, mem-contains, find_pair-none,
  find_pair-eq-none,
}
use runlane.Domain.{
  system, layer_eq, layer_eq_iff, ResourceLease, ResourceLeaseRequest, is_compatible_with,
}
use runlane.Task.{Task, effective_lease_requests, mutated_resource_ids}
use runlane.Scheduler.{
  SchedulerSnapshot, ResourceDependencyPath, run, dependencies_satisfied_no_conflicts,
  is_incomplete, contains_id, conflicts, find_conflict, is_disruptive, disrupts,
  find_lower_layer_disruption, decide_task,
}

-- Every dependency has completed, every lease on a requested resource is compatible with the
-- request, and no drain or reboot below is connected to a resource that a task above it mutates.
pub record MayRun (snapshot : SchedulerSnapshot) (task : Task) : Type 0 where
  pub completed : (id : String) → Mem id task.dependencies → Mem id snapshot.completed_task_ids
  pub compatible :
      (request : ResourceLeaseRequest) (lease : ResourceLease)
      → Mem request (effective_lease_requests task)
      → Mem lease snapshot.active_leases
      → lease.resource_id ≡ request.resource_id
      → is_compatible_with lease.mode request.mode ≡ true
  pub undisturbed :
      (lease : ResourceLease) (path : ResourceDependencyPath)
      → Mem lease snapshot.active_leases
      → Mem path snapshot.dependency_paths
      → is_disruptive lease.mode ≡ true
      → path.lower_resource_id ≡ lease.resource_id
      → Mem path.upper_resource_id (mutated_resource_ids task)
      → task.layer ≡ system

-- what each test of `decide_task` says of one element
conflicts-false :
    (request : ResourceLeaseRequest) (lease : ResourceLease)
    → (conflicts request lease ≡ false) ↔ (
        lease.resource_id ≡ request.resource_id → is_compatible_with lease.mode request.mode ≡ true)
conflicts-false request lease =
    let (to, from) =
      and-not_iff (lease.resource_id == request.resource_id)
        (is_compatible_with lease.mode request.mode) in
    (
      λ h same. to h ((eq_iff lease.resource_id request.resource_id).1 same),
      λ h. from (λ t. h ((eq_iff lease.resource_id request.resource_id).0 t)),
    )

disrupts-false :
    (task : Task) (lease : ResourceLease) (path : ResourceDependencyPath)
    → (disrupts task lease path ≡ false) ↔ (
        path.lower_resource_id ≡ lease.resource_id
        → Mem path.upper_resource_id (mutated_resource_ids task)
        → task.layer ≡ system)
disrupts-false task lease path =
    let (to, from) =
      and-not_iff
        (path.lower_resource_id == lease.resource_id
          && contains_id (mutated_resource_ids task) path.upper_resource_id)
        (layer_eq task.layer system) in
    (
      λ h below above. (layer_eq_iff task.layer system).0 (
          to h (
            (and-true_iff _ _).1
              ((eq_iff path.lower_resource_id lease.resource_id).1 below, mem-contains _ _ above))),
      λ h. from λ t.
          let (below, above) = (and-true_iff _ _).0 t in
          (layer_eq_iff task.layer system).1 (
            h ((eq_iff path.lower_resource_id lease.resource_id).0 below) (contains-mem _ _ above)),
    )

module _ (snapshot : SchedulerSnapshot) (task : Task) where
  -- the three searches of `decide_task`, all without a hit
  AllClear : Type 0
  AllClear =
      (find (is_incomplete snapshot) task.dependencies ≡ none)
      × (find_conflict snapshot.active_leases (effective_lease_requests task) ≡ none)
      × (find_lower_layer_disruption snapshot task ≡ none)

  AllClear-MayRun : AllClear → MayRun snapshot task
  unfolding AllClear find_conflict find_lower_layer_disruption
  AllClear-MayRun (done, free, calm) = record {
    completed = λ id m.
        contains-mem _ id
          (ground (arith, find-none (is_incomplete snapshot) task.dependencies done id m));
    compatible = λ request lease mq ml. (conflicts-false request lease).0 (
        find_pair-none (λ q l. (q, l)) conflicts _ snapshot.active_leases free request lease mq ml);
    undisturbed = λ lease path ml mp hard. (disrupts-false task lease path).0 (
        find_pair-none (λ l p. (p, l)) (disrupts task) _ snapshot.dependency_paths calm lease path
          (mem-keep (λ l. is_disruptive l.mode) snapshot.active_leases lease ml hard) mp);
  }

  MayRun-AllClear : MayRun snapshot task → AllClear
  unfolding AllClear find_conflict find_lower_layer_disruption
  MayRun-AllClear may = (
    find-eq-none _ task.dependencies (λ id m. rw (mem-contains _ id (may.completed id m)) refl),
    find_pair-eq-none (λ q l. (q, l)) conflicts _ snapshot.active_leases
        (λ q l mq ml. (conflicts-false q l).1 (may.compatible q l mq ml)),
    find_pair-eq-none (λ l p. (p, l)) (disrupts task) _ snapshot.dependency_paths
        (λ l p ml mp.
          let (held, hard) =
            mem_of_mem-keep (λ l. is_disruptive l.mode) snapshot.active_leases l ml in
          (disrupts-false task l p).1 (may.undisturbed l p held mp hard)),
  )

  decide_task-AllClear :
      (decide_task snapshot task ≡ run task.id dependencies_satisfied_no_conflicts) ↔ AllClear
  unfolding decide_task AllClear
  decide_task-AllClear = (λ h. ground arith, λ h. ground arith)

  -- The scheduler runs a task exactly when every dependency has completed, every active lease on a
  -- resource that the task requests is compatible with the request by the two modes alone, whichever
  -- run holds it, and no drain or reboot of a resource below reaches a resource that the task mutates,
  -- unless it is a system-layer task.
  pub decide_task-run :
      (decide_task snapshot task ≡ run task.id dependencies_satisfied_no_conflicts)
      ↔ MayRun snapshot task
  decide_task-run = (
    λ h. AllClear-MayRun (decide_task-AllClear.0 h),
    λ h. decide_task-AllClear.1 (MayRun-AllClear h),
  )
