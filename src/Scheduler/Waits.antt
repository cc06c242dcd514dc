-- ===== src/Scheduler/Waits.antt =====
-- What a wait reason says.
use mathlib.Core.List.{Mem}
use runlane.Prelude.{
  true, false, String, ◌≡◌, ◌≢◌, some, refl, sym, subst, keep, inl, inr, eq_iff, arith, find,
  Option-cases,
}
use runlane.Prelude.Search.{find-some, mem_of_mem-keep, contains-mem, mem-contains, find_pair-some}
use runlane.Domain.{system, ResourceLease, ResourceLeaseRequest, is_compatible_with}
use runlane.Task.{Task, effective_lease_requests, mutated_resource_ids}
use runlane.Scheduler.{
  SchedulerSnapshot, ResourceDependencyPath, wait, is_incomplete, SchedulerWaitReason,
  dependency_incomplete, resource_conflict, lower_layer_disruption, conflicts, find_conflict,
  is_disruptive, disrupts, find_lower_layer_disruption, decide_task,
}

conflicts-true :
    (request : ResourceLeaseRequest) (lease : ResourceLease)
    → conflicts request lease ≡ true
    → (lease.resource_id ≡ request.resource_id)
      × (is_compatible_with lease.mode request.mode ≡ false)
conflicts-true request lease h = ground (arith, eq_iff lease.resource_id request.resource_id)

disrupts-true :
    (task : Task) (lease : ResourceLease) (path : ResourceDependencyPath)
    → disrupts task lease path ≡ true
    → (path.lower_resource_id ≡ lease.resource_id)
      × Mem path.upper_resource_id (mutated_resource_ids task)
      × (task.layer ≢ system)
disrupts-true task lease path h = (
  ground (arith, eq_iff path.lower_resource_id lease.resource_id),
  contains-mem _ _ (ground arith),
  λ e. ground arith,
)

module _ (snapshot : SchedulerSnapshot) (task : Task) where
  -- What each wait reason claims of the snapshot and the task.
  pub Justified : SchedulerWaitReason → Type 0
  Justified (dependency_incomplete id) =
      Mem id task.dependencies × (¬ Mem id snapshot.completed_task_ids)
  Justified (resource_conflict resource_id lease_id held asked) =
      (request : ResourceLeaseRequest) × (lease : ResourceLease) × Mem request
        (effective_lease_requests task)
      × Mem lease snapshot.active_leases
      × (request.resource_id ≡ resource_id)
      × (request.mode ≡ asked)
      × (lease.resource_id ≡ resource_id)
      × (lease.id ≡ lease_id)
      × (lease.mode ≡ held)
      × (is_compatible_with held asked ≡ false)
  Justified (lower_layer_disruption lower upper lease_id held) =
      (lease : ResourceLease) × (path : ResourceDependencyPath) × Mem lease snapshot.active_leases
      × Mem path snapshot.dependency_paths
      × (path.lower_resource_id ≡ lower)
      × (path.upper_resource_id ≡ upper)
      × (lease.resource_id ≡ lower)
      × (lease.id ≡ lease_id)
      × (lease.mode ≡ held)
      × (is_disruptive held ≡ true)
      × Mem upper (mutated_resource_ids task)
      × (task.layer ≢ system)

  dependency-Justified :
      (id : String)
      → find (is_incomplete snapshot) task.dependencies ≡ some id
      → Justified (dependency_incomplete id)
  unfolding Justified
  dependency-Justified id e =
      let (m, t) = find-some (is_incomplete snapshot) task.dependencies id e in
      (m, λ done. let c = mem-contains snapshot.completed_task_ids id done in ground arith)

  conflict-Justified :
      (request : ResourceLeaseRequest) (lease : ResourceLease)
      → find_conflict snapshot.active_leases (effective_lease_requests task) ≡ some (request, lease)
      → Justified (resource_conflict request.resource_id lease.id lease.mode request.mode)
  unfolding Justified find_conflict
  conflict-Justified request lease e =
      let (q, l, mq, ml, t, same) =
        find_pair-some (λ q l. (q, l)) conflicts _ snapshot.active_leases _ e in
      let (mr, mx, hit) =
        subst
          (λ (c : ResourceLeaseRequest × ResourceLease).
            Mem c.0 (effective_lease_requests task)
            × Mem c.1 snapshot.active_leases
            × (conflicts c.0 c.1 ≡ true))
          same (mq, ml, t) in
      let (shared, clash) = conflicts-true request lease hit in
      (request, lease, mr, mx, refl, refl, shared, refl, refl, clash)

  disruption-Justified :
      (path : ResourceDependencyPath) (lease : ResourceLease)
      → find_lower_layer_disruption snapshot task ≡ some (path, lease)
      → Justified
          (lower_layer_disruption path.lower_resource_id path.upper_resource_id lease.id lease.mode)
  unfolding Justified find_lower_layer_disruption
  disruption-Justified path lease e =
      let (l, p, ml, mp, t, same) =
        find_pair-some (λ l p. (p, l)) (disrupts task) _ snapshot.dependency_paths _ e in
      let (kept, mx, hit) =
        subst
          (λ (c : ResourceDependencyPath × ResourceLease).
            Mem c.1 (keep (λ l. is_disruptive l.mode) snapshot.active_leases)
            × Mem c.0 snapshot.dependency_paths
            × (disrupts task c.1 c.0 ≡ true))
          same (ml, mp, t) in
      let (held, hard) =
        mem_of_mem-keep (λ l. is_disruptive l.mode) snapshot.active_leases lease kept in
      let (below, above, upper_layer) = disrupts-true task lease path hit in
      (lease, path, held, mx, refl, refl, sym below, refl, refl, hard, above, upper_layer)

  -- A wait names the task, and its reason is true of the snapshot: the dependency that it names is
  -- a dependency that has not completed, and the lease that it names is active and in the way.
  pub wait-Justified :
      (id : String) (reason : SchedulerWaitReason)
      → decide_task snapshot task ≡ wait id reason
      → (id ≡ task.id) × Justified reason
  unfolding decide_task
  wait-Justified id reason h =
      elim (Option-cases (find (is_incomplete snapshot) task.dependencies)) [
        | inr (d, e) ↦ (ground arith, subst Justified (ground arith) (dependency-Justified d e))
        | inl done ↦
            elim (Option-cases
              (find_conflict snapshot.active_leases (effective_lease_requests task))) [
                | inr ((q, l), e) ↦
                    (ground arith, subst Justified (ground arith) (conflict-Justified q l e))
                | inl free ↦ elim (Option-cases (find_lower_layer_disruption snapshot task)) [
                  | inr ((p, l), e) ↦
                      (ground arith, subst Justified (ground arith) (disruption-Justified p l e))
                  | inl calm ↦ absurd (ground arith)
                ]
              ]
      ]
