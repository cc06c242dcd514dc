-- ===== src/Scheduler/Grants.antt =====
-- Leases that are granted to a task that may run, beside the leases that are active already.
use mathlib.Core.Bool.{Bool-set}
use mathlib.Core.HLevel.{Π_prop}
use mathlib.Core.List.{Mem, mem-map, mem-cons_self, mem-cons_of_mem, mem-append}
use mathlib.Core.Logic.Or
use mathlib.Core.Logic.{∥∥₁_elim}
use runlane.Prelude.{true, String, ◌≡◌, ◌⊎◌, List, [], ◌∷◌, ◌++◌, map, sym, subst, ◌∙◌, arith}
use runlane.Domain.{
  LeaseMode, drain, reboot, is_mutating, is_compatible_with, ResourceLease, ResourceLeaseRequest,
  for_run, with_task,
}
use runlane.Task.{Task, effective_lease_requests}
use runlane.Scheduler.{SchedulerSnapshot, run, dependencies_satisfied_no_conflicts, decide_task}
use runlane.Scheduler.Decisions.{MayRun, decide_task-run}

is_compatible_with_symm : (a b : LeaseMode) → is_compatible_with a b ≡ is_compatible_with b a
is_compatible_with_symm a b = ground arith

-- Two leases of one resource have compatible modes.
abbrev Agree : ResourceLease → ResourceLease → Type 0
Agree a b = a.resource_id ≡ b.resource_id → is_compatible_with a.mode b.mode ≡ true

-- Any two leases of the list agree.
abbrev pub Coherent : List ResourceLease → Type 0
Coherent [] = Unit {0}
Coherent (l ∷ ls) = ((m : ResourceLease) → Mem m ls → Agree l m) × Coherent ls

Coherent-append :
    (xs ys : List ResourceLease)
    → Coherent xs
    → Coherent ys
    → ((a b : ResourceLease) → Mem a xs → Mem b ys → Agree a b)
    → Coherent (xs ++ ys)
Coherent-append [] ys hx hy cross = hy
Coherent-append (x ∷ xs) ys hx hy cross = (
  λ m h same.
      Or.elim (Bool-set _ _) (mem-append.0 h) (λ l. hx.0 m l same)
        (λ r. cross x m mem-cons_self r same),
  Coherent-append xs ys hx.1 hy (λ a b ma mb. cross a b (mem-cons_of_mem x ma) mb),
)

-- The lease that a request becomes, with an id from the caller.
abbrev pub to_lease :
    (ResourceLeaseRequest → String) → String → Task → ResourceLeaseRequest → ResourceLease
to_lease fresh run_id task q =
    with_task (for_run (fresh q) run_id q.resource_id q.mode q.reason) task.id

abbrev pub granted : (ResourceLeaseRequest → String) → String → Task → List ResourceLease
granted fresh run_id task = map (to_lease fresh run_id task) (effective_lease_requests task)

-- Leases stay coherent: where the active leases agree with one another, and a task's own requests
-- do, the leases of a task that the scheduler lets run agree with all of them.
pub granted-Coherent :
    (snapshot : SchedulerSnapshot) (task : Task) (fresh : ResourceLeaseRequest → String)
    (run_id : String)
    → Coherent snapshot.active_leases
    → Coherent (granted fresh run_id task)
    → decide_task snapshot task ≡ run task.id dependencies_satisfied_no_conflicts
    → Coherent (granted fresh run_id task ++ snapshot.active_leases)
unfolding for_run with_task
granted-Coherent snapshot task fresh run_id active own may =
    let ready : MayRun snapshot task = (decide_task-run snapshot task).0 may in
    Coherent-append (granted fresh run_id task) snapshot.active_leases own active λ a b ma mb.
      ∥∥₁_elim (mem-map.0 ma) (Π_prop λ _. Bool-set _ _) λ (q, mq, made).
        subst (λ x. Agree x b) made
          (λ same. is_compatible_with_symm q.mode b.mode ∙ ready.compatible q b mq mb (sym same))

-- Two leases of a coherent list that both mutate one resource are a drain and a reboot.
pub Coherent-mutating :
    (l m : ResourceLease) (ls : List ResourceLease)
    → Coherent (l ∷ ls)
    → Mem m ls
    → l.resource_id ≡ m.resource_id
    → is_mutating l.mode ≡ true
    → is_mutating m.mode ≡ true
    → ((l.mode ≡ drain) × (m.mode ≡ reboot)) ⊎ ((l.mode ≡ reboot) × (m.mode ≡ drain))
Coherent-mutating l m ls h mem same hl hm = ground (arith, h.0 m mem same)
