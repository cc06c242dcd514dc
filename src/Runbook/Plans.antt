-- ===== src/Runbook/Plans.antt =====
-- What a runbook plan can hold to: a run that stays inside a capability report.
use runlane.Prelude.{
  String, Bool, true, false, ◌≡◌, List, [], ◌∷◌, map, all, Result, ok, err, All, Option, none, some,
}
use runlane.Prelude.Search.{Distinct}
use runlane.Domain.{CapabilityReport, supports}
use runlane.Task.{Task, mutated_resource_ids}
use runlane.Run.{Run, created}
use runlane.Scheduler.{contains_id}

-- each task depends only on tasks before it
unfoldable pub DependsBack : List String → List Task → Type 0
DependsBack seen [] = Unit {0}
DependsBack seen (t ∷ rest) =
    (all (contains_id seen) t.dependencies ≡ true) × DependsBack (t.id ∷ seen) rest

-- A run that stays inside a capability report and changes one resource only: its tasks need only
-- capabilities that the report has, depend only on tasks before them, have different ids, and
-- mutate nothing but the target.
pub record IsConfined (report : CapabilityReport) (target : String) (run : Run) : Type 0 where
  pub fresh : run.state ≡ created
  pub supported : All (λ t. All (λ c. supports report c ≡ true) t.required_capabilities) run.tasks
  pub ordered : DependsBack [] run.tasks
  pub distinct : Distinct (map (λ t. t.id) run.tasks)
  pub scoped : All (λ t. All (λ r. r ≡ target) (mutated_resource_ids t)) run.tasks

-- the platform is supported, and the report has all that it needs
unfoldable pub HasAll : CapabilityReport → Option (List String) → Type 0
HasAll report none = ⊥
HasAll report (some ids) = All (λ id. supports report (record { name = id }) ≡ true) ids

abbrev pub is_ok {ℓ} : {E A : Type ℓ} → Result E A → Bool
is_ok (ok _) = true
is_ok (err _) = false
