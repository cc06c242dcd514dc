-- ===== src/Runbook.antt =====
-- The two runbook planners of crates/runlane-core/src/lib.rs: `plan_service_unhealthy_runbook`
-- and `plan_disk_pressure_runbook`.
pub mod Service
pub mod Disk
pub mod Plans
pub mod ServicePlans
pub mod DiskPlans
mod Tests
use runlane.Prelude.{String, Bool, List, [], ◌∷◌, ◌++◌, any}
use runlane.Domain.{
  Capability, capability_eq, ResourceLeaseRequest, SkippedVerification, VerificationPlan, system,
}
use runlane.Text.{format}
use runlane.Task.{Task, new_task}

-- `Task::new` on the system layer with capabilities and reads
abbrev pub reading_task : String → List Capability → List String → Task
reading_task id capabilities reads = record (new_task id system) {
  required_capabilities = capabilities;
  reads = reads;
}

-- `format!("system:node/{}/{rest}")`
abbrev pub node_resource : String → String → String
node_resource node_id rest = format ("system:node/" ∷ node_id ∷ "/" ∷ rest ∷ [])

-- `verification.skipped.extend(..)`
abbrev pub extend_skipped : List SkippedVerification → VerificationPlan → VerificationPlan
extend_skipped more plan = record plan { skipped = plan.skipped ++ more }
