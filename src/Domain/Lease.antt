-- ===== src/Domain/Lease.antt =====
-- Lease modes, resource leases and lease requests (crates/runlane-core/src/lib.rs).
use runlane.Prelude.{Bool, true, false, String, Option, none, some}

pub data LeaseMode : Type 0 where
  observe intent exclusive drain reboot : LeaseMode

abbrev pub is_mutating : LeaseMode → Bool
is_mutating exclusive = true
is_mutating drain = true
is_mutating reboot = true
is_mutating _ = false

abbrev pub is_compatible_with : LeaseMode → LeaseMode → Bool
is_compatible_with observe observe = true
is_compatible_with observe intent = true
is_compatible_with observe exclusive = true
is_compatible_with observe drain = true
is_compatible_with intent observe = true
is_compatible_with intent intent = true
is_compatible_with intent exclusive = true
is_compatible_with exclusive observe = true
is_compatible_with exclusive intent = true
is_compatible_with drain observe = true
is_compatible_with drain reboot = true
is_compatible_with reboot drain = true
is_compatible_with _ _ = false

pub record ResourceLease : Type 0 where
  pub id : String
  pub run_id : String
  pub task_id : Option String
  pub resource_id : String
  pub mode : LeaseMode
  pub reason : String

pub record ResourceLeaseRequest : Type 0 where
  pub resource_id : String
  pub mode : LeaseMode
  pub reason : String

-- `ResourceLease::for_run`, `with_task`
unfoldable pub for_run : String → String → String → LeaseMode → String → ResourceLease
for_run id run_id resource_id mode reason = record {
  id = id;
  run_id = run_id;
  task_id = none;
  resource_id = resource_id;
  mode = mode;
  reason = reason;
}

unfoldable pub with_task : ResourceLease → String → ResourceLease
with_task lease task_id = record lease { task_id = some task_id }
