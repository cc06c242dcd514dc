-- ===== src/Task.antt =====
-- Tasks and the leases that they request: `Task` in crates/runlane-core/src/lib.rs.
use runlane.Prelude.{String, List, [], ◌∷◌, ◌++◌, map, keep}
use runlane.Domain.{
  OperationalLayer, Capability, observe, exclusive, ResourceLeaseRequest, is_mutating, ImpactSet,
  empty_impact, VerificationPlan, empty_plan,
}

pub record Task : Type 0 where
  pub id : String
  pub layer : OperationalLayer
  pub required_capabilities : List Capability
  pub reads : List String
  pub writes : List String
  pub lease_requests : List ResourceLeaseRequest
  pub dependencies : List String
  pub impact : ImpactSet
  pub verification : VerificationPlan

-- `Task::new`
unfoldable pub new_task : String → OperationalLayer → Task
new_task id layer = record {
  id = id;
  layer = layer;
  required_capabilities = [];
  reads = [];
  writes = [];
  lease_requests = [];
  dependencies = [];
  impact = empty_impact layer;
  verification = empty_plan;
}

abbrev read_request : String → ResourceLeaseRequest
read_request resource_id = record {
  resource_id = resource_id;
  mode = observe;
  reason = "task read";
}

abbrev write_request : String → ResourceLeaseRequest
write_request resource_id = record {
  resource_id = resource_id;
  mode = exclusive;
  reason = "task write";
}

-- the requests derived from reads and writes, where the task has none of its own
abbrev pub or_default_requests : List ResourceLeaseRequest → Task → List ResourceLeaseRequest
or_default_requests [] task = map read_request task.reads ++ map write_request task.writes
or_default_requests (r ∷ rs) task = r ∷ rs

unfoldable pub effective_lease_requests : Task → List ResourceLeaseRequest
effective_lease_requests task = or_default_requests task.lease_requests task

unfoldable pub mutated_resource_ids : Task → List String
mutated_resource_ids task =
    task.writes
    ++ map (λ request. request.resource_id)
        (keep (λ request. is_mutating request.mode) task.lease_requests)
