-- ===== src/Run.antt =====
-- One execution of a runbook and its lifecycle: `RunState`, `Run` and `is_valid_run_transition`
-- in crates/runlane-core/src/lib.rs.
pub mod Lifecycle
mod Tests
use runlane.Prelude.{Bool, true, false, String, List, [], ◌∷◌, ok, err, if◌then◌else◌}
use runlane.Prelude.Action.{Action}
use runlane.Domain.{
  OperationalLayer, ResourceLease, ImpactSet, empty_impact, VerificationPlan, empty_plan,
}
use runlane.Task.{Task}

pub data RunState : Type 0 where
  created planned collecting_evidence evidence_collected proposal_generated : RunState
  waiting_for_approval approved rejected executing verifying : RunState
  resolved failed escalated reviewed : RunState

pub is_valid_run_transition : RunState → RunState → Bool
is_valid_run_transition created planned = true
is_valid_run_transition planned collecting_evidence = true
is_valid_run_transition collecting_evidence evidence_collected = true
is_valid_run_transition evidence_collected proposal_generated = true
is_valid_run_transition proposal_generated waiting_for_approval = true
is_valid_run_transition waiting_for_approval approved = true
is_valid_run_transition waiting_for_approval rejected = true
is_valid_run_transition approved executing = true
is_valid_run_transition executing verifying = true
is_valid_run_transition verifying resolved = true
is_valid_run_transition verifying failed = true
is_valid_run_transition verifying escalated = true
is_valid_run_transition resolved reviewed = true
is_valid_run_transition failed reviewed = true
is_valid_run_transition escalated reviewed = true
is_valid_run_transition rejected reviewed = true
is_valid_run_transition _ _ = false

pub record Run : Type 0 where
  pub id : String
  pub goal : String
  pub target_layer : OperationalLayer
  pub state : RunState
  pub tasks : List Task
  pub leases : List ResourceLease
  pub impact : ImpactSet
  pub verification : VerificationPlan

-- `Run::new`
unfoldable pub new_run : String → String → OperationalLayer → Run
new_run id goal target_layer = record {
  id = id;
  goal = goal;
  target_layer = target_layer;
  state = created;
  tasks = [];
  leases = [];
  impact = empty_impact target_layer;
  verification = empty_plan;
}

pub record InvalidRunTransition : Type 0 where
  pub from : RunState
  pub to : RunState

pub transition_to : RunState → Action Run InvalidRunTransition Unit
transition_to to run =
    if is_valid_run_transition run.state to
    then (ok tt, record run { state = to })
    else (err (record { from = run.state; to = to }), run)

-- The states that a run enters as transitions are requested of it one after the other.
pub visited : Run → List RunState → List RunState
visited run [] = []
visited run (to ∷ rest) =
    let later = visited (transition_to to run).1 rest in
    if is_valid_run_transition run.state to then to ∷ later else later

pub after_requests : Run → List RunState → Run
after_requests run [] = run
after_requests run (to ∷ rest) = after_requests (transition_to to run).1 rest
