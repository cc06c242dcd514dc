-- ===== src/Run/Tests.antt =====
-- The run's lifecycle at a request sequence that resolves, with a refused request in it.
use mathlib.Core.List.{Mem}
use runlane.Prelude.{◌≡◌, ◌≤◌, refl, List, [], ◌∷◌, length}
use runlane.Domain.{system}
use runlane.Run.{
  RunState, planned, collecting_evidence, evidence_collected, proposal_generated,
  waiting_for_approval, approved, executing, verifying, resolved, reviewed, is_valid_run_transition,
  Run, new_run, transition_to, visited, after_requests,
}
use runlane.Run.Lifecycle.{new_run-approved, length-visited-le, after_requests-reviewed}

-- the request for `executing` before the approval is refused
abbrev requests : List RunState
requests =
    planned ∷ collecting_evidence ∷ evidence_collected ∷ proposal_generated ∷ executing
    ∷ waiting_for_approval ∷ approved ∷ executing ∷ verifying ∷ resolved ∷ []

abbrev restart_run : Run
restart_run = new_run "run-1" "restore sshd" system

resolved_test : (after_requests restart_run requests).state ≡ resolved
unfolding after_requests transition_to is_valid_run_transition new_run
resolved_test = refl

new_run-approved_example : Mem approved (visited restart_run requests)
unfolding after_requests transition_to is_valid_run_transition new_run
new_run-approved_example = new_run-approved "run-1" "restore sshd" system requests refl

length-visited-le_example : length (visited restart_run requests) ≤ 10
length-visited-le_example = length-visited-le restart_run requests

after_requests-reviewed_example :
    (more : List RunState) × (length more ≤ 7)
    × ((after_requests (after_requests restart_run requests) more).state ≡ reviewed)
    × ((later : List RunState)
        → after_requests (after_requests (after_requests restart_run requests) more) later
          ≡ after_requests (after_requests restart_run requests) more)
after_requests-reviewed_example = after_requests-reviewed (after_requests restart_run requests)
