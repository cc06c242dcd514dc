-- ===== src/Run/Lifecycle.antt =====
-- What the transition table means for a whole run.
use mathlib.Core.List.{Mem, mem-cons_self, mem-cons_of_mem}
use runlane.Prelude.{
  ℕ, ◌+◌, ◌≤◌, ◌<◌, ◌≡◌, refl, ◌⊎◌, inl, inr, Bool, true, false, List, [], ◌∷◌, length, arith,
  String, Bool-cases,
}
use runlane.Domain.{OperationalLayer}
use runlane.Run.{
  RunState, created, planned, collecting_evidence, evidence_collected, proposal_generated,
  waiting_for_approval, approved, rejected, executing, verifying, resolved, failed, escalated,
  reviewed, is_valid_run_transition, Run, new_run, transition_to, visited, after_requests,
}

-- How far along the lifecycle a state stands.
abbrev stage : RunState → ℕ
stage created = 0
stage planned = 1
stage collecting_evidence = 2
stage evidence_collected = 3
stage proposal_generated = 4
stage waiting_for_approval = 5
stage approved = 6
stage rejected = 6
stage executing = 7
stage verifying = 8
stage resolved = 9
stage failed = 9
stage escalated = 9
stage reviewed = 10

stage-lt : (from to : RunState) → is_valid_run_transition from to ≡ true → stage from < stage to
unfolding is_valid_run_transition
stage-lt from to h = ground arith

-- Every transition that is accepted moves the run forward, so no request sequence makes more of
-- them than the stages that are left: a run cannot cycle, and ends after ten transitions at most.
visited-stage :
    (run : Run) (requests : List RunState)
    → stage run.state + length (visited run requests) ≤ stage (after_requests run requests).state
unfolding visited after_requests transition_to
visited-stage run [] = omega arith
visited-stage run (to ∷ rest) = ground (
  arith,
  stage-lt run.state to,
  visited-stage (record run { state = to }) rest,
  visited-stage run rest,
)

stage-le : (s : RunState) → stage s ≤ 10
stage-le s = ground arith

pub length-visited-le : (run : Run) (requests : List RunState) → length (visited run requests) ≤ 10
length-visited-le run requests =
    omega (arith, visited-stage run requests, stage-le (after_requests run requests).state)

-- The states that only a run with an approval can be in.
abbrev pub is_past_approval : RunState → Bool
is_past_approval executing = true
is_past_approval verifying = true
is_past_approval resolved = true
is_past_approval failed = true
is_past_approval escalated = true
is_past_approval _ = false

past_approval_step :
    (from to : RunState)
    → is_valid_run_transition from to ≡ true
    → is_past_approval to ≡ true
    → (is_past_approval from ≡ true) ⊎ (from ≡ approved)
unfolding is_valid_run_transition
past_approval_step from to h k = ground arith

-- What is known of a run that may be past its approval: it started so, or entered `approved`.
abbrev Accounted : RunState → List RunState → Type 0
Accounted start later = (is_past_approval start ≡ true) ⊎ (start ≡ approved) ⊎ Mem approved later

Accounted-step :
    (from to : RunState) (later : List RunState)
    → is_valid_run_transition from to ≡ true
    → Accounted to later
    → Accounted from (to ∷ later)
Accounted-step from to later h (inl past) = elim (past_approval_step from to h past) [
  | inl before ↦ inl before
  | inr just ↦ inr (inl just)
]
Accounted-step from to later h (inr (inl e)) = inr (inr (rw e mem-cons_self))
Accounted-step from to later h (inr (inr m)) = inr (inr (mem-cons_of_mem to m))

-- A run that executes, verifies or has an outcome was approved on the way, unless it started so.
past_approval-visited :
    (run : Run) (requests : List RunState)
    → is_past_approval (after_requests run requests).state ≡ true
    → Accounted run.state (visited run requests)
unfolding visited after_requests transition_to
past_approval-visited run [] h = inl h
past_approval-visited run (to ∷ rest) h = elim (Bool-cases (is_valid_run_transition run.state to)) [
  | inl e ↦ rw e (
      Accounted-step run.state to _ e
        (past_approval-visited (record run { state = to }) rest (ground arith)))
  | inr e ↦ rw e (past_approval-visited run rest (ground arith))
]

-- A new run that is executing, verifying or has an outcome has passed through `approved`.
pub new_run-approved :
    (id goal : String) (layer : OperationalLayer) (requests : List RunState)
    → is_past_approval (after_requests (new_run id goal layer) requests).state ≡ true
    → Mem approved (visited (new_run id goal layer) requests)
unfolding new_run
new_run-approved id goal layer requests h =
    elim (past_approval-visited (new_run id goal layer) requests h) [
      | inl started ↦ cc
      | inr (inl start) ↦ cc
      | inr (inr m) ↦ m
    ]

-- transitions that lead a run to its review
abbrev to_review : RunState → List RunState
to_review created =
    planned ∷ collecting_evidence ∷ evidence_collected ∷ proposal_generated ∷ waiting_for_approval
    ∷ rejected ∷ reviewed ∷ []
to_review planned =
    collecting_evidence ∷ evidence_collected ∷ proposal_generated ∷ waiting_for_approval ∷ rejected
    ∷ reviewed ∷ []
to_review collecting_evidence =
    evidence_collected ∷ proposal_generated ∷ waiting_for_approval ∷ rejected ∷ reviewed ∷ []
to_review evidence_collected = proposal_generated ∷ waiting_for_approval ∷ rejected ∷ reviewed ∷ []
to_review proposal_generated = waiting_for_approval ∷ rejected ∷ reviewed ∷ []
to_review waiting_for_approval = rejected ∷ reviewed ∷ []
to_review approved = executing ∷ verifying ∷ resolved ∷ reviewed ∷ []
to_review executing = verifying ∷ resolved ∷ reviewed ∷ []
to_review verifying = resolved ∷ reviewed ∷ []
to_review reviewed = []
to_review _ = reviewed ∷ []

to_review-length : (s : RunState) → length (to_review s) ≤ 7
to_review-length s = ground arith

to_review-reviewed :
    (run : Run) (s : RunState)
    → (after_requests (record run { state = s }) (to_review s)).state ≡ reviewed
unfolding after_requests transition_to is_valid_run_transition
to_review-reviewed run s = ground arith

reviewed-stays :
    (run : Run) (requests : List RunState)
    → run.state ≡ reviewed
    → after_requests run requests ≡ run
unfolding after_requests transition_to is_valid_run_transition
reviewed-stays run [] h = refl
reviewed-stays run (to ∷ rest) h =
    let refused : (transition_to to run).1 ≡ run = ground arith in
    rw refused (reviewed-stays run rest h)

-- A run can be brought to its review from whatever state it is in, by seven requests at most, and
-- then no sequence of requests changes it.
pub after_requests-reviewed :
    (run : Run)
    → (requests : List RunState) × (length requests ≤ 7)
      × ((after_requests run requests).state ≡ reviewed)
      × ((more : List RunState)
          → after_requests (after_requests run requests) more ≡ after_requests run requests)
after_requests-reviewed run =
    let ended = to_review-reviewed run run.state in
    (
      to_review run.state,
      to_review-length run.state,
      ended,
      λ more. reviewed-stays (after_requests run (to_review run.state)) more ended,
    )
