-- ===== src/Runtime/Steps.antt =====
-- The calls on a control plane, and the steps that they are.
use runlane.Prelude.{
  ℕ, false, ◌≡◌, sym, subst, ap, inl, inr, Option, none, some, List, [], ◌∷◌, ◌++◌, find, any, ◌==◌,
  arith,
}
use runlane.Domain.{AgentIdentity}
use runlane.Audit.{AuditEventKind, enrollment_token_created, agent_result_spooled}
use runlane.Protocol.{AgentResultSubmission, LocalSpoolItem}
use runlane.Runtime.{
  EnrollmentToken, AgentEnrollmentRequest, PendingAgentTask, ControlPlane, is_for,
  create_enrollment_token, enroll_agent, enqueue_task, pull_task, submit_result, spool_result,
}
use runlane.Runtime.Events.{log, noted, append_event_lem, IsKnown}
use runlane.Runtime.Enroll.{with_agent, Honours, enroll_agent_cases}
use runlane.Runtime.Pull.{taken, pull_task_cases}
use runlane.Runtime.Submit.{Answers, accepted, submit_result_cases}

-- the calls that change a control plane
pub data Call : Type 0 where
  create_token_call : EnrollmentToken → Call
  enroll_call : AgentEnrollmentRequest → Call
  enqueue_call : PendingAgentTask → Call
  pull_call : AgentIdentity → ℕ → Call
  submit_call : AgentIdentity → AgentResultSubmission → ℕ → Call
  spool_call : LocalSpoolItem → Call

-- the control plane that a call leaves, whatever it returns
unfoldable pub after : Call → ControlPlane → ControlPlane
after (create_token_call token) plane = (create_enrollment_token token plane).1
after (enroll_call request) plane = (enroll_agent request plane).1
after (enqueue_call task) plane = enqueue_task task plane
after (pull_call identity now) plane = (pull_task identity now plane).1
after (submit_call identity submission now) plane = (submit_result identity submission now plane).1
after (spool_call spool) plane = (spool_result spool plane).1

unfoldable pub after_all : List Call → ControlPlane → ControlPlane
after_all [] plane = plane
after_all (call ∷ calls) plane = after_all calls (after call plane)

-- What a call can do to a control plane: append at most an event; add a token, an agent that a
-- token vouches for, or a task; hand out a pending task; accept or spool a result.
pub data Step (plane : ControlPlane) : ControlPlane → Type 0 where
  notes : (kind : Option AuditEventKind) → Step plane (noted kind plane)
  issues :
      (token : EnrollmentToken) (kind : AuditEventKind)
      → Step plane (record plane {
        enrollment_tokens = plane.enrollment_tokens ++ token ∷ [];
        ledger = log kind plane.ledger;
      })
  enrolls :
      (request : AgentEnrollmentRequest) (token : EnrollmentToken)
      → Honours request plane token
      → Step plane (with_agent request plane)
  queues : (task : PendingAgentTask) → Step plane (enqueue_task task plane)
  pulls :
      (identity : AgentIdentity) (now : ℕ) (task : PendingAgentTask)
      → IsKnown identity plane
      → find (is_for identity.node_id) plane.pending_tasks ≡ some task
      → Step plane (taken identity now plane task)
  accepts :
      (submission : AgentResultSubmission) (now : ℕ) (task : PendingAgentTask)
      → any (λ nonce. nonce == submission.nonce) plane.accepted_result_nonces ≡ false
      → Answers submission plane now task
      → Step plane (accepted submission plane)
  spools :
      (spool : LocalSpoolItem) (kind : AuditEventKind)
      → Step plane (record plane {
        spooled_results = plane.spooled_results ++ spool ∷ [];
        ledger = log kind plane.ledger;
      })

Step-of_eq :
    (plane other : ControlPlane) {next : ControlPlane}
    → next ≡ other
    → Step plane other
    → Step plane next
Step-of_eq plane other e = subst (Step plane) (sym e)

-- Every call is one of these steps.
pub after-Step : (call : Call) (plane : ControlPlane) → Step plane (after call plane)
unfolding after create_enrollment_token spool_result
after-Step (create_token_call token) plane =
    let kind = enrollment_token_created token.token_id token.node_id in
    Step-of_eq plane _ (ground (arith, append_event_lem kind plane)) (issues token kind)
after-Step (enroll_call request) plane = elim (enroll_agent_cases request plane) [
  | inl (e, same) ↦ Step-of_eq plane plane (ap (λ x. x.1) same) (notes none)
  | inr (token, honours, done) ↦
      Step-of_eq plane _ (ap (λ x. x.1) done) (enrolls request token honours)
]
after-Step (enqueue_call task) plane = queues task
after-Step (pull_call identity now) plane = elim (pull_task_cases identity now plane) [
  | inl (e, kind, failed) ↦ Step-of_eq plane _ (ap (λ x. x.1) failed) (notes kind)
  | inr (task, known, e, current, done) ↦
      Step-of_eq plane _ (ap (λ x. x.1) done) (pulls identity now task known e)
]
after-Step (submit_call identity submission now) plane =
    elim (submit_result_cases identity submission now plane) [
      | inl (e, kind, failed) ↦ Step-of_eq plane _ (ap (λ x. x.1) failed) (notes kind)
      | inr (task, known, mine, unseen, answers, done) ↦
          Step-of_eq plane _ (ap (λ x. x.1) done) (accepts submission now task unseen answers)
    ]
after-Step (spool_call spool) plane =
    let kind = agent_result_spooled spool.spool_id spool.reason in
    Step-of_eq plane _ (ground (arith, append_event_lem kind plane)) (spools spool kind)
