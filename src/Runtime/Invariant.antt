-- ===== src/Runtime/Invariant.antt =====
-- What holds of a control plane after any sequence of calls.
use mathlib.Core.List.{map-append}
use runlane.Domain.{AgentIdentity}
use runlane.Prelude.{
  err, ◌≢◌, inl, inr, Option-cases, String, ◌≡◌, refl, sym, none, some, List, [], ◌∷◌, ◌++◌, map,
  find, ◌==◌, arith, All, All-append,
}
use runlane.Prelude.Search.{find-append, Distinct, Distinct-push}
use runlane.Audit.{AuditEventKind, AuditLedger, next_event}
use runlane.Audit.Numbering.{IsNumbered, append-IsNumbered, append-next}
use runlane.Protocol.{AgentResultSubmission}
use runlane.Runtime.{
  AgentIdentityRecord, PendingAgentTask, ControlPlane, empty_plane, enqueue_task, require_agent,
  unknown_agent,
}
use runlane.Runtime.Events.{log}
use runlane.Runtime.Steps.{
  Call, after, after_all, Step, notes, issues, enrolls, queues, pulls, accepts, spools, after-Step,
}

-- a pulled task with the envelope id, the task, the run and the nonce of a result
unfoldable pub IsAnswered : List PendingAgentTask → AgentResultSubmission → Type 0
IsAnswered tasks s =
    (task : PendingAgentTask) × (find (λ t. t.envelope.envelope_id == s.envelope_id) tasks
      ≡ some task)
    × (task.envelope.task_id ≡ s.task_id)
    × (task.envelope.run_id ≡ s.run_id)
    × (task.envelope.nonce ≡ s.nonce)

IsAnswered-append :
    (tasks more : List PendingAgentTask) (s : AgentResultSubmission)
    → IsAnswered tasks s
    → IsAnswered (tasks ++ more) s
unfolding IsAnswered
IsAnswered-append tasks more s (task, e, same_task, same_run, same_nonce) =
    (task, find-append _ tasks more task e, same_task, same_run, same_nonce)

All-of_All {ℓ κ} :
    {A : Type ℓ} {P Q : A → Type κ} → ((a : A) → P a → Q a) → (xs : List A) → All P xs → All Q xs
All-of_All f [] h = tt
All-of_All f (x ∷ xs) h = (f x h.0, All-of_All f xs h.1)

-- The ledger is numbered without a gap; the used nonces are those of the accepted results, in
-- order, and no two are equal; each accepted result answers a pulled task.
pub record Sound (plane : ControlPlane) : Type 0 where
  pub numbered : IsNumbered plane.ledger
  pub recorded : plane.accepted_result_nonces ≡ map (λ s. s.nonce) plane.accepted_results
  pub distinct : Distinct plane.accepted_result_nonces
  pub answered : All (IsAnswered plane.pulled_tasks) plane.accepted_results

log-IsNumbered :
    (kind : AuditEventKind) (ledger : AuditLedger)
    → IsNumbered ledger
    → IsNumbered (log kind ledger)
log-IsNumbered kind ledger h =
    let event = next_event "runtime-event-" "runtime" kind ledger in
    ground (arith, append-IsNumbered event ledger h, append-next event ledger refl)

Step-Sound : (plane next : ControlPlane) → Step plane next → Sound plane → Sound next
unfolding enqueue_task IsAnswered
Step-Sound plane _ (notes none) s = s
Step-Sound plane _ (notes (some kind)) s = record {
  numbered = log-IsNumbered _ plane.ledger s.numbered;
  recorded = s.recorded;
  distinct = s.distinct;
  answered = s.answered;
}
Step-Sound plane _ (issues token kind) s = record {
  numbered = log-IsNumbered _ plane.ledger s.numbered;
  recorded = s.recorded;
  distinct = s.distinct;
  answered = s.answered;
}
Step-Sound plane _ (enrolls request token honours) s = record {
  numbered = log-IsNumbered _ plane.ledger s.numbered;
  recorded = s.recorded;
  distinct = s.distinct;
  answered = s.answered;
}
Step-Sound plane _ (queues task) s = record {
  numbered = s.numbered;
  recorded = s.recorded;
  distinct = s.distinct;
  answered = s.answered;
}
Step-Sound plane _ (pulls identity now task known e) s = record {
  numbered = log-IsNumbered _ plane.ledger s.numbered;
  recorded = s.recorded;
  distinct = s.distinct;
  answered =
      All-of_All (IsAnswered-append plane.pulled_tasks (task ∷ [])) plane.accepted_results
        s.answered;
}
Step-Sound plane _ (accepts submission now task unseen answers) s = record {
  numbered = log-IsNumbered _ plane.ledger s.numbered;
  recorded =
      rw (s.recorded) (sym (map-append (λ t. t.nonce) plane.accepted_results (submission ∷ [])));
  distinct = Distinct-push plane.accepted_result_nonces submission.nonce s.distinct unseen;
  answered =
      All-append (IsAnswered plane.pulled_tasks) plane.accepted_results (submission ∷ []) s.answered
        ((task, answers.pulled, answers.same_task, answers.same_run, answers.same_nonce), tt);
}
Step-Sound plane _ (spools spool kind) s = record {
  numbered = log-IsNumbered _ plane.ledger s.numbered;
  recorded = s.recorded;
  distinct = s.distinct;
  answered = s.answered;
}

-- Every sequence of calls keeps a control plane sound: the ledger is numbered without a gap, no
-- nonce is accepted twice, the used nonces are those of the accepted results, and each accepted
-- result answers a pulled task of the same envelope, task, run and nonce.
pub after_all-Sound :
    (calls : List Call) (plane : ControlPlane) → Sound plane → Sound (after_all calls plane)
unfolding after_all
after_all-Sound [] plane s = s
after_all-Sound (call ∷ calls) plane s =
    after_all-Sound calls (after call plane)
      (Step-Sound plane (after call plane) (after-Step call plane) s)

pub empty-Sound : Sound empty_plane
empty-Sound = record { numbered = tt; recorded = refl; distinct = tt; answered = tt }

module _ (node_id : String) (agent : AgentIdentityRecord) where
  -- the first record of the node
  abbrev IsAgentOf : ControlPlane → Type 0
  IsAgentOf plane = find (λ a. a.node_id == node_id) plane.agents ≡ some agent

  Step-IsAgentOf : (plane next : ControlPlane) → Step plane next → IsAgentOf plane → IsAgentOf next
  unfolding enqueue_task
  Step-IsAgentOf plane _ (notes none) e = e
  Step-IsAgentOf plane _ (notes (some kind)) e = e
  Step-IsAgentOf plane _ (issues token kind) e = e
  Step-IsAgentOf plane _ (enrolls request token honours) e = find-append _ plane.agents _ agent e
  Step-IsAgentOf plane _ (queues task) e = e
  Step-IsAgentOf plane _ (pulls identity now task known f) e = e
  Step-IsAgentOf plane _ (accepts submission now task unseen answers) e = e
  Step-IsAgentOf plane _ (spools spool kind) e = e

  after_all-IsAgentOf :
      (calls : List Call) (plane : ControlPlane)
      → IsAgentOf plane
      → IsAgentOf (after_all calls plane)
  unfolding after_all
  after_all-IsAgentOf [] plane e = e
  after_all-IsAgentOf (call ∷ calls) plane e =
      after_all-IsAgentOf calls (after call plane)
        (Step-IsAgentOf plane (after call plane) (after-Step call plane) e)

-- Once the check of a node's identity gives another answer than that the node is unknown, it gives
-- that answer for this identity after whatever calls, further enrolments of the node included.
pub after_all-require_agent :
    (identity : AgentIdentity) (calls : List Call) (plane : ControlPlane)
    → (require_agent identity plane).0 ≢ err unknown_agent
    → (require_agent identity (after_all calls plane)).0 ≡ (require_agent identity plane).0
unfolding require_agent
after_all-require_agent identity calls plane known =
    elim (Option-cases
      (find (λ (a : AgentIdentityRecord). a.node_id == identity.node_id) plane.agents)) [
        | inl missing ↦ absurd (known (ground arith))
        | inr (agent, e) ↦
            let later = after_all-IsAgentOf identity.node_id agent calls plane e in ground arith
      ]
