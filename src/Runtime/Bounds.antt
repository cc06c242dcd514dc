-- ===== src/Runtime/Bounds.antt =====
-- How many results a control plane can accept.
use runlane.Prelude.{
  ℕ, ◌+◌, ◌≤◌, ◌≡◌, refl, subst, inl, inr, true, none, some, List, [], ◌∷◌, map, length,
  length-append, any, ◌==◌, arith, All,
}
use runlane.Prelude.Search.{Distinct}
use runlane.Prelude.Pigeonhole.{AreIn, Distinct-length-le, find-any-map}
use runlane.Audit.{enrollment_token_created, agent_result_spooled}
use runlane.Protocol.{AgentResultSubmission}
use runlane.Runtime.{
  PendingAgentTask, ControlPlane, empty_plane, create_enrollment_token, enqueue_task, spool_result,
}
use runlane.Runtime.Events.{append_event_lem}
use runlane.Runtime.Enroll.{enroll_agent_cases}
use runlane.Runtime.Pull.{pull_task_cases}
use runlane.Runtime.Submit.{submit_result_cases}
use runlane.Runtime.Steps.{
  Call, create_token_call, enroll_call, enqueue_call, pull_call, submit_call, spool_call, after,
  after_all,
}
use runlane.Runtime.Invariant.{Sound, IsAnswered, after_all-Sound, empty-Sound}

-- the pulls of a sequence of calls
abbrev pub pulls_of : List Call → ℕ
pulls_of [] = 0
pulls_of (pull_call identity now ∷ calls) = 1 + pulls_of calls
pulls_of (create_token_call token ∷ calls) = pulls_of calls
pulls_of (enroll_call request ∷ calls) = pulls_of calls
pulls_of (enqueue_call task ∷ calls) = pulls_of calls
pulls_of (submit_call identity submission now ∷ calls) = pulls_of calls
pulls_of (spool_call spool ∷ calls) = pulls_of calls

length-map {ℓ κ} :
    {A : Type ℓ} {B : Type κ} (f : A → B) (xs : List A) → length (map f xs) ≡ length xs
length-map f [] = refl
length-map f (x ∷ xs) = let ih = length-map f xs in omega (arith, ih)

answered-AreIn :
    (tasks : List PendingAgentTask) (results : List AgentResultSubmission)
    → All (IsAnswered tasks) results
    → AreIn (map (λ t. t.envelope.nonce) tasks) (map (λ s. s.nonce) results)
unfolding IsAnswered
answered-AreIn tasks [] h = tt
answered-AreIn tasks (s ∷ results) h =
    let (task, found, _, _, same) = h.0 in
    (
      subst (λ nonce. any (λ y. y == nonce) (map (λ t. t.envelope.nonce) tasks) ≡ true) same
          (find-any-map (λ t. t.envelope.envelope_id == s.envelope_id) (λ t. t.envelope.nonce) tasks
            task found),
      answered-AreIn tasks results h.1,
    )

-- a sound control plane has accepted no more results than tasks were handed out
Sound-length-le :
    (plane : ControlPlane) → Sound plane → length plane.accepted_results ≤ length plane.pulled_tasks
Sound-length-le plane s =
    let nonces = map (λ s. s.nonce) plane.accepted_results in
    let issued = map (λ t. t.envelope.nonce) plane.pulled_tasks in
    let distinct = subst (λ l. Distinct l) s.recorded s.distinct in
    let le =
      Distinct-length-le nonces issued distinct
        (answered-AreIn plane.pulled_tasks plane.accepted_results s.answered) in
    omega (
      arith,
      le,
      length-map (λ (s : AgentResultSubmission). s.nonce) plane.accepted_results,
      length-map (λ (t : PendingAgentTask). t.envelope.nonce) plane.pulled_tasks,
    )

after-pulled-le :
    (call : Call) (plane : ControlPlane)
    → length (after call plane).pulled_tasks ≤ length plane.pulled_tasks + pulls_of (call ∷ [])
unfolding after create_enrollment_token enqueue_task spool_result
after-pulled-le (create_token_call token) plane =
    ground (arith, append_event_lem (enrollment_token_created token.token_id token.node_id) plane)
after-pulled-le (enroll_call request) plane = elim (enroll_agent_cases request plane) [
  | inl (error, same) ↦ ground arith
  | inr (token, honours, done) ↦ ground arith
]
after-pulled-le (enqueue_call queued) plane = ground arith
after-pulled-le (pull_call identity now) plane = elim (pull_task_cases identity now plane) [
  | inl (error, none, failed) ↦ ground arith
  | inl (error, some kind, failed) ↦ ground arith
  | inr (task, known, first, current, done) ↦
      ground (arith, length-append plane.pulled_tasks (task ∷ []))
]
after-pulled-le (submit_call identity submission now) plane =
    elim (submit_result_cases identity submission now plane) [
      | inl (error, none, failed) ↦ ground arith
      | inl (error, some kind, failed) ↦ ground arith
      | inr (other, known, mine, unseen, answers, done) ↦ ground arith
    ]
after-pulled-le (spool_call spool) plane =
    ground (arith, append_event_lem (agent_result_spooled spool.spool_id spool.reason) plane)

pulls_of-cons :
    (call : Call) (calls : List Call)
    → pulls_of (call ∷ calls) ≡ pulls_of (call ∷ []) + pulls_of calls
pulls_of-cons (create_token_call token) calls = omega arith
pulls_of-cons (enroll_call request) calls = omega arith
pulls_of-cons (enqueue_call task) calls = omega arith
pulls_of-cons (pull_call identity now) calls = omega arith
pulls_of-cons (submit_call identity submission now) calls = omega arith
pulls_of-cons (spool_call spool) calls = omega arith

after_all-pulled-le :
    (calls : List Call) (plane : ControlPlane)
    → length (after_all calls plane).pulled_tasks ≤ length plane.pulled_tasks + pulls_of calls
unfolding after_all
after_all-pulled-le [] plane = omega arith
after_all-pulled-le (call ∷ calls) plane = omega (
  arith,
  after_all-pulled-le calls (after call plane),
  after-pulled-le call plane,
  pulls_of-cons call calls,
)

-- After any calls from the empty control plane on, no more results are accepted than tasks are handed
-- out, and no more tasks are handed out than there are pulls among the calls.
pub after_all-length-le :
    (calls : List Call)
    → (length (after_all calls empty_plane).accepted_results
        ≤ length (after_all calls empty_plane).pulled_tasks)
      × (length (after_all calls empty_plane).pulled_tasks ≤ pulls_of calls)
after_all-length-le calls = (
  Sound-length-le (after_all calls empty_plane) (after_all-Sound calls empty_plane empty-Sound),
  omega (arith, after_all-pulled-le calls empty_plane),
)
