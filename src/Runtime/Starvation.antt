-- ===== src/Runtime/Starvation.antt =====
-- What an expired task does to its node.
use runlane.Prelude.{
  ℕ, String, Bool, true, false, not, ◌||◌, ◌≡◌, ◌≤◌, refl, sym, ap, ◌∙◌, subst, inl, inr, none,
  some, List, [], ◌∷◌, find, remove_first, leb, ◌==◌, eq_iff, ok, err, arith, All, Bool-cases,
}
use runlane.Prelude.Search.{find-some, find-append}
use runlane.Domain.{AgentIdentity}
use runlane.Audit.{enrollment_token_created, agent_result_spooled, agent_task_rejected}
use runlane.Protocol.{expired_envelope}
use runlane.Runtime.{
  PendingAgentTask, task_envelope_rejected, ControlPlane, is_for, create_enrollment_token,
  enqueue_task, require_agent, pull_task, spool_result,
}
use runlane.Runtime.Events.{require_agent_cases, noted, append_event_lem}
use runlane.Runtime.Enroll.{enroll_agent_cases}
use runlane.Runtime.Pull.{check-late, pull_task_cases}
use runlane.Runtime.Submit.{submit_result_cases}
use runlane.Runtime.Steps.{
  Call, create_token_call, enroll_call, enqueue_call, pull_call, submit_call, spool_call, after,
  after_all,
}
use runlane.Runtime.Invariant.{after_all-require_agent}

module _ {ℓ} {A : Type ℓ} (p q : A → Bool) (apart : (x : A) → q x ≡ true → p x ≡ false) where
  find-remove_first : (xs : List A) → find p (remove_first q xs) ≡ find p xs
  find-remove_first [] = refl
  find-remove_first (x ∷ xs) = elim (Bool-cases (q x)) [
    | inl e ↦ let out = apart x e in ground arith
    | inr e ↦ let ih = find-remove_first xs in ground arith
  ]

module _ (node_id : String) (task : PendingAgentTask) where
  -- not a pull by the node before the task expired
  abbrev pub is_late : Call → Bool
  is_late (pull_call identity now) =
      not (identity.node_id == node_id) || leb task.envelope.expires_at_unix_seconds now
  is_late _ = true

  -- the task that is next for the node
  abbrev pub IsNext : ControlPlane → Type 0
  IsNext plane = find (is_for node_id) plane.pending_tasks ≡ some task

  late-IsNext :
      (call : Call) (plane : ControlPlane)
      → is_late call ≡ true
      → IsNext plane
      → IsNext (after call plane)
  unfolding after create_enrollment_token enqueue_task spool_result
  late-IsNext (create_token_call token) plane late e =
      ground (arith, append_event_lem (enrollment_token_created token.token_id token.node_id) plane)
  late-IsNext (enroll_call request) plane late e = elim (enroll_agent_cases request plane) [
    | inl (error, same) ↦ subst IsNext (sym (ap (λ r. r.1) same)) e
    | inr (token, honours, done) ↦ subst IsNext (sym (ap (λ r. r.1) done)) e
  ]
  late-IsNext (enqueue_call queued) plane late e = find-append _ plane.pending_tasks _ task e
  late-IsNext (pull_call identity now) plane late e = elim (pull_task_cases identity now plane) [
    | inl (error, none, failed) ↦ subst IsNext (sym (ap (λ r. r.1) failed)) e
    | inl (error, some kind, failed) ↦ subst IsNext (sym (ap (λ r. r.1) failed)) e
    | inr (other, known, first, current, done) ↦
        subst IsNext (sym (ap (λ r. r.1) done)) (elim (Bool-cases (identity.node_id == node_id)) [
          | inl same ↦
              let node = (eq_iff identity.node_id node_id).0 same in
              let first' =
                subst (λ n. find (is_for n) plane.pending_tasks ≡ some other) node first in
              let equal : other ≡ task = ground arith in absurd (ground arith)
          | inr apart ↦
              find-remove_first (is_for node_id) (is_for identity.node_id)
                (λ x mine.
                  let node = (eq_iff x.envelope.node_id identity.node_id).0 mine in rw node apart)
                plane.pending_tasks
              ∙ e
        ])
  ]
  late-IsNext (submit_call identity submission now) plane late e =
      elim (submit_result_cases identity submission now plane) [
        | inl (error, none, failed) ↦ subst IsNext (sym (ap (λ r. r.1) failed)) e
        | inl (error, some kind, failed) ↦ subst IsNext (sym (ap (λ r. r.1) failed)) e
        | inr (other, known, mine, unseen, answers, done) ↦
            subst IsNext (sym (ap (λ r. r.1) done)) e
      ]
  late-IsNext (spool_call spool) plane late e =
      ground (arith, append_event_lem (agent_result_spooled spool.spool_id spool.reason) plane)

  late_all-IsNext :
      (calls : List Call) (plane : ControlPlane)
      → All (λ call. is_late call ≡ true) calls
      → IsNext plane
      → IsNext (after_all calls plane)
  unfolding after_all
  late_all-IsNext [] plane late e = e
  late_all-IsNext (call ∷ calls) plane late e =
      late_all-IsNext calls (after call plane) late.1 (late-IsNext call plane late.0 e)

-- A task that is next for a node and has expired is next for ever: after whatever calls, in which
-- the node does not pull before the expiry, a pull by the known agent is refused as expired, and
-- changes nothing but the ledger, so that no task behind it is handed out.
pub pull_task-starved :
    (identity : AgentIdentity) (now : ℕ) (task : PendingAgentTask) (calls : List Call)
    (plane : ControlPlane)
    → (require_agent identity plane).0 ≡ ok tt
    → IsNext identity.node_id task plane
    → All (λ call. is_late identity.node_id task call ≡ true) calls
    → task.envelope.expires_at_unix_seconds ≤ now
    → (IsNext identity.node_id task (after_all calls plane))
      × (pull_task identity now (after_all calls plane) ≡ (
        err (task_envelope_rejected expired_envelope),
        noted
            (some (agent_task_rejected identity.node_id "ExpiredEnvelope"))
            (after_all calls plane),
      ))
unfolding pull_task
pull_task-starved identity now task calls plane known e late expired =
    let later = after_all calls plane in
    let next = late_all-IsNext identity.node_id task calls plane late e in
    let mine = (find-some (is_for identity.node_id) later.pending_tasks task next).1 in
    let same = after_all-require_agent identity calls plane (λ unknown. ground arith) ∙ known in
    let refused = check-late identity now later task mine (ground arith) in
    (
      next,
      elim (require_agent_cases identity later) [
        | inl (error, bad) ↦ absurd (ground arith)
        | inr (agent, fine) ↦ ground arith
      ],
    )
