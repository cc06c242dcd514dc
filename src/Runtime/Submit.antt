-- ===== src/Runtime/Submit.antt =====
-- Submitting results: which the control plane accepts.
use mathlib.Core.List.{Mem}
use runlane.Prelude.{
  ℕ, String, true, false, ◌≡◌, ◌⊎◌, ◌↔◌, ◌<◌, refl, inl, inr, Option, none, some, [], ◌∷◌, ◌++◌,
  find, any, leb, ◌==◌, eq_iff, ok, err, arith, Bool-cases, Option-cases,
}
use runlane.Prelude.Search.{contains-mem, mem-contains}
use runlane.Domain.{AgentIdentity}
use runlane.Audit.{AuditEventKind, agent_result_accepted, agent_result_rejected}
use runlane.Protocol.{AgentResultSubmission}
use runlane.Runtime.{
  PendingAgentTask, RuntimeError, unknown_envelope, result_envelope_mismatch, result_task_mismatch,
  result_run_mismatch, result_node_mismatch, result_expired, result_nonce_replay, ControlPlane,
  audit_result_rejection, reject_result, submit_result,
}
use runlane.Runtime.Events.{
  log, noted, append_event_lem, IsKnown, require_agent_cases, require_agent-known,
}

module _ (submission : AgentResultSubmission) (plane : ControlPlane) where
  reject_result-true :
      (reason : String) (e : RuntimeError)
      → reject_result submission true reason e plane
        ≡ (err e, noted (some (agent_result_rejected submission.envelope_id reason)) plane)
  unfolding reject_result audit_result_rejection
  reject_result-true reason e =
      ground (arith, append_event_lem (agent_result_rejected submission.envelope_id reason) plane)

  reject_result-false :
      (reason : String) (e : RuntimeError)
      → reject_result submission false reason e plane ≡ (ok tt, plane)
  unfolding reject_result
  reject_result-false reason e = refl

  -- the control plane after the result was accepted
  abbrev pub accepted : ControlPlane
  accepted = record plane {
    accepted_result_nonces = plane.accepted_result_nonces ++ submission.nonce ∷ [];
    accepted_results = plane.accepted_results ++ submission ∷ [];
    ledger =
        log (agent_result_accepted submission.envelope_id submission.task_id submission.node_id)
          plane.ledger;
  }

  -- the pulled task that a result answers: the first with its envelope id, of the same task, run
  -- and nonce, and not expired
  pub record Answers (now : ℕ) (task : PendingAgentTask) : Type 0 where
    pub pulled :
        find (λ t. t.envelope.envelope_id == submission.envelope_id) plane.pulled_tasks ≡ some task
    pub current : now < task.envelope.expires_at_unix_seconds
    pub same_task : task.envelope.task_id ≡ submission.task_id
    pub same_run : task.envelope.run_id ≡ submission.run_id
    pub same_nonce : task.envelope.nonce ≡ submission.nonce

module _ (identity : AgentIdentity) (submission : AgentResultSubmission) (now : ℕ)
    (plane : ControlPlane) where
  audited : String → AuditEventKind
  audited reason = agent_result_rejected submission.envelope_id reason

  -- A submission fails, and then changes at most the ledger, or it is from a known agent and for its
  -- own node, its nonce was not used before, and it answers a pulled task; then it is accepted.
  pub submit_result_cases :
      ((e : RuntimeError) × (kind : Option AuditEventKind) × (submit_result identity submission now
            plane
          ≡ (err e, noted kind plane)))
      ⊎ ((task : PendingAgentTask) × IsKnown identity plane
          × (submission.node_id ≡ identity.node_id)
          × (any (λ nonce. nonce == submission.nonce) plane.accepted_result_nonces ≡ false)
          × Answers submission plane now task
          × (submit_result identity submission now plane ≡ (ok tt, accepted submission plane)))
  unfolding submit_result audited reject_result audit_result_rejection
  submit_result_cases = elim (require_agent_cases identity plane) [
    | inl (e, failed) ↦ inl (e, none, ground arith)
    | inr (known, fine) ↦ elim (Bool-cases (submission.node_id == identity.node_id)) [
      | inr other ↦ inl (
        result_node_mismatch,
        some (audited "result node mismatch"),
        ground (arith, append_event_lem (audited "result node mismatch") plane),
      )
      | inl mine ↦
          elim (Bool-cases
            (any (λ nonce. nonce == submission.nonce) plane.accepted_result_nonces)) [
              | inl seen ↦ inl (
                result_nonce_replay,
                some (audited "result nonce replay"),
                ground (arith, append_event_lem (audited "result nonce replay") plane),
              )
              | inr unseen ↦
                  elim (Option-cases (
                    find
                      (λ (t : PendingAgentTask). t.envelope.envelope_id == submission.envelope_id)
                      plane.pulled_tasks)) [
                        | inl missing ↦ inl (unknown_envelope, none, ground arith)
                        | inr (task, e) ↦
                            elim (Bool-cases (leb task.envelope.expires_at_unix_seconds now)) [
                              | inl late ↦ inl (
                                result_expired,
                                some (audited "result envelope expired"),
                                ground (
                                  arith,
                                  append_event_lem (audited "result envelope expired") plane,
                                ),
                              )
                              | inr current ↦
                                  elim (Bool-cases (task.envelope.task_id == submission.task_id)) [
                                    | inr off ↦ inl (
                                      result_task_mismatch,
                                      some (audited "result task mismatch"),
                                      ground (
                                        arith,
                                        append_event_lem (audited "result task mismatch") plane,
                                      ),
                                    )
                                    | inl same_task ↦
                                        elim (Bool-cases
                                          (task.envelope.run_id == submission.run_id)) [
                                            | inr off ↦ inl (
                                              result_run_mismatch,
                                              some (audited "result run mismatch"),
                                              ground (
                                                arith,
                                                append_event_lem (audited "result run mismatch")
                                                    plane,
                                              ),
                                            )
                                            | inl same_run ↦
                                                elim (Bool-cases
                                                  (task.envelope.nonce == submission.nonce)) [
                                                    | inr off ↦ inl (
                                                      result_envelope_mismatch,
                                                      some (audited "result nonce mismatch"),
                                                      ground (
                                                        arith,
                                                        append_event_lem
                                                            (audited "result nonce mismatch") plane,
                                                      ),
                                                    )
                                                    | inl same_nonce ↦ inr (
                                                      task,
                                                      known,
                                                      (eq_iff submission.node_id identity.node_id).0
                                                          mine,
                                                      unseen,
                                                      record {
                                                        pulled = e;
                                                        current = ground arith;
                                                        same_task =
                                                            (eq_iff task.envelope.task_id
                                                            submission.task_id).0
                                                            same_task;
                                                        same_run =
                                                            (eq_iff task.envelope.run_id
                                                            submission.run_id).0
                                                            same_run;
                                                        same_nonce =
                                                            (eq_iff task.envelope.nonce
                                                            submission.nonce).0
                                                            same_nonce;
                                                      },
                                                      ground (
                                                        arith,
                                                        append_event_lem
                                                            (agent_result_accepted
                                                            submission.envelope_id
                                                            submission.task_id submission.node_id)
                                                            plane,
                                                      ),
                                                    )
                                                  ]
                                          ]
                                  ]
                            ]
                      ]
            ]
    ]
  ]

  -- from a known agent, for its own node, with a nonce that no accepted result used, and answering a
  -- pulled task
  pub record Authentic : Type 0 where
    pub known : IsKnown identity plane
    pub own_node : submission.node_id ≡ identity.node_id
    pub unused : ¬ Mem submission.nonce plane.accepted_result_nonces
    pub task : PendingAgentTask
    pub answers : Answers submission plane now task

  Authentic-accepted :
      Authentic → submit_result identity submission now plane ≡ (ok tt, accepted submission plane)
  unfolding submit_result reject_result
  Authentic-accepted fine =
      let entry = require_agent-known identity plane fine.known in
      let e = fine.answers.pulled in
      let current = fine.answers.current in
      let mine = (eq_iff submission.node_id identity.node_id).1 fine.own_node in
      let same_task =
        (eq_iff fine.task.envelope.task_id submission.task_id).1 fine.answers.same_task in
      let same_run = (eq_iff fine.task.envelope.run_id submission.run_id).1 fine.answers.same_run in
      let same_nonce =
        (eq_iff fine.task.envelope.nonce submission.nonce).1 fine.answers.same_nonce in
      elim (Bool-cases (any (λ nonce. nonce == submission.nonce) plane.accepted_result_nonces)) [
        | inl seen ↦
            absurd (fine.unused (contains-mem plane.accepted_result_nonces submission.nonce seen))
        | inr unseen ↦ ground (
          arith,
          append_event_lem
              (agent_result_accepted submission.envelope_id submission.task_id submission.node_id)
              plane,
        )
      ]

  -- A result is accepted exactly when it is authentic: it comes from a known agent and names that
  -- agent's node, no accepted result used its nonce, and it answers a pulled task that has not
  -- expired, with the same task, run and nonce.
  pub submit_result_iff : ((submit_result identity submission now plane).0 ≡ ok tt) ↔ Authentic
  submit_result_iff = (
    λ h. elim submit_result_cases [
      | inl (e, kind, failed) ↦ absurd (ground arith)
      | inr (task, known, mine, unseen, answers, done) ↦ record {
        known = known;
        own_node = mine;
        unused = λ m.
            let seen = mem-contains plane.accepted_result_nonces submission.nonce m in ground arith;
        task = task;
        answers = answers;
      }
    ],
    λ fine. rw (Authentic-accepted fine) refl,
  )
