-- ===== src/Runtime/Pull.antt =====
-- Pulling tasks: what an agent gets, in which order, and what blocks it.
use runlane.Prelude.{
  ℕ, String, Bool, true, false, ◌≡◌, ◌≢◌, ◌⊎◌, ◌<◌, refl, inl, inr, Option, none, some, List, [],
  ◌∷◌, ◌++◌, find, keep, remove_first, leb, eq_iff, ok, err, arith, Bool-cases, Option-cases, sym,
  ◌∙◌,
}
use runlane.Prelude.Search.{find-some}
use runlane.Domain.{AgentIdentity}
use runlane.Audit.{AuditEventKind, agent_task_pulled, agent_task_rejected}
use runlane.Protocol.{expired_envelope, AgentProtocolContext, validate_agent_task_envelope}
use runlane.Runtime.{
  PendingAgentTask, PulledAgentTask, RuntimeError, no_task_available, task_envelope_rejected,
  ControlPlane, is_for, check_envelope, pull_task,
}
use runlane.Runtime.Events.{log, noted, append_event_lem, IsKnown, require_agent_cases}

module _ (identity : AgentIdentity) (now : ℕ) (plane : ControlPlane) where
  -- the control plane after a task was pulled
  abbrev pub taken : PendingAgentTask → ControlPlane
  taken task = record plane {
    pending_tasks = remove_first (is_for identity.node_id) plane.pending_tasks;
    pulled_tasks = plane.pulled_tasks ++ task ∷ [];
    ledger =
        log
          (agent_task_pulled task.envelope.envelope_id task.envelope.task_id task.envelope.node_id)
          plane.ledger;
  }

  abbrev pub context : AgentProtocolContext
  context = record { node_id = identity.node_id; now_unix_seconds = now; seen_nonces = [] }

  module _ (task : PendingAgentTask) (mine : is_for identity.node_id task ≡ true) where
    pub check-late :
        leb task.envelope.expires_at_unix_seconds now ≡ true
        → check_envelope identity task now plane ≡ (
          err (task_envelope_rejected expired_envelope),
          noted (some (agent_task_rejected identity.node_id "ExpiredEnvelope")) plane,
        )
    unfolding check_envelope validate_agent_task_envelope
    check-late late =
        ground
          (arith, append_event_lem (agent_task_rejected identity.node_id "ExpiredEnvelope") plane)

    check-current :
        leb task.envelope.expires_at_unix_seconds now ≡ false
        → check_envelope identity task now plane ≡ (ok tt, plane)
    unfolding check_envelope validate_agent_task_envelope
    check-current current = ground arith

  -- A pull fails, and then changes at most the ledger, or a known agent gets the first pending task
  -- of its node, whose envelope has not expired.
  pub pull_task_cases :
      ((e : RuntimeError) × (kind : Option AuditEventKind) × (pull_task identity now plane
          ≡ (err e, noted kind plane)))
      ⊎ ((task : PendingAgentTask) × IsKnown identity plane
          × (find (is_for identity.node_id) plane.pending_tasks ≡ some task)
          × (now < task.envelope.expires_at_unix_seconds)
          × (pull_task identity now plane
              ≡ (ok (record { envelope = task.envelope; payload = task.payload }), taken task)))
  unfolding pull_task
  pull_task_cases = elim (require_agent_cases identity plane) [
    | inl (e, refused) ↦ inl (e, none, ground arith)
    | inr (known, fine) ↦ elim (Option-cases (find (is_for identity.node_id) plane.pending_tasks)) [
      | inl missing ↦ inl (no_task_available, none, ground arith)
      | inr (task, e) ↦
          let mine = (find-some (is_for identity.node_id) plane.pending_tasks task e).1 in
          elim (Bool-cases (leb task.envelope.expires_at_unix_seconds now)) [
            | inl late ↦ inl (
              task_envelope_rejected expired_envelope,
              some (agent_task_rejected identity.node_id "ExpiredEnvelope"),
              ground (arith, check-late task mine late),
            )
            | inr current ↦ inr (
              task,
              known,
              e,
              ground arith,
              ground (
                arith,
                check-current task mine current,
                append_event_lem
                    (agent_task_pulled task.envelope.envelope_id task.envelope.task_id
                      task.envelope.node_id)
                    (record plane {
                      pending_tasks = remove_first (is_for identity.node_id) plane.pending_tasks;
                    }),
              ),
            )
          ]
    ]
  ]

module _ {ℓ} {A : Type ℓ} (p : A → Bool) where
  keep-head :
      (xs : List A) (a : A) → find p xs ≡ some a → keep p xs ≡ a ∷ keep p (remove_first p xs)
  keep-head [] a h = cc
  keep-head (x ∷ xs) a h = elim (Bool-cases (p x)) [
    | inl e ↦ ground arith
    | inr e ↦ let ih = keep-head xs a (ground arith) in ground arith
  ]

  keep-remove_first :
      (q : A → Bool)
      → ((x : A) → p x ≡ true → q x ≡ false)
      → (xs : List A) → keep q (remove_first p xs) ≡ keep q xs
  keep-remove_first q apart [] = refl
  keep-remove_first q apart (x ∷ xs) = elim (Bool-cases (p x)) [
    | inl e ↦ let out = apart x e in ground arith
    | inr e ↦ let ih = keep-remove_first q apart xs in ground arith
  ]

-- the tasks that wait for a node, in their order
abbrev pub queue_of : String → ControlPlane → List PendingAgentTask
queue_of node_id plane = keep (is_for node_id) plane.pending_tasks

-- A pull that returns a task takes the head of the queue of the agent's node and no task of
-- another node, and appends it to the pulled tasks: nothing is lost, repeated or reordered.
pub pull_task-fifo :
    (identity : AgentIdentity) (now : ℕ) (plane next : ControlPlane) (pulled : PulledAgentTask)
    → pull_task identity now plane ≡ (ok pulled, next)
    → let task : PendingAgentTask = record {
      envelope = pulled.envelope;
      payload = pulled.payload;
    } in
      (queue_of identity.node_id plane ≡ task ∷ queue_of identity.node_id next)
      × (next.pulled_tasks ≡ plane.pulled_tasks ++ task ∷ [])
      × ((other : String) → other ≢ identity.node_id → queue_of other next ≡ queue_of other plane)
pull_task-fifo identity now plane next pulled h = elim (pull_task_cases identity now plane) [
  | inl (e, kind, failed) ↦ absurd (ground arith)
  | inr (task, known, e, current, done) ↦
      let same : next ≡ taken identity now plane task = ground arith in
      let handed : pulled ≡ record { envelope = task.envelope; payload = task.payload } =
        ground arith in
      rw (same, handed)
        (
          keep-head (is_for identity.node_id) plane.pending_tasks task e,
          refl,
          λ other apart.
              keep-remove_first (is_for identity.node_id) (is_for other)
                (λ x mine. elim (Bool-cases (is_for other x)) [
                  | inr out ↦ out
                  | inl hit ↦ absurd (
                      apart (
                        sym ((eq_iff x.envelope.node_id other).0 hit)
                        ∙ (eq_iff x.envelope.node_id identity.node_id).0 mine))
                ])
                plane.pending_tasks,
        )
]
