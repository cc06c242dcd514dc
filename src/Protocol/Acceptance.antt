-- ===== src/Protocol/Acceptance.antt =====
-- Which envelopes an agent accepts, and which rejection it gives the others.
use mathlib.Core.List.{Mem}
use runlane.Prelude.{
  ◌≡◌, ◌≢◌, ◌↔◌, ◌<◌, ◌≤◌, ok, err, any, ◌==◌, eq_iff, arith, Bool-cases, inl, inr,
}
use runlane.Prelude.Search.{contains-mem, mem-contains}
use runlane.Protocol.{
  AgentTaskEnvelope, AgentProtocolContext, AgentTaskRejection, node_mismatch, expired_envelope,
  replayed_nonce, accepted_task, validate_agent_task_envelope,
}

module _ (envelope : AgentTaskEnvelope) (context : AgentProtocolContext) where
  -- what each of the three rejections says, given that the checks before it passed
  abbrev pub Rejects : AgentTaskRejection → Type 0
  Rejects node_mismatch = envelope.node_id ≢ context.node_id
  Rejects expired_envelope =
      (envelope.node_id ≡ context.node_id)
      × (envelope.expires_at_unix_seconds ≤ context.now_unix_seconds)
  Rejects replayed_nonce =
      (envelope.node_id ≡ context.node_id)
      × (context.now_unix_seconds < envelope.expires_at_unix_seconds)
      × Mem envelope.nonce context.seen_nonces

  -- the envelope is for this node, has not expired and has a nonce that was not seen
  pub record Acceptable : Type 0 where
    pub addressed : envelope.node_id ≡ context.node_id
    pub current : context.now_unix_seconds < envelope.expires_at_unix_seconds
    pub unseen : ¬ Mem envelope.nonce context.seen_nonces

  -- An envelope is accepted, with its own ids in the answer, exactly when it is acceptable: for
  -- this node, not expired and with a nonce that was not seen.
  pub validate_iff :
      (validate_agent_task_envelope envelope context ≡ ok (accepted_task envelope)) ↔ Acceptable
  unfolding validate_agent_task_envelope
  validate_iff = (
    λ h. record {
      addressed = ground (arith, eq_iff envelope.node_id context.node_id);
      current = ground arith;
      unseen = λ m. let seen = mem-contains context.seen_nonces envelope.nonce m in ground arith;
    },
    λ fine. elim (Bool-cases (any (λ nonce. nonce == envelope.nonce) context.seen_nonces)) [
      | inl e ↦ absurd (fine.unseen (contains-mem context.seen_nonces envelope.nonce e))
      | inr e ↦
          let same = (eq_iff envelope.node_id context.node_id).1 fine.addressed in
          let h = fine.current in ground arith
    ],
  )

  -- A rejection tells the first check that fails, in the order node, expiry, nonce.
  pub validate-Rejects :
      (why : AgentTaskRejection)
      → validate_agent_task_envelope envelope context ≡ err why
      → Rejects why
  unfolding validate_agent_task_envelope
  validate-Rejects node_mismatch h =
      λ e. let same = (eq_iff envelope.node_id context.node_id).1 e in ground arith
  validate-Rejects expired_envelope h = ground (arith, eq_iff envelope.node_id context.node_id)
  validate-Rejects replayed_nonce h = (
    ground (arith, eq_iff envelope.node_id context.node_id),
    ground arith,
    contains-mem context.seen_nonces envelope.nonce (ground arith),
  )
