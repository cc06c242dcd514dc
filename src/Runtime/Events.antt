-- ===== src/Runtime/Events.antt =====
-- The audit events that the control plane appends, and the check of an agent's identity.
use runlane.Prelude.{
  ◌≡◌, ◌⊎◌, refl, inl, inr, Option, none, some, find, ◌==◌, eq_iff, ok, err, arith, Bool-cases,
  Option-cases,
}
use runlane.Domain.{AgentIdentity}
use runlane.Audit.{AuditLedger, AuditEventKind, next_event}
use runlane.Audit.Numbering.{push, append-next}
use runlane.Runtime.{
  AgentIdentityRecord, RuntimeError, unknown_agent, agent_identity_mismatch, ControlPlane,
  append_event, require_agent,
}

-- the ledger with one more event
abbrev pub log : AuditEventKind → AuditLedger → AuditLedger
log kind ledger = push ledger (next_event "runtime-event-" "runtime" kind ledger)

-- the control plane with one more event, or with none
abbrev pub noted : Option AuditEventKind → ControlPlane → ControlPlane
noted none plane = plane
noted (some kind) plane = record plane { ledger = log kind plane.ledger }

-- Appending never fails, since the event takes the next number.
pub append_event_lem :
    (kind : AuditEventKind) (plane : ControlPlane)
    → append_event kind plane ≡ (ok tt, noted (some kind) plane)
unfolding append_event
append_event_lem kind plane =
    rw (append-next (next_event "runtime-event-" "runtime" kind plane.ledger) plane.ledger refl)
      refl

module _ (identity : AgentIdentity) (plane : ControlPlane) where
  -- the first record of the node has the fingerprint of the identity
  pub record IsKnown : Type 0 where
    pub agent : AgentIdentityRecord
    pub found : find (λ a. a.node_id == identity.node_id) plane.agents ≡ some agent
    pub matches : agent.certificate_fingerprint ≡ identity.certificate_fingerprint

  pub require_agent_cases :
      ((e : RuntimeError) × (require_agent identity plane ≡ (err e, plane)))
      ⊎ (IsKnown × (require_agent identity plane ≡ (ok tt, plane)))
  unfolding require_agent
  require_agent_cases =
      elim (Option-cases
        (find (λ (a : AgentIdentityRecord). a.node_id == identity.node_id) plane.agents)) [
          | inl missing ↦ inl (unknown_agent, ground arith)
          | inr (agent, e) ↦
              elim (Bool-cases
                (agent.certificate_fingerprint == identity.certificate_fingerprint)) [
                  | inr other ↦ inl (agent_identity_mismatch, ground arith)
                  | inl same ↦ inr (
                    record {
                      agent = agent;
                      found = e;
                      matches =
                          (eq_iff agent.certificate_fingerprint identity.certificate_fingerprint).0
                            same;
                    },
                    ground arith,
                  )
                ]
        ]

  pub require_agent-known : IsKnown → require_agent identity plane ≡ (ok tt, plane)
  unfolding require_agent
  require_agent-known known =
      let e = known.found in
      let same =
        (eq_iff known.agent.certificate_fingerprint identity.certificate_fingerprint).1
          known.matches in
      ground arith
