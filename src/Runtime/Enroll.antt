-- ===== src/Runtime/Enroll.antt =====
-- Enrolling agents: which requests the control plane honours.
use runlane.Prelude.{
  true, ◌≡◌, ◌↔◌, ◌⊎◌, ◌<◌, inl, inr, some, [], ◌∷◌, ◌++◌, find, leb, ◌==◌, eq_iff, ok, err, arith,
  Bool-cases, Option-cases,
}
use runlane.Domain.{os_eq}
use runlane.Audit.{agent_enrolled}
use runlane.Runtime.{
  EnrollmentToken, AgentEnrollmentRequest, RuntimeError, expired_enrollment_token,
  enrollment_token_mismatch, enrollment_node_mismatch, enrollment_os_mismatch,
  enrollment_trust_root_mismatch, ControlPlane, enrolled, enroll_agent,
}
use runlane.Runtime.Events.{log, append_event_lem}

module _ (request : AgentEnrollmentRequest) (plane : ControlPlane) where
  -- the control plane after the agent was enrolled
  abbrev pub with_agent : ControlPlane
  with_agent = record plane {
    agents = plane.agents ++ enrolled request ∷ [];
    ledger = log (agent_enrolled request.node_id request.os) plane.ledger;
  }

  -- the token that a request names, with all that it asks for
  pub record Honours (token : EnrollmentToken) : Type 0 where
    pub issued : find (λ t. t.token == request.token) plane.enrollment_tokens ≡ some token
    pub current : request.now_unix_seconds < token.expires_at_unix_seconds
    pub same_node : token.node_id ≡ request.node_id
    pub same_os : os_eq token.os request.os ≡ true
    pub same_root : token.server_trust_root ≡ request.server_trust_root

  -- An enrolment fails and changes nothing, or the first token with the request's text has not
  -- expired and is for the same node, system and trust root; then the agent is appended.
  pub enroll_agent_cases :
      ((e : RuntimeError) × (enroll_agent request plane ≡ (err e, plane)))
      ⊎ ((token : EnrollmentToken) × Honours token
          × (enroll_agent request plane ≡ (ok (enrolled request), with_agent)))
  unfolding enroll_agent
  enroll_agent_cases =
      elim (Option-cases
        (find (λ (t : EnrollmentToken). t.token == request.token) plane.enrollment_tokens)) [
          | inl missing ↦ inl (enrollment_token_mismatch, ground arith)
          | inr (token, e) ↦
              elim (Bool-cases (leb token.expires_at_unix_seconds request.now_unix_seconds)) [
                | inl late ↦ inl (expired_enrollment_token, ground arith)
                | inr current ↦ elim (Bool-cases (token.node_id == request.node_id)) [
                  | inr off ↦ inl (enrollment_node_mismatch, ground arith)
                  | inl same_node ↦ elim (Bool-cases (os_eq token.os request.os)) [
                    | inr off ↦ inl (enrollment_os_mismatch, ground arith)
                    | inl same_os ↦
                        elim (Bool-cases (token.server_trust_root == request.server_trust_root)) [
                          | inr off ↦ inl (enrollment_trust_root_mismatch, ground arith)
                          | inl same_root ↦ inr (
                            token,
                            record {
                              issued = e;
                              current = ground arith;
                              same_node = (eq_iff token.node_id request.node_id).0 same_node;
                              same_os = same_os;
                              same_root =
                                  (eq_iff token.server_trust_root request.server_trust_root).0
                                    same_root;
                            },
                            ground (
                              arith,
                              append_event_lem (agent_enrolled request.node_id request.os) plane,
                            ),
                          )
                        ]
                  ]
                ]
              ]
        ]

  -- An enrolment goes through, which appends the agent as the request describes it and one event, and
  -- changes nothing else, exactly when the first token with the text of the request has not expired
  -- and is for the same node, system and trust root. Any other enrolment fails and changes nothing.
  pub enroll_agent_iff :
      ((enroll_agent request plane ≡ (ok (enrolled request), with_agent))
        ↔ ((token : EnrollmentToken) × Honours token))
      × ((enroll_agent request plane ≡ (ok (enrolled request), with_agent))
          ⊎ ((e : RuntimeError) × (enroll_agent request plane ≡ (err e, plane))))
  unfolding enroll_agent
  enroll_agent_iff = (
    (
      λ h. elim enroll_agent_cases [
        | inl (e, failed) ↦ absurd (ground arith)
        | inr (token, honours, done) ↦ (token, honours)
      ],
      λ (token, honours).
          let found = honours.issued in
          let current = honours.current in
          let same_node = (eq_iff token.node_id request.node_id).1 honours.same_node in
          let same_os = honours.same_os in
          let same_root =
            (eq_iff token.server_trust_root request.server_trust_root).1 honours.same_root in
          ground (arith, append_event_lem (agent_enrolled request.node_id request.os) plane),
    ),
    elim enroll_agent_cases [ inl failed ↦ inr failed | inr (token, honours, done) ↦ inl done ],
  )
