-- ===== src/Http/Platforms.antt =====
-- The platform names of requests and responses.
use runlane.Prelude.{
  ◌≡◌, ◌⊎◌, ◌↔◌, refl, inl, inr, String, ok, arith, ◌==◌, eq_iff, Bool-cases, Result-cases,
}
use runlane.Domain.{OperatingSystem, linux, free_bsd, open_bsd}
use runlane.Runtime.Enroll.{enroll_agent_cases}
use runlane.Http.{
  HttpState, EnrollmentRequestDto, AgentIdentityResponse, parse_operating_system,
  format_operating_system,
}
use runlane.Http.Effects.{enrollment_of}
use runlane.Http.Handlers.{with_lock, enroll_agent}

module _ (debug_str : String → String) where
  -- A platform is read exactly from the name that is printed for it, and no other platform than
  -- Linux, FreeBSD and OpenBSD is read.
  pub parse_operating_system_iff :
      (value : String) (os : OperatingSystem)
      → (parse_operating_system debug_str value ≡ ok os) ↔ (
          (value ≡ format_operating_system os) × ((os ≡ linux) ⊎ (os ≡ free_bsd) ⊎ (os ≡ open_bsd)))
  unfolding parse_operating_system
  parse_operating_system_iff value os = (
    λ h. elim (Bool-cases (value == "linux")) [
      | inl e ↦
          let same : os ≡ linux = ground arith in
          rw ((eq_iff value "linux").0 e, same) (refl, inl refl)
      | inr not_linux ↦ elim (Bool-cases (value == "freebsd")) [
        | inl e ↦
            let same : os ≡ free_bsd = ground arith in
            rw ((eq_iff value "freebsd").0 e, same) (refl, inr (inl refl))
        | inr not_freebsd ↦ elim (Bool-cases (value == "openbsd")) [
          | inl e ↦
              let same : os ≡ open_bsd = ground arith in
              rw ((eq_iff value "openbsd").0 e, same) (refl, inr (inr refl))
          | inr not_openbsd ↦ absurd (ground arith)
        ]
      ]
    ],
    λ (e, supported). elim supported [
      | inl same ↦ rw (e, same) refl
      | inr (inl same) ↦ rw (e, same) refl
      | inr (inr same) ↦ rw (e, same) refl
    ],
  )

  -- An enrolment that succeeds is answered with the node, the platform, the fingerprint and the
  -- trust root of the request.
  pub enroll_agent-echo :
      (request : EnrollmentRequestDto) (state next : HttpState) (response : AgentIdentityResponse)
      → enroll_agent debug_str request state ≡ (ok response, next)
      → response ≡ record {
        node_id = request.node_id;
        platform_family = request.platform_family;
        certificate_fingerprint = request.certificate_fingerprint;
        server_trust_root = request.server_trust_root;
      }
  unfolding enroll_agent with_lock
  enroll_agent-echo request state next response h =
      elim (Result-cases (parse_operating_system debug_str request.platform_family)) [
        | inr (e, bad) ↦ absurd (ground arith)
        | inl (os, parsed) ↦
            let named = ((parse_operating_system_iff request.platform_family os).0 parsed).0 in
            elim (enroll_agent_cases (enrollment_of request os) state.control_plane) [
              | inl (e, failed) ↦ elim (Bool-cases state.poisoned) [
                | inl dead ↦ absurd (ground arith)
                | inr alive ↦ absurd (ground arith)
              ]
              | inr (token, honours, done) ↦ elim (Bool-cases state.poisoned) [
                | inl dead ↦ absurd (ground arith)
                | inr alive ↦ ground arith
              ]
            ]
      ]
