-- ===== src/Http/Effects.antt =====
-- What requests do to the control plane.
use runlane.Prelude.{
  ℕ, suc, ◌≤◌, ◌≡◌, refl, subst, inl, inr, String, List, [], ◌∷◌, length, arith, All, Bool-cases,
  Option-cases, Result-cases, ◌==◌,
}
use runlane.Prelude.Action.{Action, ◌>>◌, pure}
use runlane.Domain.{OperatingSystem}
use runlane.Runtime.{ControlPlane, RuntimeError, EnrollmentToken, AgentEnrollmentRequest}
use runlane.Runtime as Runtime
use runlane.Runtime.Steps.{
  Call, create_token_call, enroll_call, enqueue_call, pull_call, submit_call, spool_call, after,
  after_all,
}
use runlane.Http.{
  HttpState, HttpApiError, CreateEnrollmentTokenRequest, EnrollmentRequestDto,
  parse_operating_system, into_core,
}
use runlane.Http.Headers.{HeaderMap, identity_from_headers}
use runlane.Http.Handlers.{
  with_lock, create_enrollment_token, enroll_agent, pull_task, submit_result, replay_spool, Request,
  token_request, enroll_request, pull_request, result_request, replay_request, serve, serve_all,
}

-- the calls that a request can make: no task is queued and no result is spooled over HTTP
pub IsRemote : Call → Type 0
IsRemote (enqueue_call task) = ⊥
IsRemote (spool_call spool) = ⊥
IsRemote _ = Unit

-- a state with another control plane
abbrev pub with_plane : HttpState → ControlPlane → HttpState
with_plane state plane = record state { control_plane = plane }

-- A request leaves the state alone, or makes one call on the control plane.
data Effect (state : HttpState) : HttpState → Type 0 where
  untouched : Effect state state
  called :
      (call : Call)
      → IsRemote call
      → Effect state (with_plane state (after call state.control_plane))

module _ {A : Type 0} (state : HttpState) where
  lock-Effect :
      (m : Action ControlPlane RuntimeError A) (call : Call)
      → IsRemote call
      → (m state.control_plane).1 ≡ after call state.control_plane
      → (next : HttpState) → next ≡ (with_lock m state).1
      → Effect state next
  unfolding with_lock
  lock-Effect m call remote same next e = elim (Bool-cases state.poisoned) [
    | inl dead ↦ subst (Effect state) (ground arith) untouched
    | inr alive ↦ subst (Effect state) (ground arith) (called call remote)
  ]

  kept_lem : (m : Action HttpState HttpApiError A) → ((m >> pure tt) state).1 ≡ (m state).1
  kept_lem m = elim (Result-cases (m state).0) [
    | inl (a, fine) ↦ ground arith
    | inr (e, failed) ↦ ground arith
  ]

-- the calls that lead from a state to another
pub record Follows (state final : HttpState) (count : ℕ) : Type 0 where
  pub calls : List Call
  pub remote : All IsRemote calls
  pub few : length calls ≤ count
  pub same_lock : final.poisoned ≡ state.poisoned
  pub same_plane : final.control_plane ≡ after_all calls state.control_plane

Effect-Follows :
    (state next final : HttpState) (count : ℕ)
    → Effect state next
    → Follows next final count
    → Follows state final (suc count)
unfolding after_all
Effect-Follows state _ final count untouched f = record {
  calls = f.calls;
  remote = f.remote;
  few = omega (arith, f.few);
  same_lock = f.same_lock;
  same_plane = f.same_plane;
}
Effect-Follows state _ final count (called call remote) f = record {
  calls = call ∷ f.calls;
  remote = (remote, f.remote);
  few = omega (arith, f.few);
  same_lock = f.same_lock;
  same_plane = f.same_plane;
}

-- the token and the enrolment of a request
abbrev pub token_of : CreateEnrollmentTokenRequest → OperatingSystem → EnrollmentToken
token_of request os = record {
  token_id = request.token_id;
  token = request.token;
  node_id = request.node_id;
  os = os;
  server_trust_root = request.server_trust_root;
  expires_at_unix_seconds = request.expires_at_unix_seconds;
  nonce = request.nonce;
}

abbrev pub enrollment_of : EnrollmentRequestDto → OperatingSystem → AgentEnrollmentRequest
enrollment_of request os = record {
  token = request.token;
  node_id = request.node_id;
  os = os;
  certificate_fingerprint = request.certificate_fingerprint;
  server_trust_root = request.server_trust_root;
  now_unix_seconds = request.now_unix_seconds;
}

module _ (debug_str : String → String) {Headers Value : Type 0}
    (map : HeaderMap Headers Value) where
  serve-Effect :
      (request : Request Headers) (state : HttpState)
      → Effect state (serve debug_str map request state).1
  unfolding serve create_enrollment_token enroll_agent pull_task submit_result replay_spool after
      IsRemote
  serve-Effect (token_request request) state =
      elim (Result-cases (parse_operating_system debug_str request.platform_family)) [
        | inr (e, bad) ↦ subst (Effect state) (ground arith) untouched
        | inl (os, parsed) ↦
            let m = Runtime.create_enrollment_token (token_of request os) in
            lock-Effect state m (create_token_call (token_of request os)) tt refl _
              (ground (arith, kept_lem state (with_lock m)))
      ]
  serve-Effect (enroll_request request) state =
      elim (Result-cases (parse_operating_system debug_str request.platform_family)) [
        | inr (e, bad) ↦ subst (Effect state) (ground arith) untouched
        | inl (os, parsed) ↦
            let m = Runtime.enroll_agent (enrollment_of request os) in
            lock-Effect state m (enroll_call (enrollment_of request os)) tt refl _
              (ground (arith, kept_lem state (with_lock m)))
      ]
  serve-Effect (pull_request headers request) state =
      elim (Result-cases (identity_from_headers map headers)) [
        | inr (e, bad) ↦ subst (Effect state) (ground arith) untouched
        | inl (identity, shown) ↦ elim (Bool-cases (identity.node_id == request.node_id)) [
          | inr other ↦ subst (Effect state) (ground arith) untouched
          | inl same ↦
              let m = Runtime.pull_task identity request.now_unix_seconds in
              lock-Effect state m (pull_call identity request.now_unix_seconds) tt refl _
                (ground (arith, kept_lem state (with_lock m)))
        ]
      ]
  serve-Effect (result_request headers request) state =
      elim (Result-cases (identity_from_headers map headers)) [
        | inr (e, bad) ↦ subst (Effect state) (ground arith) untouched
        | inl (identity, shown) ↦ elim (Option-cases request.now_unix_seconds) [
          | inl missing ↦ subst (Effect state) (ground arith) untouched
          | inr (now, timed) ↦ elim (Result-cases (into_core debug_str request)) [
            | inr (e, bad) ↦ subst (Effect state) (ground arith) untouched
            | inl (result, read) ↦
                let m = Runtime.submit_result identity result now in
                lock-Effect state m (submit_call identity result now) tt refl _
                  (ground (arith, kept_lem state (with_lock m)))
          ]
        ]
      ]
  serve-Effect (replay_request headers request) state =
      elim (Result-cases (identity_from_headers map headers)) [
        | inr (e, bad) ↦ subst (Effect state) (ground arith) untouched
        | inl (identity, shown) ↦ elim (Result-cases (into_core debug_str request.result)) [
          | inr (e, bad) ↦ subst (Effect state) (ground arith) untouched
          | inl (result, read) ↦
              let m = Runtime.submit_result identity result request.now_unix_seconds in
              lock-Effect state m (submit_call identity result request.now_unix_seconds) tt refl _
                (ground (arith, kept_lem state (with_lock m)))
        ]
      ]

  -- Whatever requests are served, in any order, the control plane is as after a list of its calls,
  -- one for a request or none, and among them is none that queues a task or spools a result; the
  -- lock is as it was.
  pub serve_all-Follows :
      (requests : List (Request Headers)) (state : HttpState)
      → Follows state (serve_all debug_str map requests state) (length requests)
  unfolding serve_all after_all
  serve_all-Follows [] state = record {
    calls = [];
    remote = tt;
    few = omega arith;
    same_lock = refl;
    same_plane = refl;
  }
  serve_all-Follows (request ∷ requests) state =
      let next = (serve debug_str map request state).1 in
      Effect-Follows state next (serve_all debug_str map requests next) (length requests)
        (serve-Effect request state) (serve_all-Follows requests next)
