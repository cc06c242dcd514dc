-- ===== src/Http/Identity.antt =====
-- Which agents the handlers answer.
use runlane.Prelude.{
  ◌≡◌, ◌<◌, ◌∙◌, inl, inr, String, none, some, ok, err, ◌>>=◌, ◌==◌, eq_iff, arith, Bool-cases,
  Result-cases,
}
use runlane.Domain.{AgentIdentity}
use runlane.Runtime.{PendingAgentTask, is_for}
use runlane.Runtime as Runtime
use runlane.Runtime.Events.{IsKnown}
use runlane.Runtime.Pull.{pull_task_cases}
use runlane.Text.{format}
use runlane.Prelude.Search.{find-some}
use runlane.Http.{
  unauthorized, envelope_dto, payload_dto, HttpState, HttpApiError, PullTaskRequest,
  PullTaskResponse, AgentResultSubmissionDto, SpoolReplayRequest, parse_result_status,
  submission_of, into_core,
}
use runlane.Http.Headers.{HeaderMap, required_header, identity_from_headers}
use runlane.Http.Handlers.{with_lock, pull_task, submit_result, replay_spool}

module _ (debug_str : String → String) {Headers Value : Type 0} (map : HeaderMap Headers Value)
    (headers : Headers) where
  -- A request whose headers do not name a node is refused as unauthorized by the three routes of
  -- the agents, and changes nothing.
  pub anonymous-refused :
      (pull : PullTaskRequest) (result : AgentResultSubmissionDto) (replay : SpoolReplayRequest)
      (state : HttpState)
      → map.get headers "x-runlane-node-id" ≡ none
      → let refusal : HttpApiError = record {
        status = unauthorized;
        kind = "missing_identity";
        message = "missing required identity header x-runlane-node-id";
      } in
        (pull_task debug_str map headers pull state ≡ (err refusal, state))
        × (submit_result debug_str map headers result state ≡ (err refusal, state))
        × (replay_spool debug_str map headers replay state ≡ (err refusal, state))
  unfolding pull_task submit_result replay_spool identity_from_headers required_header format
  anonymous-refused pull result replay state missing = (ground arith, ground arith, ground arith)

  -- why a pull is answered with a task
  pub record Served (request : PullTaskRequest) (state : HttpState) (response : PullTaskResponse)
      : Type 0 where
    pub identity : AgentIdentity
    pub shown : identity_from_headers map headers ≡ ok identity
    pub same_node : identity.node_id ≡ request.node_id
    pub known : IsKnown identity state.control_plane
    pub mine : response.envelope.node_id ≡ request.node_id
    pub current : request.now_unix_seconds < response.envelope.expires_at_unix_seconds

  -- A pull is answered with a task only if the headers show an enrolled node with the fingerprint
  -- of its enrolment, the body names that node, and the task is for it and has not expired.
  pub pull_task-Served :
      (request : PullTaskRequest) (state next : HttpState) (response : PullTaskResponse)
      → pull_task debug_str map headers request state ≡ (ok response, next)
      → Served request state response
  unfolding pull_task with_lock
  pull_task-Served request state next response h =
      elim (Result-cases (identity_from_headers map headers)) [
        | inr (e, bad) ↦ absurd (ground arith)
        | inl (identity, shown) ↦ elim (Bool-cases (identity.node_id == request.node_id)) [
          | inr other ↦ absurd (ground arith)
          | inl same ↦ elim (Bool-cases state.poisoned) [
            | inl dead ↦ absurd (ground arith)
            | inr alive ↦
                elim (pull_task_cases identity request.now_unix_seconds state.control_plane) [
                  | inl (e, kind, failed) ↦ absurd (ground arith)
                  | inr (task, known, e, current, done) ↦
                      let node = (eq_iff identity.node_id request.node_id).0 same in
                      let mine =
                        (find-some (is_for identity.node_id) state.control_plane.pending_tasks task
                          e).1 in
                      let same_answer : response ≡ record {
                        envelope = envelope_dto task.envelope;
                        payload = payload_dto task.payload;
                      } =
                        ground arith in
                      record {
                        identity = identity;
                        shown = shown;
                        same_node = node;
                        known = known;
                        mine =
                            rw same_answer
                              ((eq_iff task.envelope.node_id identity.node_id).0 mine ∙ node);
                        current = rw same_answer current;
                      }
                ]
          ]
        ]
      ]

  -- Replaying a spooled result does what submitting the same result at the same time does: the
  -- answer is an error of the submission, or the spool id, and the state is the same.
  pub replay_spool-submit :
      (request : SpoolReplayRequest) (state : HttpState)
      → let (answer, next) =
          submit_result debug_str map headers
            (record request.result { now_unix_seconds = some request.now_unix_seconds })
            state in
        replay_spool debug_str map headers request state
        ≡ (answer >>= λ _. ok (record { status = "accepted"; spool_id = request.spool_id }), next)
  unfolding submit_result replay_spool with_lock into_core
  replay_spool-submit request state = elim (Result-cases (identity_from_headers map headers)) [
    | inr (e, bad) ↦ ground arith
    | inl (identity, shown) ↦
        elim (Result-cases (parse_result_status debug_str request.result.status)) [
          | inr (e, bad) ↦ ground arith
          | inl (status, read) ↦ elim (Bool-cases state.poisoned) [
            | inl dead ↦ ground arith
            | inr alive ↦
                elim (Result-cases
                  (Runtime.submit_result identity (submission_of request.result status)
                    request.now_unix_seconds state.control_plane).0) [
                      | inr (e, failed) ↦ ground arith
                      | inl (a, fine) ↦ ground arith
                    ]
          ]
        ]
  ]
