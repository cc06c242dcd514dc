-- ===== src/Approval/Store.antt =====
-- What each operation of the approval store does, by cases.
use runlane.Prelude.{
  ℕ, String, true, ◌≡◌, ◌⊎◌, ◌<◌, ◌≤◌, refl, inl, inr, some, [], ◌∷◌, ◌++◌, find, update_first, leb,
  ◌==◌, eq_iff, ok, err, arith, Bool-cases, Option-cases,
}
use runlane.Text.{format}
use runlane.Domain.{ActionKind, ApprovalOutcome, CapabilityLeaseClaims}
use runlane.Audit.{
  AuditLedger, AuditEventKind, approval_requested, approval_decision, approval_expired,
  approval_superseded, next_event,
}
use runlane.Audit.Numbering.{push, append-next}
use runlane.Analyzer.{helper_action}
use runlane.Approval.{
  ApprovalState, approved, rejected, expired, superseded, unknown_approval, not_pending,
  stale_approval, action_mismatch, unsupported_helper_action, is_pending, ApprovalRecord,
  ApprovalError, ApprovalStore, append_event, has_id, set_state, ensure_pending_not_stale,
  node_from_target, request, approve, reject, expire, supersede,
}

-- the ledger with one more event
abbrev pub log : AuditEventKind → AuditLedger → AuditLedger
log kind ledger = push ledger (next_event "approval-event-" "approval" kind ledger)

-- Appending never fails, since the event takes the next number.
pub append_event_lem :
    (kind : AuditEventKind) (store : ApprovalStore)
    → append_event kind store ≡ (ok tt, record store { ledger = log kind store.ledger })
unfolding append_event
append_event_lem kind store =
    rw (append-next (next_event "approval-event-" "approval" kind store.ledger) store.ledger refl)
      refl

-- the store after one record has moved to a state and one event was appended
abbrev pub moved : String → ApprovalState → AuditEventKind → ApprovalStore → ApprovalStore
moved id state kind store = record {
  records = update_first (has_id id) (set_state state) store.records;
  ledger = log kind store.ledger;
}

abbrev pub claims_of :
    String → ApprovalRecord → ActionKind → String → String → CapabilityLeaseClaims
claims_of id r action allowlist_entry_id lease_nonce = record {
  lease_id = format ("lease-" ∷ id ∷ []);
  run_id = r.run_id;
  approval_id = r.id;
  node_id = node_from_target r.target.resource_id;
  action = action;
  target = r.target;
  allowlist_entry_id = allowlist_entry_id;
  expires_at_unix_seconds = r.expires_at_unix_seconds;
  nonce = lease_nonce;
}

-- the record that an id names, if it is pending
abbrev pub IsPendingAt : String → ApprovalStore → ApprovalRecord → Type 0
IsPendingAt id store r = (find (has_id id) store.records ≡ some r) × (is_pending r.state ≡ true)

module _ (id : String) (store : ApprovalStore) where
  pub request_lem :
      (r : ApprovalRecord)
      → request r store ≡ (
        ok tt,
        record {
          records = store.records ++ r ∷ [];
          ledger = log (approval_requested r.id r.proposal_id r.action_id) store.ledger;
        },
      )
  unfolding request
  request_lem r = rw append_event_lem refl

  -- An approval fails and changes nothing, or the record that the id names is pending, not stale,
  -- bound to the expected action and has a helper action; then the claims repeat the record.
  pub approve_cases :
      (expected actor : String) (now : ℕ) (entry nonce : String)
      → ((e : ApprovalError) × (approve id expected actor now entry nonce store ≡ (err e, store)))
        ⊎ ((r : ApprovalRecord) × (action : ActionKind) × IsPendingAt id store r
            × (now < r.expires_at_unix_seconds)
            × (r.action_id ≡ expected)
            × (helper_action r.action ≡ some action)
            × (approve id expected actor now entry nonce store ≡ (
              ok (claims_of id r action entry nonce),
              moved id approved (approval_decision id actor ApprovalOutcome.approved) store,
            )))
  unfolding approve ensure_pending_not_stale
  approve_cases expected actor now entry nonce =
      elim (Option-cases (find (has_id id) store.records)) [
        | inl missing ↦ inl (unknown_approval, ground arith)
        | inr (r, e) ↦ elim (Bool-cases (is_pending r.state)) [
          | inr closed ↦ inl (not_pending, ground arith)
          | inl open_now ↦ elim (Bool-cases (leb r.expires_at_unix_seconds now)) [
            | inl stale ↦ inl (stale_approval, ground arith)
            | inr fresh ↦ elim (Bool-cases (r.action_id == expected)) [
              | inr other ↦ inl (action_mismatch, ground arith)
              | inl same ↦ elim (Option-cases (helper_action r.action)) [
                | inl unhelped ↦ inl (unsupported_helper_action, ground arith)
                | inr (action, helped) ↦ inr (
                  r,
                  action,
                  (e, open_now),
                  ground arith,
                  (eq_iff r.action_id expected).0 same,
                  helped,
                  ground (
                    arith,
                    append_event_lem (approval_decision id actor ApprovalOutcome.approved)
                        (record store {
                          records = update_first (has_id id) (set_state approved) store.records;
                        }),
                  ),
                )
              ]
            ]
          ]
        ]
      ]

  pub reject_cases :
      (actor : String) (now : ℕ)
      → ((e : ApprovalError) × (reject id actor now store ≡ (err e, store)))
        ⊎ ((r : ApprovalRecord) × IsPendingAt id store r
            × (now < r.expires_at_unix_seconds)
            × (reject id actor now store ≡ (
              ok tt,
              moved id rejected (approval_decision id actor ApprovalOutcome.rejected) store,
            )))
  unfolding reject ensure_pending_not_stale
  reject_cases actor now = elim (Option-cases (find (has_id id) store.records)) [
    | inl missing ↦ inl (unknown_approval, ground arith)
    | inr (r, e) ↦ elim (Bool-cases (is_pending r.state)) [
      | inr closed ↦ inl (not_pending, ground arith)
      | inl open_now ↦ elim (Bool-cases (leb r.expires_at_unix_seconds now)) [
        | inl stale ↦ inl (stale_approval, ground arith)
        | inr fresh ↦ inr (
          r,
          (e, open_now),
          ground arith,
          ground (
            arith,
            append_event_lem (approval_decision id actor ApprovalOutcome.rejected) (record store {
              records = update_first (has_id id) (set_state rejected) store.records;
            }),
          ),
        )
      ]
    ]
  ]

  pub expire_cases :
      (now : ℕ)
      → ((e : ApprovalError) × (expire id now store ≡ (err e, store)))
        ⊎ ((r : ApprovalRecord) × IsPendingAt id store r
            × (r.expires_at_unix_seconds ≤ now)
            × (expire id now store ≡ (ok tt, moved id expired (approval_expired id) store)))
  unfolding expire
  expire_cases now = elim (Option-cases (find (has_id id) store.records)) [
    | inl missing ↦ inl (unknown_approval, ground arith)
    | inr (r, e) ↦ elim (Bool-cases (is_pending r.state)) [
      | inr closed ↦ inl (not_pending, ground arith)
      | inl open_now ↦ elim (Bool-cases (leb r.expires_at_unix_seconds now)) [
        | inr fresh ↦ inl (stale_approval, ground arith)
        | inl stale ↦ inr (
          r,
          (e, open_now),
          ground arith,
          ground (
            arith,
            append_event_lem (approval_expired id) (record store {
              records = update_first (has_id id) (set_state expired) store.records;
            }),
          ),
        )
      ]
    ]
  ]

  pub supersede_cases :
      (by : String)
      → ((e : ApprovalError) × (supersede id by store ≡ (err e, store)))
        ⊎ ((r : ApprovalRecord) × IsPendingAt id store r
            × (supersede id by store
                ≡ (ok tt, moved id superseded (approval_superseded id by) store)))
  unfolding supersede
  supersede_cases by = elim (Option-cases (find (has_id id) store.records)) [
    | inl missing ↦ inl (unknown_approval, ground arith)
    | inr (r, e) ↦ elim (Bool-cases (is_pending r.state)) [
      | inr closed ↦ inl (not_pending, ground arith)
      | inl open_now ↦ inr (
        r,
        (e, open_now),
        ground (
          arith,
          append_event_lem (approval_superseded id by) (record store {
            records = update_first (has_id id) (set_state superseded) store.records;
          }),
        ),
      )
    ]
  ]
