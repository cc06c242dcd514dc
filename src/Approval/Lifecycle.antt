-- ===== src/Approval/Lifecycle.antt =====
-- What becomes of one record of the store over any sequence of calls.
use runlane.Prelude.{
  ℕ, String, Bool, true, false, ◌≡◌, ◌≢◌, refl, inl, inr, some, List, [], ◌∷◌, ◌++◌, find,
  update_first, eq_iff, ok, err, arith, Bool-cases, subst, sym, ap, ◌∙◌,
}
use runlane.Prelude.Search.{find-append}
use runlane.Domain.{CapabilityLeaseClaims, ApprovalOutcome}
use runlane.Audit.{
  AuditEventKind, approval_requested, approval_decision, approval_expired, approval_superseded,
  approval_adapter_rejected,
}
use runlane.Approval.{
  ApprovalState, approved, rejected, expired, superseded, is_pending, not_pending, ApprovalRecord,
  ApprovalStore, has_id, set_state, request, approve, reject, expire, supersede,
  record_adapter_rejection, ensure_pending_not_stale,
}
use runlane.Approval.Store.{
  append_event_lem, log, moved, IsPendingAt, request_lem, approve_cases, reject_cases, expire_cases,
  supersede_cases,
}

-- the calls that change a store
pub data Call : Type 0 where
  request_call : ApprovalRecord → Call
  approve_call : String → String → String → ℕ → String → String → Call
  reject_call : String → String → ℕ → Call
  expire_call : String → ℕ → Call
  supersede_call : String → String → Call
  adapter_call : String → String → Call

-- the store that a call leaves, whatever it returns
unfoldable pub after : Call → ApprovalStore → ApprovalStore
after (request_call r) store = (request r store).1
after (approve_call id action actor now entry nonce) store =
    (approve id action actor now entry nonce store).1
after (reject_call id actor now) store = (reject id actor now store).1
after (expire_call id now) store = (expire id now store).1
after (supersede_call id by) store = (supersede id by store).1
after (adapter_call adapter reason) store = (record_adapter_rejection adapter reason store).1

unfoldable pub after_all : List Call → ApprovalStore → ApprovalStore
after_all [] store = store
after_all (call ∷ calls) store = after_all calls (after call store)

-- the event that announces that an approval entered a state
pub data Announces (id : String) : ApprovalState → AuditEventKind → Type 0 where
  by_approval :
      (actor : String) → Announces id approved (approval_decision id actor ApprovalOutcome.approved)
  by_rejection :
      (actor : String) → Announces id rejected (approval_decision id actor ApprovalOutcome.rejected)
  by_expiry : Announces id expired (approval_expired id)
  by_replacement : (other : String) → Announces id superseded (approval_superseded id other)

-- The four things that a call can do to a store: nothing, a note of an adapter's refusal, a new record
-- with its event, or a pending record that moves on, with the event that announces it.
pub data Step (call : Call) (store : ApprovalStore) : ApprovalStore → Type 0 where
  unchanged : Step call store store
  noted :
      (adapter reason : String)
      → Step call store
          (record store { ledger = log (approval_adapter_rejected adapter reason) store.ledger })
  added :
      (r : ApprovalRecord)
      → call ≡ request_call r
      → Step call store (record {
        records = store.records ++ r ∷ [];
        ledger = log (approval_requested r.id r.proposal_id r.action_id) store.ledger;
      })
  settled :
      (id : String) (state : ApprovalState) (kind : AuditEventKind) (r : ApprovalRecord)
      → IsPendingAt id store r
      → Announces id state kind
      → Step call store (moved id state kind store)

module _ (store : ApprovalStore) where
  Step-of_eq :
      {call : Call} (store' : ApprovalStore) {next : ApprovalStore}
      → next ≡ store'
      → Step call store store'
      → Step call store next
  Step-of_eq {call} store' e = subst (Step call store) (sym e)

  -- Every call is one of these steps.
  pub after-Step : (call : Call) → Step call store (after call store)
  unfolding after record_adapter_rejection
  after-Step (request_call r) =
      Step-of_eq _ (ap (λ x. x.1) (request_lem r.id store r)) (added r refl)
  after-Step (adapter_call adapter reason) =
      Step-of_eq _
        (ap (λ x. x.1) (append_event_lem (approval_adapter_rejected adapter reason) store))
        (noted adapter reason)
  after-Step (approve_call id action actor now entry nonce) =
      elim (approve_cases id store action actor now entry nonce) [
        | inl (e, same) ↦ Step-of_eq store (ap (λ x. x.1) same) unchanged
        | inr (r, made, at, fresh, bound, helped, done) ↦
            Step-of_eq _ (ap (λ x. x.1) done) (settled id approved _ r at (by_approval actor))
      ]
  after-Step (reject_call id actor now) = elim (reject_cases id store actor now) [
    | inl (e, same) ↦ Step-of_eq store (ap (λ x. x.1) same) unchanged
    | inr (r, at, fresh, done) ↦
        Step-of_eq _ (ap (λ x. x.1) done) (settled id rejected _ r at (by_rejection actor))
  ]
  after-Step (expire_call id now) = elim (expire_cases id store now) [
    | inl (e, same) ↦ Step-of_eq store (ap (λ x. x.1) same) unchanged
    | inr (r, at, stale, done) ↦
        Step-of_eq _ (ap (λ x. x.1) done) (settled id expired _ r at by_expiry)
  ]
  after-Step (supersede_call id by) = elim (supersede_cases id store by) [
    | inl (e, same) ↦ Step-of_eq store (ap (λ x. x.1) same) unchanged
    | inr (r, at, done) ↦
        Step-of_eq _ (ap (λ x. x.1) done) (settled id superseded _ r at (by_replacement by))
  ]

module _ {ℓ} {A : Type ℓ} (p q : A → Bool) (f : A → A) where
  -- an update of elements that a search passes over is not seen by the search
  find-update_first :
      ((x : A) → q x ≡ true → (p x ≡ false) × (p (f x) ≡ false))
      → (xs : List A) → find p (update_first q f xs) ≡ find p xs
  find-update_first h [] = refl
  find-update_first h (x ∷ xs) = elim (Bool-cases (q x)) [
    | inl e ↦ let (a, b) = h x e in ground arith
    | inr e ↦ let ih = find-update_first h xs in ground arith
  ]

-- a record that the id names and that is no longer pending
abbrev pub IsSettledAt : String → ApprovalStore → ApprovalRecord → Type 0
IsSettledAt id store r = (find (has_id id) store.records ≡ some r) × (is_pending r.state ≡ false)

module _ (id : String) (r : ApprovalRecord) where
  other_ids :
      (other : String)
      → other ≢ id
      → (x : ApprovalRecord) → has_id other x ≡ true
      → has_id id x ≡ false
  other_ids other apart x h = elim (Bool-cases (has_id id x)) [
    | inr e ↦ e
    | inl e ↦ absurd (apart (sym ((eq_iff x.id other).0 h) ∙ (eq_iff x.id id).0 e))
  ]

  Step-IsSettledAt :
      (call : Call) (store next : ApprovalStore)
      → Step call store next
      → IsSettledAt id store r
      → IsSettledAt id next r
  Step-IsSettledAt call store _ unchanged (e, closed) = (e, closed)
  Step-IsSettledAt call store _ (noted adapter reason) (e, closed) = (e, closed)
  Step-IsSettledAt call store _ (added new asked) (e, closed) =
      (find-append _ store.records _ r e, closed)
  Step-IsSettledAt call store _ (settled other state kind q (found, open_now) announced)
        (e, closed) =
      let apart : other ≢ id = λ same. ground arith in
      (
        find-update_first (has_id id) (has_id other) (set_state state)
              (λ x h. (other_ids other apart x h, other_ids other apart x h)) store.records
            ∙ e,
        closed,
      )

  -- A record that an id names and that is no longer pending is the one that the id names after any
  -- calls whatsoever, and not one field of it has changed.
  pub after_all-settled :
      (calls : List Call) (store : ApprovalStore)
      → IsSettledAt id store r
      → IsSettledAt id (after_all calls store) r
  unfolding after_all
  after_all-settled [] store at = at
  after_all-settled (call ∷ calls) store at =
      after_all-settled calls (after call store)
        (Step-IsSettledAt call store (after call store) (after-Step store call) at)

find-set_state :
    (id : String) (state : ApprovalState) (xs : List ApprovalRecord) (r : ApprovalRecord)
    → find (has_id id) xs ≡ some r
    → find (has_id id) (update_first (has_id id) (set_state state) xs) ≡ some (set_state state r)
find-set_state id state [] r h = cc
find-set_state id state (x ∷ xs) r h = elim (Bool-cases (has_id id x)) [
  | inl e ↦ ground arith
  | inr e ↦ let ih = find-set_state id state xs r (ground arith) in ground arith
]

module _ (id : String) (store : ApprovalStore) where
  -- the four calls that decide on an approval refuse it as no longer pending
  pub IsClosed : Type 0
  IsClosed =
      ((action actor : String) (now : ℕ) (entry nonce : String)
        → (approve id action actor now entry nonce store ≡ (err not_pending, store)))
      × ((actor : String) (now : ℕ) → reject id actor now store ≡ (err not_pending, store))
      × ((now : ℕ) → expire id now store ≡ (err not_pending, store))
      × ((by : String) → supersede id by store ≡ (err not_pending, store))

  settled-IsClosed : (r : ApprovalRecord) → IsSettledAt id store r → IsClosed
  unfolding IsClosed approve reject expire supersede ensure_pending_not_stale
  settled-IsClosed r (e, closed) = (
    λ action actor now entry nonce. ground arith,
    λ actor now. ground arith,
    λ now. ground arith,
    λ by. ground arith,
  )

-- An approval is used once: after an `approve` that returned claims, and whatever calls follow,
-- `approve`, `reject`, `expire` and `supersede` of the same id all fail with `NotPending` and
-- change nothing.
pub approve-once :
    (id action actor : String) (now : ℕ) (entry nonce : String) (store : ApprovalStore)
    (claims : CapabilityLeaseClaims) (next : ApprovalStore) (calls : List Call)
    → approve id action actor now entry nonce store ≡ (ok claims, next)
    → IsClosed id (after_all calls next)
approve-once id action actor now entry nonce store claims next calls h =
    elim (approve_cases id store action actor now entry nonce) [
      | inl (e, failed) ↦ absurd (ground arith)
      | inr (r, made, (found, open_now), fresh, bound, helped, done) ↦
          let same : next
              ≡ moved id approved (approval_decision id actor ApprovalOutcome.approved) store =
            ground arith in
          let at : IsSettledAt id next (set_state approved r) =
            (rw same (find-set_state id approved store.records r found), refl) in
          settled-IsClosed id (after_all calls next) (set_state approved r)
            (after_all-settled id (set_state approved r) calls next at)
    ]
