-- ===== src/Approval/Ledger.antt =====
-- The ledger of the approval store, against its records.
use runlane.Prelude.{
  ℕ, suc, ◌+◌, String, Bool, true, false, ◌≡◌, refl, inl, inr, Option, none, some, List, [], ◌∷◌,
  ◌++◌, find, update_first, length, length-append, All, arith, subst, Bool-cases, if◌then◌else◌,
}
use runlane.Domain.{ApprovalOutcome}
use runlane.Audit.{
  AuditEvent, AuditLedger, AuditEventKind, approval_requested, approval_decision, approval_expired,
  approval_superseded, next_event,
}
use runlane.Audit.Numbering.{IsNumbered, append-IsNumbered, append-next}
use runlane.Approval.{
  ApprovalState, pending, approved, rejected, expired, superseded, is_pending, ApprovalRecord,
  ApprovalStore, empty_store, has_id, set_state,
}
use runlane.Approval.Store.{log}
use runlane.Approval.Lifecycle.{
  Call, request_call, after, after_all, Step, unchanged, noted, added, settled, Announces,
  by_approval, by_rejection, by_expiry, by_replacement, after-Step,
}

pub count {ℓ} : {A : Type ℓ} → (A → Bool) → List A → ℕ
count p [] = 0
count p (x ∷ xs) = if p x then suc (count p xs) else count p xs

module _ {ℓ} {A : Type ℓ} (p : A → Bool) where
  count-push : (xs : List A) (x : A) → count p (xs ++ x ∷ []) ≡ count p xs + (if p x then 1 else 0)
  unfolding count
  count-push [] x = ground arith
  count-push (y ∷ xs) x = let ih = count-push xs x in ground arith

-- the derived equality of the states
abbrev pub state_eq : ApprovalState → ApprovalState → Bool
state_eq pending pending = true
state_eq approved approved = true
state_eq rejected rejected = true
state_eq expired expired = true
state_eq superseded superseded = true
state_eq _ _ = false

abbrev pub in_state : ApprovalState → ApprovalRecord → Bool
in_state state r = state_eq r.state state

-- the state that an event announces for the approval that it names
abbrev pub announced : AuditEventKind → Option ApprovalState
announced (approval_decision _ _ ApprovalOutcome.approved) = some approved
announced (approval_decision _ _ ApprovalOutcome.rejected) = some rejected
announced (approval_expired _) = some expired
announced (approval_superseded _ _) = some superseded
announced _ = none

abbrev pub announces : ApprovalState → AuditEvent → Bool
announces state event = elim (announced event.kind) [ none ↦ false | some s ↦ state_eq s state ]

abbrev pub asks : AuditEventKind → Bool
asks (approval_requested _ _ _) = true
asks _ = false

abbrev pub is_request : AuditEvent → Bool
is_request event = asks event.kind

-- The ledger is numbered without a gap, it holds one request for each record, and for each state
-- but `Pending` as many announcements as there are records in that state.
pub record Balanced (store : ApprovalStore) : Type 0 where
  pub numbered : IsNumbered store.ledger
  pub requested : count is_request store.ledger.events ≡ length store.records
  pub decided :
      (state : ApprovalState)
      → is_pending state ≡ false
      → count (announces state) store.ledger.events ≡ count (in_state state) store.records

log-IsNumbered :
    (kind : AuditEventKind) (ledger : AuditLedger)
    → IsNumbered ledger
    → IsNumbered (log kind ledger)
log-IsNumbered kind ledger h =
    let event = next_event "approval-event-" "approval" kind ledger in
    ground (arith, append-IsNumbered event ledger h, append-next event ledger refl)

not_in : (s t : ApprovalState) → is_pending s ≡ true → is_pending t ≡ false → state_eq s t ≡ false
not_in s pending p q = cc
not_in pending approved p q = refl
not_in pending rejected p q = refl
not_in pending expired p q = refl
not_in pending superseded p q = refl
not_in approved _ p q = cc
not_in rejected _ p q = cc
not_in expired _ p q = cc
not_in superseded _ p q = cc

module _ (id : String) (state t : ApprovalState) (closed : is_pending t ≡ false) where
  count-settle :
      (xs : List ApprovalRecord) (r : ApprovalRecord)
      → find (has_id id) xs ≡ some r
      → is_pending r.state ≡ true
      → count (in_state t) (update_first (has_id id) (set_state state) xs)
        ≡ count (in_state t) xs + (if state_eq state t then 1 else 0)
  unfolding count
  count-settle [] r h p = cc
  count-settle (x ∷ xs) r h p = elim (Bool-cases (has_id id x)) [
    | inl e ↦
        let here : x ≡ r = ground arith in
        let open_now : is_pending x.state ≡ true = rw here p in
        let out : state_eq x.state t ≡ false = not_in x.state t open_now closed in ground arith
    | inr e ↦ let ih = count-settle xs r (ground arith) p in ground arith
  ]

announced-of :
    (id : String) (state : ApprovalState) (kind : AuditEventKind)
    → Announces id state kind
    → announced kind ≡ some state
announced-of id _ _ (by_approval actor) = refl
announced-of id _ _ (by_rejection actor) = refl
announced-of id _ _ by_expiry = refl
announced-of id _ _ (by_replacement other) = refl

announced-asks :
    (id : String) (state : ApprovalState) (kind : AuditEventKind)
    → Announces id state kind
    → asks kind ≡ false
announced-asks id _ _ (by_approval actor) = refl
announced-asks id _ _ (by_rejection actor) = refl
announced-asks id _ _ by_expiry = refl
announced-asks id _ _ (by_replacement other) = refl

length-update_first {ℓ} :
    {A : Type ℓ} (p : A → Bool) (f : A → A) (xs : List A) → length (update_first p f xs) ≡ length xs
length-update_first p f [] = refl
length-update_first p f (x ∷ xs) = ground (arith, length-update_first p f xs)

-- a request is for a pending record, as `ApprovalRecord::new` makes it
abbrev pub Opens : Call → Type 0
Opens (request_call r) = is_pending r.state ≡ true
Opens _ = Unit {0}

module _ (call : Call) (opens : Opens call) (store : ApprovalStore) where
  Step-Balanced : (next : ApprovalStore) → Step call store next → Balanced store → Balanced next
  Step-Balanced _ unchanged b = b
  Step-Balanced _ (noted adapter reason) b = record {
    numbered = log-IsNumbered _ store.ledger b.numbered;
    requested = rw (count-push is_request store.ledger.events) (omega (arith, b.requested));
    decided = λ t closed.
        rw (count-push (announces t) store.ledger.events) (omega (arith, b.decided t closed));
  }
  Step-Balanced _ (added r asked) b = record {
    numbered = log-IsNumbered _ store.ledger b.numbered;
    requested =
        rw (count-push is_request store.ledger.events)
          (omega (arith, b.requested, length-append store.records (r ∷ [])));
    decided = λ t closed.
        let open_now : is_pending r.state ≡ true = subst Opens asked opens in
        rw
          (
            count-push (announces t) store.ledger.events,
            count-push (in_state t) store.records,
            not_in r.state t open_now closed,
          )
          (omega (arith, b.decided t closed));
  }
  Step-Balanced _ (settled id state kind r (found, open_now) told) b = record {
    numbered = log-IsNumbered _ store.ledger b.numbered;
    requested =
        rw
          (
            count-push is_request store.ledger.events,
            announced-asks id state kind told,
            length-update_first (has_id id) (set_state state) store.records,
          )
          (omega (arith, b.requested));
    decided = λ t closed.
        rw
          (
            count-push (announces t) store.ledger.events,
            announced-of id state kind told,
            count-settle id state t closed store.records r found open_now,
          )
          (omega (arith, b.decided t closed));
  }

-- Calls whose requests are for pending records keep a store balanced: its ledger stays numbered
-- without a gap, holds one request for each record, and for each state but `Pending` as many
-- announcements as there are records in that state.
pub after_all-Balanced :
    (calls : List Call) (store : ApprovalStore)
    → All Opens calls
    → Balanced store
    → Balanced (after_all calls store)
unfolding after_all
after_all-Balanced [] store opens b = b
after_all-Balanced (call ∷ calls) store opens b =
    after_all-Balanced calls (after call store) opens.1
      (Step-Balanced call opens.0 store (after call store) (after-Step store call) b)

pub empty-Balanced : Balanced empty_store
unfolding count
empty-Balanced = record { numbered = tt; requested = refl; decided = λ state closed. refl }
