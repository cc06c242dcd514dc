-- ===== src/Audit/Numbering.antt =====
-- The numbering of a ledger's events, and replay.
use mathlib.Core.List.{append-nil, append_assoc}
use runlane.Prelude.{
  ℕ, suc, ◌+◌, ◌≡◌, ◌≢◌, ◌↔◌, List, [], ◌∷◌, ◌++◌, ok, err, length, length-append, arith, refl, ◌∙◌,
  inl, inr, nat_eq, Bool-cases,
}
use runlane.Audit.{
  AuditEvent, AuditLedger, empty_ledger, non_monotonic_sequence, next_sequence, append, append_all,
}

abbrev NumberedFrom : ℕ → List AuditEvent → Type 0
NumberedFrom n [] = Unit {0}
NumberedFrom n (event ∷ rest) = (event.sequence ≡ n) × NumberedFrom (suc n) rest

abbrev pub IsNumbered : AuditLedger → Type 0
IsNumbered ledger = NumberedFrom 1 ledger.events

NumberedFrom-append :
    (n : ℕ) (events : List AuditEvent) (event : AuditEvent)
    → NumberedFrom n events
    → event.sequence ≡ length events + n
    → NumberedFrom n (events ++ event ∷ [])
NumberedFrom-append n [] event h e = (omega arith, tt)
NumberedFrom-append n (x ∷ events) event h e =
    (h.0, NumberedFrom-append (suc n) events event h.1 (omega arith))

module _ (event : AuditEvent) (ledger : AuditLedger) where
  pub append-next :
      event.sequence ≡ next_sequence ledger
      → append event ledger ≡ (ok tt, record { events = ledger.events ++ event ∷ [] })
  unfolding append
  append-next h = ground arith

  pub append-other :
      event.sequence ≢ next_sequence ledger
      → append event ledger
        ≡ (err (non_monotonic_sequence (next_sequence ledger) event.sequence), ledger)
  unfolding append
  append-other h = ground arith

  -- Whatever is appended, and whether or not it is refused, the numbering stays without a gap.
  pub append-IsNumbered : IsNumbered ledger → IsNumbered (append event ledger).1
  unfolding append next_sequence
  append-IsNumbered h = ground (arith, NumberedFrom-append 1 ledger.events event)

  -- An event is accepted exactly when it carries the next number.
  append_iff : ((append event ledger).0 ≡ ok tt) ↔ (event.sequence ≡ next_sequence ledger)
  unfolding append
  append_iff = (λ h. ground arith, λ h. ground arith)

abbrev pub push : AuditLedger → AuditEvent → AuditLedger
push ledger event = record { events = ledger.events ++ event ∷ [] }

pub next_sequence-push :
    (ledger : AuditLedger) (event : AuditEvent)
    → next_sequence (push ledger event) ≡ suc (next_sequence ledger)
unfolding next_sequence
next_sequence-push ledger event = omega (arith, length-append {0} ledger.events (event ∷ []))

append_all-extends :
    (events : List AuditEvent) (ledger : AuditLedger)
    → NumberedFrom (next_sequence ledger) events
    → append_all events ledger ≡ (ok tt, record { events = ledger.events ++ events })
unfolding append_all
append_all-extends [] ledger h = ground (arith, append-nil ledger.events)
append_all-extends (event ∷ rest) ledger h = rw (append-next event ledger h.0) (
    append_all-extends rest (push ledger event) (rw (next_sequence-push ledger event) h.1)
    ∙ rw (append_assoc ledger.events (event ∷ []) rest) refl)

append_all-NumberedFrom :
    (events : List AuditEvent) (ledger : AuditLedger)
    → (append_all events ledger).0 ≡ ok tt
    → NumberedFrom (next_sequence ledger) events
unfolding append_all
append_all-NumberedFrom [] ledger h = tt
append_all-NumberedFrom (event ∷ rest) ledger h =
    elim (Bool-cases (nat_eq event.sequence (next_sequence ledger))) [
      | inl e ↦
          let next : event.sequence ≡ next_sequence ledger = ground arith in
          let later : (append_all rest (push ledger event)).0 ≡ ok tt =
            ground (arith, append-next event ledger next) in
          (
            next,
            rw (← next_sequence-push ledger event)
                (append_all-NumberedFrom rest (push ledger event) later),
          )
      | inr e ↦
          let other : event.sequence ≢ next_sequence ledger = λ q. ground arith in
          absurd (ground (arith, append-other event ledger other))
    ]

-- Replaying events onto an empty ledger succeeds exactly when they are numbered from 1 without a
-- gap, and then gives the ledger of those events.
pub append_all-empty :
    (events : List AuditEvent)
    → ((append_all events empty_ledger).0 ≡ ok tt → IsNumbered (record { events = events }))
      × (IsNumbered (record { events = events })
          → append_all events empty_ledger ≡ (ok tt, record { events = events }))
unfolding next_sequence
append_all-empty events = (
  λ h. append_all-NumberedFrom events empty_ledger h,
  λ h. append_all-extends events empty_ledger h,
)
