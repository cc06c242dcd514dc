-- ===== src/Receipt/Complete.antt =====
-- When a ledger is complete enough for a receipt.
use runlane.Prelude.{
  String, Bool, true, false, ◌&&◌, ◌||◌, ◌≡◌, ◌↔◌, refl, ◌∙◌, Option, none, some, List, [], ◌∷◌,
  ◌++◌, keep, any, Result, ok, err, arith,
}
use runlane.Domain.{ApprovalOutcome}
use runlane.Audit.{
  AuditEventKind, AuditEvent, AuditLedger, incident_created, evidence_collected, proposal_generated,
  approval_decision, capability_lease_issued, action_result, verification_selected,
  verification_completed,
}
use runlane.Receipt.{
  ReceiptParts, no_parts, apply, apply_all, is_of, collect_receipt_parts, finalize,
  generate_operator_receipt,
}
use runlane.Receipt.Contents.{marks-apply_all}

abbrev is_some {ℓ} : {A : Type ℓ} → Option A → Bool
is_some none = false
is_some (some _) = true

abbrev is_filled {ℓ} : {A : Type ℓ} → List A → Bool
is_filled [] = false
is_filled (_ ∷ _) = true

-- the steps of a run that a receipt rests on
pub data Stage : Type 0 where
  incident evidence proposal lease action selection completion : Stage

-- an event shows the stage
unfoldable pub shows : Stage → AuditEventKind → Bool
shows incident (incident_created _ _ _) = true
shows evidence (evidence_collected _) = true
shows proposal (proposal_generated _ _) = true
shows lease (capability_lease_issued _ _) = true
shows action (action_result _ _ _) = true
shows selection (verification_selected plan) = is_filled plan.required
shows completion (verification_completed _ _) = true
shows _ _ = false

-- the parts hold what the stage gives
pub holds : Stage → ReceiptParts → Bool
holds incident p = is_some p.incident_id && is_some p.node_id
holds evidence p = is_filled p.evidence_references
holds proposal p = is_some p.proposal_id && is_some p.hypothesis
holds lease p = is_some p.lease_id
holds action p = is_some p.helper_action && is_some p.helper_status
holds selection p = is_filled p.verification_checks
holds completion p = is_filled p.verification_completed

is_filled-append {ℓ} :
    {A : Type ℓ} (xs ys : List A) → is_filled (xs ++ ys) ≡ (is_filled xs || is_filled ys)
is_filled-append [] ys = refl
is_filled-append (x ∷ xs) ys = refl

holds-apply :
    (stage : Stage) (p : ReceiptParts) (kind : AuditEventKind)
    → holds stage (apply p kind) ≡ (holds stage p || shows stage kind)
unfolding holds shows apply
holds-apply incident p (incident_created a b c) = ground arith
holds-apply incident p (approval_decision i a ApprovalOutcome.approved) = ground arith
holds-apply incident p (approval_decision i a ApprovalOutcome.rejected) = ground arith
holds-apply incident p _ = ground arith
holds-apply evidence p (evidence_collected s) = is_filled-append p.evidence_references (s ∷ [])
holds-apply evidence p (approval_decision i a ApprovalOutcome.approved) = ground arith
holds-apply evidence p (approval_decision i a ApprovalOutcome.rejected) = ground arith
holds-apply evidence p _ = ground arith
holds-apply proposal p (proposal_generated a b) = ground arith
holds-apply proposal p (approval_decision i a ApprovalOutcome.approved) = ground arith
holds-apply proposal p (approval_decision i a ApprovalOutcome.rejected) = ground arith
holds-apply proposal p _ = ground arith
holds-apply lease p (capability_lease_issued a b) = ground arith
holds-apply lease p (approval_decision i a ApprovalOutcome.approved) = ground arith
holds-apply lease p (approval_decision i a ApprovalOutcome.rejected) = ground arith
holds-apply lease p _ = ground arith
holds-apply action p (action_result a b c) = ground arith
holds-apply action p (approval_decision i a ApprovalOutcome.approved) = ground arith
holds-apply action p (approval_decision i a ApprovalOutcome.rejected) = ground arith
holds-apply action p _ = ground arith
holds-apply selection p (verification_selected plan) =
    is_filled-append p.verification_checks plan.required
holds-apply selection p (approval_decision i a ApprovalOutcome.approved) = ground arith
holds-apply selection p (approval_decision i a ApprovalOutcome.rejected) = ground arith
holds-apply selection p _ = ground arith
holds-apply completion p (verification_completed a b) = is_filled-append p.verification_completed _
holds-apply completion p (approval_decision i a ApprovalOutcome.approved) = ground arith
holds-apply completion p (approval_decision i a ApprovalOutcome.rejected) = ground arith
holds-apply completion p _ = ground arith

abbrev pub is_ok {ℓ} : {E A : Type ℓ} → Result E A → Bool
is_ok (ok _) = true
is_ok (err _) = false

finalize-holds :
    (p : ReceiptParts) (run_id : String)
    → is_ok (finalize p run_id) ≡ true
    → (stage : Stage) → holds stage p ≡ true
unfolding finalize holds
finalize-holds p run_id h incident = ground arith
finalize-holds p run_id h evidence = ground arith
finalize-holds p run_id h proposal = ground arith
finalize-holds p run_id h lease = ground arith
finalize-holds p run_id h action = ground arith
finalize-holds p run_id h selection = ground arith
finalize-holds p run_id h completion = ground arith

-- a lease comes with an approval
abbrev HasApproval : ReceiptParts → Type 0
HasApproval p = is_some p.lease_id ≡ true → is_some p.approval_id ≡ true

holds-finalize :
    (p : ReceiptParts) (run_id : String)
    → HasApproval p
    → ((stage : Stage) → holds stage p ≡ true)
    → is_ok (finalize p run_id) ≡ true
unfolding finalize holds
holds-finalize p run_id approval h =
    ground (arith, h incident, h evidence, h proposal, h lease, h action, h selection, h completion)

HasApproval-apply :
    (p : ReceiptParts) (kind : AuditEventKind) → HasApproval p → HasApproval (apply p kind)
unfolding apply
HasApproval-apply p (approval_decision i a ApprovalOutcome.approved) h = λ l. refl
HasApproval-apply p (approval_decision i a ApprovalOutcome.rejected) h = h
HasApproval-apply p (capability_lease_issued a b) h = ground arith
HasApproval-apply p _ h = h

HasApproval-apply_all :
    (events : List AuditEvent) (p : ReceiptParts) → HasApproval p → HasApproval (apply_all p events)
unfolding apply_all
HasApproval-apply_all [] p h = h
HasApproval-apply_all (event ∷ rest) p h =
    HasApproval-apply_all rest (apply p event.kind) (HasApproval-apply p event.kind h)

holds-no_parts : (stage : Stage) → holds stage no_parts ≡ false
unfolding holds
holds-no_parts incident = refl
holds-no_parts evidence = refl
holds-no_parts proposal = refl
holds-no_parts lease = refl
holds-no_parts action = refl
holds-no_parts selection = refl
holds-no_parts completion = refl

module _ (run_id : String) (ledger : AuditLedger) where
  -- every stage is shown by an event of the run
  unfoldable pub IsComplete : Type 0
  IsComplete =
      (stage : Stage)
      → any (λ event. shows stage event.kind) (keep (is_of run_id) ledger.events) ≡ true

  holds-shows :
      (stage : Stage)
      → holds stage (collect_receipt_parts run_id ledger)
        ≡ any (λ event. shows stage event.kind) (keep (is_of run_id) ledger.events)
  unfolding collect_receipt_parts holds
  holds-shows stage =
      marks-apply_all (holds stage) (shows stage) (holds-apply stage)
        (keep (is_of run_id) ledger.events) no_parts
      ∙ rw (holds-no_parts stage) refl

  -- A receipt is made exactly when events of the run show every stage: an incident, evidence, a
  -- proposal, a lease, the result of an action, a selection of at least one check, and a check done.
  -- An event of the decision on the approval is not among them.
  pub generate_iff : (is_ok (generate_operator_receipt run_id ledger) ≡ true) ↔ IsComplete
  unfolding generate_operator_receipt IsComplete collect_receipt_parts apply_all
  generate_iff = (
    λ h stage.
        rw (← holds-shows stage)
          (finalize-holds (collect_receipt_parts run_id ledger) run_id h stage),
    λ h.
        holds-finalize (collect_receipt_parts run_id ledger) run_id
          (HasApproval-apply_all (keep (is_of run_id) ledger.events) no_parts (λ l. cc))
          (λ stage. rw (holds-shows stage) (h stage)),
  )
