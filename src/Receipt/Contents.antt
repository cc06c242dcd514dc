-- ===== src/Receipt/Contents.antt =====
-- Which resources a receipt names as changed.
use runlane.Prelude.{
  String, Bool, false, ◌||◌, ◌≡◌, refl, inl, inr, ◌∙◌, List, [], ◌∷◌, ◌++◌, keep, any, ◌==◌, eq_iff,
  ok, arith, Bool-cases,
}
use runlane.Domain.{ApprovalOutcome}
use runlane.Audit.{
  AuditEventKind, AuditEvent, AuditLedger, approval_decision, resource_lease_granted, action_result,
}
use runlane.Receipt.{
  OperatorReceipt, ReceiptParts, no_parts, apply, apply_all, is_of, collect_receipt_parts,
  insert_by, sort_by, dedup_after, dedup_by, finalize, generate_operator_receipt,
}

any-append {ℓ} :
    {A : Type ℓ} (p : A → Bool) (xs ys : List A) → any p (xs ++ ys) ≡ (any p xs || any p ys)
any-append p [] ys = refl
any-append p (x ∷ xs) ys = let ih = any-append p xs ys in ground arith

-- a mark of the parts that events set and none clears
module _ (has : ReceiptParts → Bool) (test : AuditEventKind → Bool) where
  pub marks-apply_all :
      ((p : ReceiptParts) (kind : AuditEventKind) → has (apply p kind) ≡ (has p || test kind))
      → (events : List AuditEvent) (p : ReceiptParts)
      → has (apply_all p events) ≡ (has p || any (λ event. test event.kind) events)
  unfolding apply_all
  marks-apply_all h [] p = ground arith
  marks-apply_all h (event ∷ rest) p =
      let ih = marks-apply_all h rest (apply p event.kind) in
      let step = h p event.kind in ground arith

module _ (x : String) where
  abbrev pub is_x : String → Bool
  is_x s = s == x

  any-insert :
      (a : String) (xs : List String) → any is_x (insert_by (λ s. s) a xs) ≡ (is_x a || any is_x xs)
  any-insert a [] = refl
  any-insert a (b ∷ xs) = let ih = any-insert a xs in ground arith

  any-sort : (xs : List String) → any is_x (sort_by (λ s. s) xs) ≡ any is_x xs
  any-sort [] = refl
  any-sort (a ∷ xs) = any-insert a (sort_by (λ s. s) xs) ∙ rw (any-sort xs) refl

  any-dedup_after :
      (a : String) (xs : List String)
      → (is_x a || any is_x (dedup_after (λ s. s) a xs)) ≡ (is_x a || any is_x xs)
  any-dedup_after a [] = refl
  any-dedup_after a (b ∷ xs) = elim (Bool-cases (b == a)) [
    | inl e ↦ let ih = any-dedup_after a xs in let same : b ≡ a = (eq_iff b a).0 e in ground arith
    | inr e ↦ let ih = any-dedup_after b xs in ground arith
  ]

  any-dedup : (xs : List String) → any is_x (dedup_by (λ s. s) xs) ≡ any is_x xs
  any-dedup [] = refl
  any-dedup (a ∷ xs) = any-dedup_after a xs

  -- the resource that an event says was leased to a task or acted on
  pub touches : AuditEventKind → Bool
  touches (resource_lease_granted _ resource _) = is_x resource
  touches (action_result _ target _) = is_x target.resource_id
  touches _ = false

  any-apply :
      (p : ReceiptParts) (kind : AuditEventKind)
      → any is_x (apply p kind).changed_resources ≡ (any is_x p.changed_resources || touches kind)
  unfolding apply touches
  any-apply p (resource_lease_granted id resource mode) =
      ground (arith, any-append is_x p.changed_resources (resource ∷ []))
  any-apply p (action_result action target status) =
      ground (arith, any-append is_x p.changed_resources (target.resource_id ∷ []))
  any-apply p (approval_decision id actor ApprovalOutcome.approved) = ground arith
  any-apply p (approval_decision id actor ApprovalOutcome.rejected) = ground arith
  any-apply p _ = ground arith

-- a receipt, if it is made, has the resources and the lists of the parts
finalize-parts :
    (p : ReceiptParts) (run_id : String) (r : OperatorReceipt)
    → finalize p run_id ≡ ok r
    → (r.changed_resources ≡ dedup_by (λ s. s) (sort_by (λ s. s) p.changed_resources))
      × (r.evidence_references ≡ p.evidence_references)
      × (r.verification_completed ≡ p.verification_completed)
unfolding finalize
finalize-parts p run_id r h = ground arith

-- A receipt names a resource as changed exactly when the run has an event that leased the resource
-- to a task, or reports an action on it.
pub generate-changed :
    (run_id : String) (ledger : AuditLedger) (r : OperatorReceipt) (x : String)
    → generate_operator_receipt run_id ledger ≡ ok r
    → any (is_x x) r.changed_resources
      ≡ any (λ event. touches x event.kind) (keep (is_of run_id) ledger.events)
unfolding generate_operator_receipt collect_receipt_parts
generate-changed run_id ledger r x h =
    let events = keep (is_of run_id) ledger.events in
    let (changed, sources, completed) = finalize-parts (apply_all no_parts events) run_id r h in
    rw changed (
      any-dedup x (sort_by (λ s. s) (apply_all no_parts events).changed_resources)
      ∙ any-sort x (apply_all no_parts events).changed_resources
      ∙ marks-apply_all (λ p. any (is_x x) p.changed_resources) (touches x) (any-apply x) events
          no_parts)
