-- ===== src/Analyzer/Policy.antt =====
-- What `validate_proposal` accepts and what it refuses.
use runlane.Prelude.{
  ◌≡◌, ◌≢◌, ◌⊎◌, ◌↔◌, refl, inl, inr, true, List, [], ◌∷◌, ok, err, arith, All, Result,
}
use runlane.Analyzer.{
  ProposedAction, StructuredProposal, ProposalPolicy, ProposalValidationError, contains_kind,
  validate_proposal, validate_actions, validate_action,
}

-- An allowed action that asks for approval exactly when the policy does.
abbrev pub Conforms : ProposalPolicy → ProposedAction → Type 0
Conforms policy action =
    (contains_kind policy.allowed_actions action.kind ≡ true)
    × (contains_kind policy.approval_required action.kind ≡ action.requires_approval)

validate_action_iff :
    (policy : ProposalPolicy) (action : ProposedAction)
    → (validate_action policy action ≡ ok tt) ↔ Conforms policy action
unfolding validate_action
validate_action_iff policy action = (λ h. ground arith, λ h. ground arith)

Unit_result_cases :
    (r : Result ProposalValidationError (Unit {0}))
    → (r ≡ ok tt) ⊎ ((e : ProposalValidationError) × (r ≡ err e))
Unit_result_cases (ok tt) = inl refl
Unit_result_cases (err e) = inr (e, refl)

validate_actions_iff :
    (policy : ProposalPolicy) (actions : List ProposedAction)
    → (validate_actions policy actions ≡ ok tt) ↔ All (Conforms policy) actions
unfolding validate_actions
validate_actions_iff policy [] = (λ h. tt, λ h. refl)
validate_actions_iff policy (action ∷ rest) =
    let (to, from) = validate_action_iff policy action in
    let (tos, froms) = validate_actions_iff policy rest in
    (
      λ h. elim (Unit_result_cases (validate_action policy action)) [
        | inl passed ↦ (to passed, tos (ground arith))
        | inr (e, refused) ↦ absurd (ground arith)
      ],
      λ h. rw (from h.0) (froms h.1),
    )

-- A proposal passes exactly when it has an action, and each of its actions is allowed and asks for
-- approval exactly when the policy requires it.
pub validate_proposal_iff :
    (proposal : StructuredProposal) (policy : ProposalPolicy)
    → (validate_proposal proposal policy ≡ ok tt)
      ↔ ((proposal.proposed_actions ≢ []) × All (Conforms policy) proposal.proposed_actions)
unfolding validate_proposal
validate_proposal_iff proposal policy =
    let (tos, froms) = validate_actions_iff policy proposal.proposed_actions in
    (λ h. (λ e. ground arith, tos (ground arith)), λ h. ground (arith, froms h.1, h.0))
