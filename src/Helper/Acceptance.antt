-- ===== src/Helper/Acceptance.antt =====
-- Which requests the helper accepts.
use mathlib.Core.List.{Mem}
use runlane.Prelude.{
  String, true, false, ◌≡◌, ◌↔◌, ◌<◌, subst, inl, inr, ok, any, ◌==◌, eq_iff, arith, Bool-cases,
}
use runlane.Prelude.Search.{any-true, any-of_mem, contains-mem, mem-contains}
use runlane.Domain.{ActionKind, action_eq_iff, ActionTarget, target_eq_iff, SignedCapabilityLease}
use runlane.Helper.{
  valid, HelperAllowlist, permits, HelperActionRequest, HelperValidationContext,
  accepted_invocation, validate_helper_request,
}

-- An allowlist permits an action on a target under an entry id exactly when it has an entry with
-- that id, for that action and for the resource of the target.
pub permits_iff :
    (allowlist : HelperAllowlist) (entry_id : String) (action : ActionKind) (target : ActionTarget)
    → (permits allowlist entry_id action target ≡ true)
      ↔ Mem
          (record { id = entry_id; action = action; target_resource_id = target.resource_id })
          allowlist.entries
unfolding permits
permits_iff allowlist entry_id action target = (
  λ h.
      let (entry, m, t) = any-true _ allowlist.entries h in
      subst (λ e. Mem e allowlist.entries)
        (ground (
          arith,
          eq_iff entry.id entry_id,
          action_eq_iff entry.action action,
          eq_iff entry.target_resource_id target.resource_id,
        ))
        m,
  λ m.
      any-of_mem _ allowlist.entries _ m
        (ground (arith, eq_iff entry_id entry_id, eq_iff target.resource_id target.resource_id)),
)

module _ (request : HelperActionRequest) (lease : SignedCapabilityLease)
    (context : HelperValidationContext) where
  -- a genuine lease for this node that is neither expired nor used, for the very action and target
  -- of the request, under an entry of the local allowlist
  pub record Permitted : Type 0 where
    pub genuine : context.signature_status ≡ valid
    pub current : context.now_unix_seconds < lease.claims.expires_at_unix_seconds
    pub unused : ¬ Mem lease.claims.nonce context.seen_nonces
    pub this_node : lease.claims.node_id ≡ context.node_id
    pub same_lease : lease.claims.lease_id ≡ request.lease_id
    pub same_action : lease.claims.action ≡ request.action
    pub same_target : lease.claims.target ≡ request.target
    pub listed :
        Mem
          (record {
            id = lease.claims.allowlist_entry_id;
            action = request.action;
            target_resource_id = request.target.resource_id;
          })
          context.allowlist.entries

  -- The helper accepts a request, with the ids, the action and the target of the lease in its
  -- answer, exactly when the lease is genuine, current, unused, for this node, for the lease id, the
  -- action and the target of the request, and its entry of the local allowlist permits them.
  pub validate_helper_request_iff :
      (validate_helper_request request lease context ≡ ok (accepted_invocation lease.claims))
      ↔ Permitted
  unfolding validate_helper_request
  validate_helper_request_iff = (
    λ h.
        let unused : any (λ nonce. nonce == lease.claims.nonce) context.seen_nonces ≡ false =
          ground arith in
        let listed : permits context.allowlist lease.claims.allowlist_entry_id request.action
              request.target
            ≡ true =
          ground arith in
        record {
          genuine = ground arith;
          current = ground arith;
          unused =
              λ m. let seen = mem-contains context.seen_nonces lease.claims.nonce m in ground arith;
          this_node = (eq_iff lease.claims.node_id context.node_id).0 (ground arith);
          same_lease = (eq_iff lease.claims.lease_id request.lease_id).0 (ground arith);
          same_action = (action_eq_iff lease.claims.action request.action).0 (ground arith);
          same_target = (target_eq_iff lease.claims.target request.target).0 (ground arith);
          listed = (permits_iff context.allowlist _ request.action request.target).0 listed;
        },
    λ fine.
        let genuine = fine.genuine in
        let current = fine.current in
        let this_node = (eq_iff lease.claims.node_id context.node_id).1 fine.this_node in
        let same_lease = (eq_iff lease.claims.lease_id request.lease_id).1 fine.same_lease in
        let same_action = (action_eq_iff lease.claims.action request.action).1 fine.same_action in
        let same_target = (target_eq_iff lease.claims.target request.target).1 fine.same_target in
        let listed =
          (permits_iff context.allowlist lease.claims.allowlist_entry_id request.action
              request.target).1
            fine.listed in
        elim (Bool-cases (any (λ nonce. nonce == lease.claims.nonce) context.seen_nonces)) [
          | inl seen ↦
              absurd (fine.unused (contains-mem context.seen_nonces lease.claims.nonce seen))
          | inr unseen ↦ ground arith
        ],
  )
