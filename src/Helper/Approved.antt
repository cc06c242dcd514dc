-- ===== src/Helper/Approved.antt =====
-- From an approval to the helper: the claims that `ApprovalStore::approve` returns, taken to the
-- helper as they are.
use mathlib.Core.List.{Mem}
use runlane.Prelude.{ℕ, String, ◌≡◌, ◌<◌, refl, sym, subst, inl, inr, List, ok, find, arith, some}
use runlane.Domain.{CapabilityLeaseClaims, SignedCapabilityLease}
use runlane.Analyzer.{helper_action}
use runlane.Approval.{ApprovalRecord, ApprovalStore, has_id, approve}
use runlane.Approval.Store.{approve_cases}
use runlane.Helper.{
  valid, HelperArgument, HelperActionRequest, HelperValidationContext, accepted_invocation,
  validate_helper_request,
}
use runlane.Helper.Acceptance.{validate_helper_request_iff}

-- the request that a lease is for
abbrev pub request_of : CapabilityLeaseClaims → List HelperArgument → HelperActionRequest
request_of claims arguments = record {
  lease_id = claims.lease_id;
  action = claims.action;
  target = claims.target;
  arguments = arguments;
}

-- Claims that repeat the record that an id names: its run, action, target and expiry, which lies
-- ahead. Only the allowlist entry and the nonce come from elsewhere.
pub record Bound (id expected : String) (now : ℕ) (entry nonce : String) (store : ApprovalStore)
    (claims : CapabilityLeaseClaims) : Type 0 where
  pub approval : ApprovalRecord
  pub found : find (has_id id) store.records ≡ some approval
  pub expected_action : approval.action_id ≡ expected
  pub action : helper_action approval.action ≡ some claims.action
  pub target : claims.target ≡ approval.target
  pub run : claims.run_id ≡ approval.run_id
  pub approval_id : claims.approval_id ≡ approval.id
  pub expiry : claims.expires_at_unix_seconds ≡ approval.expires_at_unix_seconds
  pub by_entry : claims.allowlist_entry_id ≡ entry
  pub by_nonce : claims.nonce ≡ nonce
  pub current : now < claims.expires_at_unix_seconds

module _ (id expected actor : String) (now : ℕ) (entry nonce : String) (store next : ApprovalStore)
    (claims : CapabilityLeaseClaims) where
  -- The claims of an approval repeat the record that was approved: its run, action, target and
  -- expiry, which lies after the time of the approval. Only the allowlist entry and the nonce are
  -- the caller's.
  pub approve-Bound :
      approve id expected actor now entry nonce store ≡ (ok claims, next)
      → Bound id expected now entry nonce store claims
  approve-Bound h = elim (approve_cases id store expected actor now entry nonce) [
    | inl (e, failed) ↦ absurd (ground arith)
    | inr (r, action, (found, open_now), fresh, bound, helped, done) ↦ record {
      approval = r;
      found = found;
      expected_action = bound;
      action = ground arith;
      target = ground arith;
      run = ground arith;
      approval_id = ground arith;
      expiry = ground arith;
      by_entry = ground arith;
      by_nonce = ground arith;
      current = ground arith;
    }
  ]

  -- The claims of an approval, carried to the node that they name under a genuine signature with a
  -- nonce that is unused there, are accepted at the time of the approval, if the local allowlist has
  -- the entry for their action and resource.
  pub approve-accepted :
      (lease : SignedCapabilityLease) (context : HelperValidationContext)
      (arguments : List HelperArgument)
      → approve id expected actor now entry nonce store ≡ (ok claims, next)
      → lease.claims ≡ claims
      → context.signature_status ≡ valid
      → context.node_id ≡ claims.node_id
      → context.now_unix_seconds ≡ now
      → (¬ Mem nonce context.seen_nonces)
      → Mem
          (record {
            id = entry;
            action = claims.action;
            target_resource_id = claims.target.resource_id;
          })
          context.allowlist.entries
      → validate_helper_request (request_of claims arguments) lease context
        ≡ ok (accepted_invocation claims)
  approve-accepted lease context arguments h carried genuine this_node same_time unused listed =
      let bound = approve-Bound h in
      subst
        (λ c.
          validate_helper_request (request_of claims arguments) lease context
          ≡ ok (accepted_invocation c))
        carried
        ((validate_helper_request_iff (request_of claims arguments) lease context).1 (record {
          genuine = genuine;
          current = rw (carried, same_time) bound.current;
          unused = rw (carried, bound.by_nonce) unused;
          this_node = rw (carried) (sym this_node);
          same_lease = rw (carried) refl;
          same_action = rw (carried) refl;
          same_target = rw (carried) refl;
          listed = rw (carried, bound.by_entry) listed;
        }))
