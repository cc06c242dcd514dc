-- ===== src/HelperProcess/Outcomes.antt =====
-- When the helper's `execute` and `dry_run_smoke` succeed.
use runlane.Prelude.{
  ◌≡◌, ◌⊎◌, ◌↔◌, refl, ap, ◌∙◌, inl, inr, String, true, false, List, any, ◌==◌, ok, err, Always,
  Always-bind, Always-ok, arith, Bool-cases, Result-cases,
}
use runlane.Domain.{
  ActionKind, service_restart, service_reload, remove_allowlisted_file, SignedCapabilityLease,
}
use runlane.Helper.{
  HelperActionRequest, HelperValidationContext, HelperRejection, AcceptedHelperInvocation,
  accepted_invocation, validate_helper_request,
}
use runlane.Helper.Acceptance.{Permitted, validate_helper_request_iff}
use runlane.Yaml.{Yaml}
use runlane.HelperProcess.{
  mapping, string, unsigned, parse_action, parse_lease, parse_request, parse_allowlist,
  parse_signature_status, parse_seen_nonces,
}
use runlane.HelperProcess.Options.{ExecuteOptions, parse_execute}
use runlane.HelperProcess.Preflight.{FileSystem, read_yaml}
use runlane.HelperProcess.Execute.{
  LoadedHelperInput, context_of, conclude, load, execute_with, execute, dry_run_smoke,
}
use runlane.HelperProcess.CommandLines.{parse_execute-dry}

-- the actions that a helper document can name
IsNamed : ActionKind → Type 0
IsNamed action =
    (action ≡ service_restart) ⊎ (action ≡ service_reload) ⊎ (action ≡ remove_allowlisted_file)

parse_action-IsNamed :
    (name : String) (action : ActionKind) → parse_action name ≡ ok action → IsNamed action
unfolding IsNamed parse_action
parse_action-IsNamed name action h = ground arith

abbrev OfLease : SignedCapabilityLease → Type 0
OfLease lease = IsNamed lease.claims.action

abbrev OfLoaded : LoadedHelperInput → Type 0
OfLoaded loaded = OfLease loaded.lease

conclude-IsNamed :
    (accepted : AcceptedHelperInvocation) (action : ActionKind)
    → IsNamed action
    → (text : String) × (conclude accepted action ≡ ok text)
unfolding IsNamed conclude
conclude-IsNamed accepted action (inl e) = rw e (_, refl)
conclude-IsNamed accepted action (inr (inl e)) = rw e (_, refl)
conclude-IsNamed accepted action (inr (inr e)) = rw e (_, refl)

module _ {Value : Type 0} (yaml : Yaml Value) where
  parse_lease-IsNamed : (value : Value) → Always OfLease (parse_lease yaml value)
  unfolding parse_lease
  parse_lease-IsNamed value = Always-bind OfLease (mapping yaml value "claims") _ (λ claims _.
      Always-bind OfLease (string yaml claims "lease_id") _ (λ lease_id _.
        Always-bind OfLease (string yaml claims "run_id") _ (λ run_id _.
          Always-bind OfLease (string yaml claims "approval_id") _ (λ approval_id _.
            Always-bind OfLease (string yaml claims "node_id") _ (λ node_id _.
              Always-bind OfLease (string yaml claims "action") _ (λ name _.
                Always-bind OfLease (parse_action name) _ (λ action named.
                  Always-bind OfLease (string yaml claims "target_resource_id") _ (λ resource _.
                    Always-bind OfLease (string yaml claims "target_subject") _ (λ subject _.
                      Always-bind OfLease (string yaml claims "allowlist_entry_id") _ (λ entry _.
                        Always-bind OfLease (unsigned yaml claims "expires_at_unix_seconds") _
                          (λ expiry _.
                            Always-bind OfLease (string yaml claims "nonce") _ (λ nonce _.
                              Always-bind OfLease (string yaml value "key_id") _ (λ key _.
                                Always-bind OfLease (string yaml value "signature") _
                                  (λ signature _.
                                    parse_action-IsNamed name action named))))))))))))))

validate-answer :
    (request : HelperActionRequest) (lease : SignedCapabilityLease)
    (context : HelperValidationContext) (accepted : AcceptedHelperInvocation)
    → validate_helper_request request lease context ≡ ok accepted
    → accepted ≡ accepted_invocation lease.claims
unfolding validate_helper_request
validate-answer request lease context accepted h = ground arith

-- the two answers of the checks
validate_cases :
    (request : HelperActionRequest) (lease : SignedCapabilityLease)
    (context : HelperValidationContext)
    → (Permitted request lease context
        × (validate_helper_request request lease context ≡ ok (accepted_invocation lease.claims)))
      ⊎ ((e : HelperRejection) × (validate_helper_request request lease context ≡ err e))
validate_cases request lease context =
    elim (Result-cases (validate_helper_request request lease context)) [
      | inr (e, refused) ↦ inr (e, refused)
      | inl (accepted, fine) ↦
          let same = validate-answer request lease context accepted fine in
          let whole = fine ∙ ap ok same in
          inl ((validate_helper_request_iff request lease context).0 whole, whole)
    ]

module _ {Value : Type 0} (yaml : Yaml Value) (files : FileSystem) (options : ExecuteOptions) where
  load-IsNamed : Always OfLoaded (load yaml files options)
  unfolding load
  load-IsNamed = Always-bind OfLoaded (read_yaml yaml files options.lease_file) _ (λ lease_yaml _.
      Always-bind OfLoaded (read_yaml yaml files options.request_file) _ (λ request_yaml _.
        Always-bind OfLoaded (read_yaml yaml files options.allowlist_file) _ (λ allowlist_yaml _.
          Always-bind OfLoaded (parse_lease yaml lease_yaml) _ (λ lease is_lease.
            Always-bind OfLoaded (parse_request yaml request_yaml) _ (λ request _.
              Always-bind OfLoaded (parse_allowlist yaml allowlist_yaml) _ (λ allowlist _.
                Always-bind OfLoaded (parse_signature_status yaml lease_yaml) _ (λ status _.
                  Always-bind OfLoaded (parse_seen_nonces yaml lease_yaml) _ (λ nonces _.
                    Always-ok OfLease (parse_lease yaml lease_yaml) lease
                      (parse_lease-IsNamed yaml lease_yaml) is_lease))))))))

  -- a dry run whose documents are read, and whose request the helper's checks permit
  pub record Executes : Type 0 where
    pub dry : options.dry_run ≡ true
    pub loaded : LoadedHelperInput
    pub is_loaded : load yaml files options ≡ ok loaded
    pub permitted : Permitted loaded.request loaded.lease (context_of options loaded)

  -- An execution succeeds exactly when it is a dry run, its three documents are read, and the
  -- request is permitted by the lease and the allowlist: no other request gets past the checks, and
  -- none that passes them fails because its action is not implemented.
  pub execute_with_iff : ((text : String) × (execute_with yaml files options ≡ ok text)) ↔ Executes
  unfolding execute_with
  execute_with_iff = (
    λ (text, h). elim (Bool-cases options.dry_run) [
      | inr wet ↦ absurd (ground arith)
      | inl dry ↦ elim (Result-cases (load yaml files options)) [
        | inr (e, failed) ↦ absurd (ground arith)
        | inl (loaded, is_loaded) ↦
            elim (validate_cases loaded.request loaded.lease (context_of options loaded)) [
              | inr (e, refused) ↦ absurd (ground arith)
              | inl (permitted, accepted) ↦ record {
                dry = dry;
                loaded = loaded;
                is_loaded = is_loaded;
                permitted = permitted;
              }
            ]
      ]
    ],
    λ done.
        let dry = done.dry in
        let is_loaded = done.is_loaded in
        let lease = done.loaded.lease in
        let fine =
          (validate_helper_request_iff done.loaded.request lease (context_of options done.loaded)).1
            done.permitted in
        let named =
          Always-ok OfLoaded (load yaml files options) done.loaded load-IsNamed is_loaded in
        let (text, spoken) =
          conclude-IsNamed (accepted_invocation lease.claims) lease.claims.action named in
        (text, ground arith),
  )

module _ {Value : Type 0} (yaml : Yaml Value) (files : FileSystem) (args : List String)
    (options : ExecuteOptions) where
  -- `dry_run_smoke` on the options of `execute`, none of them the text `--dry-run`, is an execution
  -- with the same options as a dry run.
  pub dry_run_smoke-execute :
      parse_execute args ≡ ok options
      → any (λ arg. arg == "--dry-run") args ≡ false
      → dry_run_smoke yaml files args ≡ execute_with yaml files (record options { dry_run = true })
  unfolding dry_run_smoke execute
  dry_run_smoke-execute parsed absent =
      let more = parse_execute-dry args options parsed in ground arith
