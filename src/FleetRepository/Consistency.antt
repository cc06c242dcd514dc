-- ===== src/FleetRepository/Consistency.antt =====
-- What holds of a fleet repository that was loaded.
use runlane.Prelude.{
  ◌≡◌, refl, String, true, not, [], ◌∷◌, ◌++◌, any, ◌==◌, Result, ok, refuse_if, traverse, map_err,
  arith, All, Always, Always-bind, Always-ok, Always-traverse, Always-if,
}
use runlane.Domain.{layer_eq}
use runlane.Fleet.{resolve_fleet_overlays}
use runlane.FleetRepository.{
  FleetLayers, FleetInventoryNode, FleetRunbook, FleetAllowlistEntryDoc, FleetRepository,
  FleetLoadError, io, RawLayers,
}
use runlane.FleetRepository.Checks.{
  is_in, is_resource, known_capabilities, known_actions, validate_capabilities, validate_resources,
  validate_actions, parse_layer, parse_os, validate_repository,
}
use runlane.FleetRepository.Documents.{
  Reader, parse_yaml, parse_layers, parse_inventory, step_capabilities, parse_runbook,
  parse_allowlist, parse_role, parse_policy, parse_overlay, reject_runtime_truth,
}
use runlane.FleetRepository.Load.{Directory, load_document, load_documents, load}
use runlane.FleetRepository.Accepted.{
  AreKnown, AreResources, validate_capabilities_iff, validate_actions_iff, validate_resources_iff,
  AreLinked, validate_repository_iff,
}

-- the checks of single documents
pub record IsFitNode (node : FleetInventoryNode) : Type 0 where
  pub own_layer : any (λ layer. layer_eq layer node.layers.primary) node.layers.supports ≡ true
  pub capabilities : AreKnown known_capabilities node.requested_capabilities

pub record IsFitRunbook (runbook : FleetRunbook) : Type 0 where
  pub resources : AreResources (runbook.reads ++ runbook.writes ++ runbook.conflicts)
  pub capabilities : AreKnown known_capabilities runbook.required_capabilities
  pub actions : AreKnown known_actions runbook.allowed_actions

pub record IsFitAllowlist (entry : FleetAllowlistEntryDoc) : Type 0 where
  pub known_action : is_in entry.action known_actions ≡ true
  pub resource : is_resource entry.target_resource_id ≡ true

IsOwn : FleetLayers → Type 0
IsOwn layers = any (λ layer. layer_eq layer layers.primary) layers.supports ≡ true

parse_layers-IsOwn : (path : String) (raw : RawLayers) → Always IsOwn (parse_layers path raw)
unfolding parse_layers IsOwn
parse_layers-IsOwn path raw = Always-bind IsOwn (parse_layer path raw.primary) _ (λ primary _.
    Always-bind IsOwn (traverse (parse_layer path) raw.supports) _ (λ supports _.
      Always-bind IsOwn (refuse_if (not (any (λ layer. layer_eq layer primary) supports)) _) _
        (λ _ passed. ground arith)))

module _ {Value : Type 0} (reader : Reader Value) (path body : String) where
  parse_inventory-IsFitNode : Always IsFitNode (parse_inventory reader path body)
  unfolding parse_inventory IsOwn
  parse_inventory-IsFitNode =
      Always-bind IsFitNode (parse_yaml path (reader.inventory_node body)) _ (λ raw _.
        Always-bind IsFitNode (parse_layers path raw.layers) _ (λ layers own.
          Always-bind IsFitNode (validate_capabilities path raw.capabilities.requested) _
            (λ _ known. Always-bind IsFitNode (parse_os path raw.os) _ (λ os _. record {
              own_layer =
                  Always-ok IsOwn (parse_layers path raw.layers) layers
                    (parse_layers-IsOwn path raw.layers) own;
              capabilities = (validate_capabilities_iff path raw.capabilities.requested).0 known;
            }))))

  parse_runbook-IsFitRunbook : Always IsFitRunbook (parse_runbook reader path body)
  unfolding parse_runbook
  parse_runbook-IsFitRunbook =
      Always-bind IsFitRunbook (parse_yaml path (reader.runbook body)) _ (λ raw _.
        Always-bind IsFitRunbook (step_capabilities reader path raw.collect) _ (λ capabilities _.
          Always-bind IsFitRunbook (validate_capabilities path capabilities) _ (λ _ known.
            Always-bind IsFitRunbook
              (validate_resources path
                (raw.resources.reads ++ raw.resources.writes ++ raw.resources.conflicts))
              _
              (λ _ named.
                Always-bind IsFitRunbook
                  (refuse_if (not (raw.analyze.mode == "structured_proposal")) _) _
                  (λ _ _.
                    Always-bind IsFitRunbook (validate_actions path raw.analyze.allowed_actions) _
                      (λ _ allowed.
                        Always-bind IsFitRunbook (parse_layer path raw.layer) _ (λ layer _. record {
                          resources =
                              (validate_resources_iff path (
                                  raw.resources.reads ++ raw.resources.writes
                                  ++ raw.resources.conflicts)).0
                                named;
                          capabilities = (validate_capabilities_iff path capabilities).0 known;
                          actions =
                              (validate_actions_iff path raw.analyze.allowed_actions).0 allowed;
                        })))))))

  parse_allowlist-IsFitAllowlist : Always IsFitAllowlist (parse_allowlist reader path body)
  unfolding parse_allowlist
  parse_allowlist-IsFitAllowlist =
      Always-bind IsFitAllowlist (parse_yaml path (reader.allowlist body)) _ (λ raw _.
        Always-bind IsFitAllowlist (validate_actions path (raw.action ∷ [])) _ (λ _ allowed.
          Always-bind IsFitAllowlist (validate_resources path (raw.target_resource_id ∷ [])) _
            (λ _ named. record {
              known_action = ((validate_actions_iff path (raw.action ∷ [])).0 allowed).0;
              resource = ((validate_resources_iff path (raw.target_resource_id ∷ [])).0 named).0;
            })))

module _ {Value : Type 0} (reader : Reader Value) (files : Directory) {A : Type 0} (P : A → Type 0)
    (parser : String → String → Result FleetLoadError A)
    (parsed : (path body : String) → Always P (parser path body)) where
  load_document-Always : (path : String) → Always P (load_document reader files parser path)
  unfolding load_document
  load_document-Always path =
      Always-bind P (map_err (io path) (files.read_to_string path)) _ (λ body _.
        Always-bind P (reject_runtime_truth reader path body) _ (λ _ _. parsed path body))

  load_documents-Always :
      (directory : String) → Always (All P) (load_documents reader files directory parser)
  unfolding load_documents
  load_documents-Always directory =
      Always-if (All P) (files.exists directory) _ (ok [])
        (Always-bind (All P) (files.sorted_yaml_paths directory) _ (λ paths _.
          Always-traverse P (load_document reader files parser) load_document-Always paths))
        tt

-- what holds of a repository
pub record Consistent (repository : FleetRepository) : Type 0 where
  pub linked :
      AreLinked repository.inventory repository.roles repository.runbooks repository.policies
        repository.allowlists
  pub nodes : All IsFitNode repository.inventory
  pub runbooks : All IsFitRunbook repository.runbooks
  pub allowlists : All IsFitAllowlist repository.allowlists
  pub resolved : repository.resolved_overlay ≡ resolve_fleet_overlays repository.overlays

module _ {Value : Type 0} (reader : Reader Value) (files : Directory) (root : String) where
  load-Always : Always Consistent (load reader files root)
  unfolding load
  load-Always =
      let inventory_of =
        load_documents reader files (files.join root "inventory") (parse_inventory reader) in
      let runbooks_of =
        load_documents reader files (files.join root "runbooks") (parse_runbook reader) in
      let allowlists_of =
        load_documents reader files (files.join root "allowlists") (parse_allowlist reader) in
      Always-bind Consistent inventory_of _ (λ inventory e.
        Always-bind Consistent
          (load_documents reader files (files.join root "roles") (parse_role reader)) _
          (λ roles _. Always-bind Consistent runbooks_of _ (λ runbooks f.
            Always-bind Consistent
              (load_documents reader files (files.join root "policies") (parse_policy reader)) _
              (λ policies _. Always-bind Consistent allowlists_of _ (λ allowlists g.
                Always-bind Consistent
                  (load_documents reader files (files.join root "overlays") (parse_overlay reader))
                  _
                  (λ overlays _.
                    Always-bind Consistent
                      (validate_repository inventory roles runbooks policies allowlists) _
                      (λ _ linked. record {
                        linked =
                            (validate_repository_iff inventory roles runbooks policies allowlists).0
                              linked;
                        nodes =
                            Always-ok (All IsFitNode) inventory_of inventory
                              (load_documents-Always reader files IsFitNode (parse_inventory reader)
                                (parse_inventory-IsFitNode reader) (files.join root "inventory"))
                              e;
                        runbooks =
                            Always-ok (All IsFitRunbook) runbooks_of runbooks
                              (load_documents-Always reader files IsFitRunbook
                                (parse_runbook reader) (parse_runbook-IsFitRunbook reader)
                                (files.join root "runbooks"))
                              f;
                        allowlists =
                            Always-ok (All IsFitAllowlist) allowlists_of allowlists
                              (load_documents-Always reader files IsFitAllowlist
                                (parse_allowlist reader) (parse_allowlist-IsFitAllowlist reader)
                                (files.join root "allowlists"))
                              g;
                        resolved = refl;
                      })))))))

  -- A repository that is loaded is consistent: it has a node, every reference is to something that
  -- is there, the layers of a node include its own, the capabilities and the actions are known ones,
  -- every resource id is of a layer, and the overlay is the resolution of the fragments.
  pub load-Consistent :
      (repository : FleetRepository)
      → load reader files root ≡ ok repository
      → Consistent repository
  load-Consistent repository h =
      Always-ok Consistent (load reader files root) repository load-Always h
