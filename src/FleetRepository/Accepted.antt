-- ===== src/FleetRepository/Accepted.antt =====
-- Which references and fields the checks of a fleet repository accept.
use mathlib.Core.List.{Mem}
use runlane.Prelude.{
  ◌≡◌, ◌≢◌, ◌↔◌, refl, inl, inr, String, true, false, List, [], ◌∷◌, map, ok, for_each,
  for_each_iff, arith, All, All-iff, Bool-cases, then_iff, refuse_if_iff, tests_iff,
}
use runlane.Prelude.Search.{contains-mem, mem-contains}
use runlane.FleetRepository.{
  FleetInventoryNode, FleetRole, FleetRunbook, FleetPolicy, FleetAllowlistEntryDoc,
}
use runlane.FleetRepository.Checks.{
  require_known, is_in, is_empty, check_role, validate_repository, is_resource, validate_resources,
  known_capabilities, validate_capabilities, known_actions, validate_actions,
}

require_known_iff :
    (label value : String) (known : List String)
    → (require_known label value known ≡ ok tt) ↔ Mem value known
unfolding require_known
require_known_iff label value known = elim (Bool-cases (is_in value known)) [
  | inl t ↦ (λ h. contains-mem known value t, λ m. ground arith)
  | inr f ↦
      (λ h. absurd (ground arith), λ m. let t = mem-contains known value m in absurd (ground arith))
]

require_known-All :
    (label : String) (known values : List String)
    → (for_each (λ value. require_known label value known) values ≡ ok tt)
      ↔ All (λ value. Mem value known) values
require_known-All label known values =
    let checks = for_each_iff (λ value. require_known label value known) values in
    let each =
      All-iff (λ value. require_known label value known ≡ ok tt) (λ value. Mem value known)
        (λ value. require_known_iff label value known) values in
    (λ h. each.0 (checks.0 h), λ m. checks.1 (each.1 m))

is_empty_iff {ℓ} : {A : Type ℓ} (xs : List A) → (is_empty xs ≡ false) ↔ (xs ≢ [])
is_empty_iff [] = (λ h e. absurd (ground arith), λ h. absurd (h refl))
is_empty_iff (x ∷ xs) = (λ h e. absurd (ground arith), λ h. refl)

module _ (inventory : List FleetInventoryNode) (roles : List FleetRole)
    (runbooks : List FleetRunbook) (policies : List FleetPolicy)
    (allowlists : List FleetAllowlistEntryDoc) where
  abbrev pub runbook_names : List String
  runbook_names = map (λ runbook. runbook.name) runbooks

  abbrev pub policy_ids : List String
  policy_ids = map (λ policy. policy.id) policies

  abbrev pub allowlist_ids : List String
  allowlist_ids = map (λ allowlist. allowlist.id) allowlists

  -- what a role enables is there
  pub record IsLinked (role : FleetRole) : Type 0 where
    pub runbooks_known : All (λ name. Mem name runbook_names) role.enabled_runbooks
    pub policy_known : Mem role.policy_profile policy_ids
    pub allowlists_known : All (λ id. Mem id allowlist_ids) role.enabled_allowlists

  check_role_iff :
      (role : FleetRole)
      → (check_role runbook_names policy_ids allowlist_ids role ≡ ok tt) ↔ IsLinked role
  check_role_iff role = (
    λ h.
        let (books, h) = (then_iff _ _ tt).0 h in
        let (policy, lists) = (then_iff _ _ tt).0 h in
        record {
          runbooks_known =
              (require_known-All "role runbook" runbook_names role.enabled_runbooks).0 books;
          policy_known = (require_known_iff "role policy" role.policy_profile policy_ids).0 policy;
          allowlists_known =
              (require_known-All "role allowlist" allowlist_ids role.enabled_allowlists).0 lists;
        },
    λ linked. (then_iff _ _ tt).1 (
      (require_known-All "role runbook" runbook_names role.enabled_runbooks).1
          linked.runbooks_known,
      (then_iff _ _ tt).1 (
        (require_known_iff "role policy" role.policy_profile policy_ids).1 linked.policy_known,
        (require_known-All "role allowlist" allowlist_ids role.enabled_allowlists).1
            linked.allowlists_known,
      ),
    ),
  )

  -- there is a node, and every reference of a role or a node is to something that is there
  pub record AreLinked : Type 0 where
    pub some_node : inventory ≢ []
    pub roles_linked : All IsLinked roles
    pub nodes_linked : All (λ node. Mem node.policy_profile policy_ids) inventory

  check_role-All :
      (for_each (check_role runbook_names policy_ids allowlist_ids) roles ≡ ok tt)
      ↔ All IsLinked roles
  check_role-All =
      let checks = for_each_iff (check_role runbook_names policy_ids allowlist_ids) roles in
      let each =
        All-iff (λ role. check_role runbook_names policy_ids allowlist_ids role ≡ ok tt) IsLinked
          check_role_iff roles in
      (λ h. each.0 (checks.0 h), λ m. checks.1 (each.1 m))

  node_policy-All :
      (for_each (λ node. require_known "node policy" node.policy_profile policy_ids) inventory
        ≡ ok tt)
      ↔ All (λ node. Mem node.policy_profile policy_ids) inventory
  node_policy-All =
      let checks =
        for_each_iff
          (λ (node : FleetInventoryNode).
            require_known "node policy" node.policy_profile policy_ids)
          inventory in
      let each =
        All-iff
          (λ (node : FleetInventoryNode).
            require_known "node policy" node.policy_profile policy_ids ≡ ok tt)
          (λ node. Mem node.policy_profile policy_ids)
          (λ node. require_known_iff "node policy" node.policy_profile policy_ids) inventory in
      (λ h. each.0 (checks.0 h), λ m. checks.1 (each.1 m))

  -- A repository is accepted exactly when it has a node, every role enables only runbooks and
  -- allowlists that are there, and the policy of every role and of every node is there.
  pub validate_repository_iff :
      (validate_repository inventory roles runbooks policies allowlists ≡ ok tt) ↔ AreLinked
  unfolding validate_repository
  validate_repository_iff = (
    λ h.
        let (some_node, h) = (then_iff _ _ tt).0 h in
        let (roles_fine, nodes_fine) = (then_iff _ _ tt).0 h in
        record {
          some_node =
              (is_empty_iff inventory).0 ((refuse_if_iff (is_empty inventory) _).0 some_node);
          roles_linked = check_role-All.0 roles_fine;
          nodes_linked = node_policy-All.0 nodes_fine;
        },
    λ linked. (then_iff _ _ tt).1 (
      (refuse_if_iff (is_empty inventory) _).1 ((is_empty_iff inventory).1 linked.some_node),
      (then_iff _ _ tt).1
          (check_role-All.1 linked.roles_linked, node_policy-All.1 linked.nodes_linked),
    ),
  )

abbrev pub AreKnown : List String → List String → Type 0
AreKnown known values = All (λ value. is_in value known ≡ true) values

abbrev pub AreResources : List String → Type 0
AreResources values = All (λ value. is_resource value ≡ true) values

module _ (path : String) (values : List String) where
  pub validate_capabilities_iff :
      (validate_capabilities path values ≡ ok tt) ↔ AreKnown known_capabilities values
  unfolding validate_capabilities
  validate_capabilities_iff = tests_iff (λ value. is_in value known_capabilities) _ values

  pub validate_actions_iff : (validate_actions path values ≡ ok tt) ↔ AreKnown known_actions values
  unfolding validate_actions
  validate_actions_iff = tests_iff (λ value. is_in value known_actions) _ values

  pub validate_resources_iff : (validate_resources path values ≡ ok tt) ↔ AreResources values
  unfolding validate_resources
  validate_resources_iff = tests_iff is_resource _ values
