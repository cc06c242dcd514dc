-- ===== src/FleetRepository/Tests.antt =====
-- A small fleet repository.
use mathlib.Core.Logic.Or
use runlane.Prelude.{ℕ, suc, ◌≡◌, refl, String, true, Option, none, some, List, [], ◌∷◌, ok, err}
use runlane.Text.{format, is_blank, split_colon}
use runlane.Domain.{linux, system, application}
use runlane.Fleet.{global_tier, FleetOverlayFragment, resolve_fleet_overlays}
use runlane.Yaml.Sample.{Sample, text, object, items, end, field, list_of, pairs_of, sample_text}
use runlane.FleetRepository.{
  FleetRepository, RawInventoryNode, RawRole, RawRunbook, RawPolicy, RawAllowlist, RawOverlay,
}
use runlane.FleetRepository.Checks.{
  parse_layer, parse_os, require_known, validate_repository, is_resource, validate_resources,
  validate_capabilities, validate_actions,
}
use runlane.FleetRepository.Documents.{
  Variant, mapping_variant, sequence_variant, other_variant, Reader, find_key, find_runtime_key,
  reject_runtime_truth, parse_layers, parse_tier, parse_inventory, parse_role, parse_runbook,
  step_capabilities, parse_policy, parse_allowlist, parse_overlay,
}
use runlane.FleetRepository.Load.{Directory, load_document, load_documents, load}
use runlane.FleetRepository.Accepted.{AreLinked, validate_repository_iff}
use runlane.FleetRepository.Consistency.{Consistent, load-Consistent}

abbrev variant_of : Sample → Variant Sample
variant_of (object fields) = mapping_variant (pairs_of fields)
variant_of (items list) = sequence_variant (list_of list)
variant_of _ = other_variant

abbrev node : RawInventoryNode
node = record {
  id = "prod-web-01";
  hostname = "web-01.example";
  os = "linux";
  labels = [];
  layers = record { primary = "application"; supports = "system" ∷ "application" ∷ [] };
  capabilities = record { requested = "os.linux" ∷ "service.systemd" ∷ [] };
  policy = record { profile = "default" };
}

abbrev role : RawRole
role = record {
  id = "web";
  layers = record { primary = "application" };
  runbooks = record { enabled = "restart" ∷ [] };
  policies = record { profile = "default" };
  allowlists = record { enabled = "sshd-restart" ∷ [] };
}

abbrev runbook : RawRunbook Sample
runbook = record {
  name = "restart";
  version = "1";
  summary = none;
  layer = "application";
  select = none;
  parameters = [];
  resources = record {
    reads = "system:node" ∷ [];
    writes = "application:service/sshd" ∷ [];
    conflicts = [];
  };
  collect =
      record { id = "logs"; capability = some "logs.journald"; capability_any = []; arguments = [] }
      ∷ [];
  analyze = record { mode = "structured_proposal"; allowed_actions = "service.restart" ∷ [] };
  policy = none;
  recover = [];
}

abbrev policy : RawPolicy Sample
policy = record {
  id = "default";
  approval = none;
  verification = none;
  helper = record { require_signed_lease = true; reject_replay = true };
}

abbrev allowlist : RawAllowlist
allowlist = record {
  id = "sshd-restart";
  action = "service.restart";
  target_resource_id = "application:service/sshd";
}

abbrev overlay : RawOverlay
overlay = record { tier = "global"; name = none; settings = ("ntp", "on") ∷ [] }

-- every body is read as the document of its type
abbrev reader : Reader Sample
reader = record {
  value = λ body. ok (object (field "id" (text body) end));
  variant = variant_of;
  as_str = sample_text;
  depth = λ value. 1;
  inventory_node = λ body. ok node;
  role = λ body. ok role;
  runbook = λ body. ok runbook;
  policy = λ body. ok policy;
  allowlist = λ body. ok allowlist;
  overlay = λ body. ok overlay;
}

-- one file in every directory
abbrev files : Directory
files = record {
  join = λ root name. format (root ∷ "/" ∷ name ∷ []);
  exists = λ directory. true;
  sorted_yaml_paths = λ directory. ok (format (directory ∷ "/a.yaml" ∷ []) ∷ []);
  read_to_string = λ path. ok "body";
}

abbrev fragments : List FleetOverlayFragment
fragments = record { tier = global_tier; settings = record { key = "ntp"; value = "on" } ∷ [] } ∷ []

abbrev loaded : FleetRepository
loaded = record {
  root = "fleet";
  inventory =
      record {
        id = "prod-web-01";
        hostname = "web-01.example";
        os = linux;
        labels = [];
        layers = record { primary = application; supports = system ∷ application ∷ [] };
        requested_capabilities = "os.linux" ∷ "service.systemd" ∷ [];
        policy_profile = "default";
      }
      ∷ [];
  roles =
      record {
        id = "web";
        primary_layer = application;
        enabled_runbooks = "restart" ∷ [];
        policy_profile = "default";
        enabled_allowlists = "sshd-restart" ∷ [];
      }
      ∷ [];
  runbooks =
      record {
        name = "restart";
        version = "1";
        layer = application;
        reads = "system:node" ∷ [];
        writes = "application:service/sshd" ∷ [];
        conflicts = [];
        required_capabilities = "logs.journald" ∷ [];
        allowed_actions = "service.restart" ∷ [];
      }
      ∷ [];
  policies = record { id = "default"; require_signed_lease = true; reject_replay = true } ∷ [];
  allowlists =
      record {
        id = "sshd-restart";
        action = "service.restart";
        target_resource_id = "application:service/sshd";
      }
      ∷ [];
  overlays = fragments;
  resolved_overlay = resolve_fleet_overlays fragments;
}

load_step : load reader files "fleet" ≡ ok loaded
unfolding load load_documents load_document reject_runtime_truth find_runtime_key find_key
    parse_inventory parse_layers parse_layer parse_os validate_capabilities parse_role parse_runbook
    step_capabilities is_blank validate_resources is_resource split_colon validate_actions
    parse_policy parse_allowlist parse_overlay parse_tier validate_repository require_known
load_step = refl

load-Consistent_example : Consistent loaded
load-Consistent_example = load-Consistent reader files "fleet" loaded load_step

linked_test :
    AreLinked loaded.inventory loaded.roles loaded.runbooks loaded.policies loaded.allowlists
unfolding validate_repository require_known
linked_test =
    (validate_repository_iff loaded.inventory loaded.roles loaded.runbooks loaded.policies
        loaded.allowlists).0
      refl

-- documents of one entry at each level
data Chain : Type 0 where
  leaf : String → Chain
  under : String → Chain → Chain

abbrev chain_variant : Chain → Variant Chain
chain_variant (leaf s) = other_variant
chain_variant (under name rest) = mapping_variant ((leaf name, rest) ∷ [])

abbrev chain_text : Chain → Option String
chain_text (leaf s) = some s
chain_text (under name rest) = none

abbrev levels : Chain → ℕ
levels (leaf s) = 0
levels (under name rest) = suc (levels rest)

abbrev chain_reader : Reader Chain
chain_reader = record {
  value = λ body. ok (leaf body);
  variant = chain_variant;
  as_str = chain_text;
  depth = levels;
  inventory_node = λ body. err body;
  role = λ body. err body;
  runbook = λ body. err body;
  policy = λ body. err body;
  allowlist = λ body. err body;
  overlay = λ body. err body;
}

runtime_test :
    find_runtime_key chain_reader (under "spec" (under "runtime" (leaf "x"))) ≡ some "runtime"
unfolding find_runtime_key find_key
runtime_test = refl
