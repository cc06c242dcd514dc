-- ===== src/HelperProcess/Execute.antt =====
-- `execute`, `dry_run_smoke` and `run`, in crates/runlane-helper/src/main.rs.
use runlane.Prelude.{
  String, not, List, [], ◌∷◌, ◌++◌, any, ◌==◌, ◌||◌, Result, ok, err, ◌>>=◌, ◌>>◌, map_err,
  refuse_if, if◌then◌else◌,
}
use runlane.Text.{format, join}
use runlane.Domain.{
  ActionKind, service_restart, service_reload, package_update, node_reboot, run_allowlisted_script,
  remove_allowlisted_file, SignedCapabilityLease,
}
use runlane.Helper.{
  LeaseSignatureStatus, HelperAllowlist, HelperActionRequest, HelperValidationContext,
  AcceptedHelperInvocation, validate_helper_request,
}
use runlane.Yaml.{Yaml}
use runlane.HelperProcess.{
  parse_lease, parse_request, parse_allowlist, parse_signature_status, parse_seen_nonces,
  format_rejection,
}
use runlane.HelperProcess.Options.{ExecuteOptions, parse_execute}
use runlane.HelperProcess.Preflight.{FileSystem, read_yaml, preflight}

pub record LoadedHelperInput : Type 0 where
  pub lease : SignedCapabilityLease
  pub request : HelperActionRequest
  pub allowlist : HelperAllowlist
  pub signature_status : LeaseSignatureStatus
  pub seen_nonces : List String

abbrev pub context_of : ExecuteOptions → LoadedHelperInput → HelperValidationContext
context_of options loaded = record {
  node_id = options.node_id;
  now_unix_seconds = options.now_unix_seconds;
  signature_status = loaded.signature_status;
  seen_nonces = loaded.seen_nonces;
  allowlist = loaded.allowlist;
}

abbrev pub validated_text : String → AcceptedHelperInvocation → String
validated_text action_name accepted = format (
    "status: succeeded\naction: " ∷ action_name ∷ "\ntarget: " ∷ accepted.target.resource_id
    ∷ "\ndry_run: true\nmessage: validated typed helper action without mutating host" ∷ [])

-- the arms of `execute` for an accepted request
unfoldable pub conclude : AcceptedHelperInvocation → ActionKind → Result String String
conclude accepted service_restart = ok (
    format (
      "status: succeeded\naction: service.restart\ntarget: " ∷ accepted.target.resource_id
      ∷ "\ndry_run: true\nmessage: validated typed service.restart without mutating host" ∷ []))
conclude accepted service_reload = ok (validated_text "ServiceReload" accepted)
conclude accepted remove_allowlisted_file = ok (validated_text "RemoveAllowlistedFile" accepted)
conclude accepted run_allowlisted_script =
    err "script.run_allowlisted dry-run is not implemented in v0.1 helper"
conclude accepted package_update =
    err
      "package.update and node.reboot are modeled core actions, not helper-executable actions in v0.1"
conclude accepted node_reboot =
    err
      "package.update and node.reboot are modeled core actions, not helper-executable actions in v0.1"

-- the text of `print_help`
abbrev pub help_text : String
help_text = format (
    "runlane-helper preflight --helper-binary <path> --allowlist-file <path> "
    ∷ "--expected-owner-uid <uid> --expected-mode <octal>\n"
    ∷ "runlane-helper dry-run-smoke --lease-file <path> --request-file <path> "
    ∷ "--allowlist-file <path> --node-id <id> --now <unix>\n"
    ∷ "runlane-helper execute --lease-file <path> --request-file <path> "
    ∷ "--allowlist-file <path> --node-id <id> --now <unix> --dry-run" ∷ [])

module _ {Value : Type 0} (yaml : Yaml Value) (files : FileSystem) where
  -- `LoadedHelperInput::load`
  unfoldable pub load : ExecuteOptions → Result String LoadedHelperInput
  load options = do
    lease_yaml ← read_yaml yaml files options.lease_file
    request_yaml ← read_yaml yaml files options.request_file
    allowlist_yaml ← read_yaml yaml files options.allowlist_file
    lease ← parse_lease yaml lease_yaml
    request ← parse_request yaml request_yaml
    allowlist ← parse_allowlist yaml allowlist_yaml
    signature_status ← parse_signature_status yaml lease_yaml
    seen_nonces ← parse_seen_nonces yaml lease_yaml
    ok (record {
      lease = lease;
      request = request;
      allowlist = allowlist;
      signature_status = signature_status;
      seen_nonces = seen_nonces;
    })

  -- `execute` with its options
  unfoldable pub execute_with : ExecuteOptions → Result String String
  execute_with options = do
    refuse_if (not options.dry_run) "non-dry-run helper execution is not implemented; use --dry-run"
    loaded ← load options
    accepted ←
        map_err format_rejection
          (validate_helper_request loaded.request loaded.lease (context_of options loaded))
    conclude accepted accepted.action

  unfoldable pub execute : List String → Result String String
  execute args = parse_execute args >>= execute_with

  unfoldable pub dry_run_smoke : List String → Result String String
  dry_run_smoke args =
      execute (if any (λ arg. arg == "--dry-run") args then args else args ++ "--dry-run" ∷ [])

  -- `run`, with the texts of `print_skeleton` and `print_help`
  unfoldable pub run : (String → String) → List String → Result String String
  run debug_str [] =
      ok "runlane-helper skeleton; privileged_action_surface=[ServiceRestart, ServiceReload]"
  run debug_str (command ∷ args) =
      if command == "execute"
      then execute args
      else if command == "dry-run-smoke"
      then dry_run_smoke args
      else if command == "preflight"
      then preflight yaml files debug_str args
      else if command == "--help" || command == "-h"
      then ok help_text
      else err (format ("unsupported runlane-helper command: " ∷ join (command ∷ args) " " ∷ []))
