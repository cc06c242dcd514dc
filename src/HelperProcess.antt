-- ===== src/HelperProcess.antt =====
-- The privileged helper process, crates/runlane-helper/src/main.rs: the readers of its documents.
-- The text that the process prints is the answer of a successful run.
pub mod Options
pub mod Preflight
pub mod Execute
pub mod OptionOrder
pub mod CommandLines
pub mod ExpectedMode
pub mod Passes
pub mod Outcomes
mod Tests
use runlane.Prelude.{
  ℕ, String, Option, none, some, List, [], ◌∷◌, ◌==◌, Result, ok, err, ◌>>=◌, ok_or, map_err,
  traverse, if◌then◌else◌,
}
use runlane.Text.{format}
use runlane.Domain.{
  ActionKind, service_restart, service_reload, remove_allowlisted_file, SignedCapabilityLease,
}
use runlane.Helper.{
  LeaseSignatureStatus, valid, invalid, HelperAllowlistEntry, HelperAllowlist, HelperArgument,
  HelperActionRequest, HelperRejection, invalid_signature, expired_lease, replayed_nonce,
  node_mismatch, lease_mismatch, action_mismatch, target_mismatch, local_allowlist_denied,
}
use runlane.Yaml.{Yaml}

unfoldable pub parse_action : String → Result String ActionKind
parse_action value =
    if value == "service.restart"
    then ok service_restart
    else if value == "service.reload"
    then ok service_reload
    else if value == "file.remove_from_allowlist"
    then ok remove_allowlisted_file
    else err (format ("unsupported helper action: " ∷ value ∷ []))

abbrev signature_named : String → Result String LeaseSignatureStatus
signature_named status =
    if status == "valid"
    then ok valid
    else if status == "invalid"
    then ok invalid
    else err "signature_status must be valid or invalid"

-- the derived `Debug`
abbrev pub debug_helper_rejection : HelperRejection → String
debug_helper_rejection invalid_signature = "InvalidSignature"
debug_helper_rejection expired_lease = "ExpiredLease"
debug_helper_rejection replayed_nonce = "ReplayedNonce"
debug_helper_rejection node_mismatch = "NodeMismatch"
debug_helper_rejection lease_mismatch = "LeaseMismatch"
debug_helper_rejection action_mismatch = "ActionMismatch"
debug_helper_rejection target_mismatch = "TargetMismatch"
debug_helper_rejection local_allowlist_denied = "LocalAllowlistDenied"

unfoldable pub format_rejection : HelperRejection → String
format_rejection rejection =
    format ("helper request rejected: " ∷ debug_helper_rejection rejection ∷ [])

-- `option.and_then(f)`
abbrev pub and_then {ℓ} : {A B : Type ℓ} → Option A → (A → Option B) → Option B
and_then none f = none
and_then (some a) f = f a

module _ {Value : Type 0} (yaml : Yaml Value) where
  unfoldable pub mapping : Value → String → Result String Value
  mapping value key =
      ok_or (yaml.get value key) (format ("missing required field `" ∷ key ∷ "`" ∷ []))

  unfoldable pub string : Value → String → Result String String
  string value key =
      ok_or (and_then (yaml.get value key) yaml.as_str)
        (format ("missing string field `" ∷ key ∷ "`" ∷ []))

  unfoldable pub unsigned : Value → String → Result String ℕ
  unsigned value key =
      ok_or (and_then (yaml.get value key) yaml.as_u64)
        (format ("missing unsigned integer field `" ∷ key ∷ "`" ∷ []))

  unfoldable pub parse_lease : Value → Result String SignedCapabilityLease
  parse_lease value = do
    claims ← mapping value "claims"
    lease_id ← string claims "lease_id"
    run_id ← string claims "run_id"
    approval_id ← string claims "approval_id"
    node_id ← string claims "node_id"
    action_name ← string claims "action"
    action ← parse_action action_name
    target_resource_id ← string claims "target_resource_id"
    target_subject ← string claims "target_subject"
    allowlist_entry_id ← string claims "allowlist_entry_id"
    expires_at_unix_seconds ← unsigned claims "expires_at_unix_seconds"
    nonce ← string claims "nonce"
    key_id ← string value "key_id"
    signature ← string value "signature"
    ok (record {
      claims = record {
        lease_id = lease_id;
        run_id = run_id;
        approval_id = approval_id;
        node_id = node_id;
        action = action;
        target = record { resource_id = target_resource_id; subject = target_subject };
        allowlist_entry_id = allowlist_entry_id;
        expires_at_unix_seconds = expires_at_unix_seconds;
        nonce = nonce;
      };
      key_id = key_id;
      signature = signature;
    })

  abbrev parse_argument : Value × Value → Result String HelperArgument
  parse_argument (key, value) = do
    name ← ok_or (yaml.as_str key) "argument names must be strings"
    value ← ok_or (yaml.as_str value) "argument values must be strings"
    ok (record { name = name; value = value })

  -- `.transpose()?.unwrap_or_default()` of the arguments that are there
  abbrev parse_arguments : Option (List (Value × Value)) → Result String (List HelperArgument)
  parse_arguments none = ok []
  parse_arguments (some pairs) = traverse parse_argument pairs

  unfoldable pub parse_request : Value → Result String HelperActionRequest
  parse_request value = do
    arguments ← parse_arguments (and_then (yaml.get value "arguments") yaml.as_mapping)
    lease_id ← string value "lease_id"
    action_name ← string value "action"
    action ← parse_action action_name
    target_resource_id ← string value "target_resource_id"
    target_subject ← string value "target_subject"
    ok (record {
      lease_id = lease_id;
      action = action;
      target = record { resource_id = target_resource_id; subject = target_subject };
      arguments = arguments;
    })

  unfoldable pub parse_allowlist_entry : Value → Result String HelperAllowlistEntry
  parse_allowlist_entry value = do
    id ← string value "id"
    action_name ← string value "action"
    action ← parse_action action_name
    target_resource_id ← string value "target_resource_id"
    ok (record { id = id; action = action; target_resource_id = target_resource_id })

  abbrev parse_entries : Value → Option (List Value) → Result String (List HelperAllowlistEntry)
  parse_entries value (some entries) = traverse parse_allowlist_entry entries
  parse_entries value none = parse_allowlist_entry value >>= λ entry. ok (entry ∷ [])

  unfoldable pub parse_allowlist : Value → Result String HelperAllowlist
  parse_allowlist value =
      parse_entries value (and_then (yaml.get value "entries") yaml.as_sequence) >>= λ entries.
      ok (record { entries = entries })

  unfoldable pub parse_signature_status : Value → Result String LeaseSignatureStatus
  parse_signature_status value = string value "signature_status" >>= signature_named

  abbrev nonces_of : Option (List Value) → Result String (List String)
  nonces_of none = ok []
  nonces_of (some values) =
      traverse (λ value. ok_or (yaml.as_str value) "seen_nonces entries must be strings") values

  unfoldable pub parse_seen_nonces : Value → Result String (List String)
  parse_seen_nonces value = nonces_of (and_then (yaml.get value "seen_nonces") yaml.as_sequence)
