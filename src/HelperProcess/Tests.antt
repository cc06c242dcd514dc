-- ===== src/HelperProcess/Tests.antt =====
-- The helper process on small documents and command lines.
use runlane.Prelude.{
  ◌≤◌, Result, length, ℕ, ◌≡◌, refl, String, true, false, some, List, [], ◌∷◌, ok, ◌>>=◌,
}
use runlane.Helper.{permits, validate_helper_request}
use runlane.Text.{format, strip_prefix}
use runlane.Text.Numbers.{from_str_radix, more_digits}
use runlane.Yaml.{Yaml}
use runlane.Yaml.Sample.{Sample, text, number, object, items, end, field, last, item, sample_yaml}
use runlane.HelperProcess.{
  mapping, string, unsigned, parse_action, parse_lease, parse_request, parse_allowlist_entry,
  parse_allowlist, parse_signature_status, parse_seen_nonces,
}
use runlane.HelperProcess.Options.{
  ExecuteFields, PreflightFields, ExecuteOptions, PreflightOptions, no_execute_fields,
  no_preflight_fields, execute_option, option_loop, next_value, finish_execute, finish_preflight,
  parse_execute, preflight_option, parse_octal_mode, parse_preflight,
}
use runlane.HelperProcess.Preflight.{FileSystem, HelperPreflightReport, read_yaml, check}
use runlane.HelperProcess.Execute.{conclude, load, execute_with}
use runlane.HelperProcess.OptionOrder.{
  Setting, lease_file_is, request_file_is, allowlist_file_is, node_id_is, now_is,
}
use runlane.HelperProcess.CommandLines.{parse_execute_iff}
use runlane.HelperProcess.Passes.{Passes, parse-Passes}
use runlane.HelperProcess.ExpectedMode.{Fit, check_iff}
use runlane.HelperProcess.Outcomes.{Executes, execute_with_iff}

abbrev entry : Sample
entry = object (
    field "id" (text "sshd-restart") (
      field "action" (text "service.restart")
        (field "target_resource_id" (text "application:service/sshd") end)))

abbrev lease_document : Sample
lease_document = object (
    field "claims"
      (object (
        field "lease_id" (text "lease-1") (
          field "run_id" (text "run-1") (
            field "approval_id" (text "approval-1") (
              field "node_id" (text "prod-web-01") (
                field "action" (text "service.restart") (
                  field "target_resource_id" (text "application:service/sshd") (
                    field "target_subject" (text "sshd") (
                      field "allowlist_entry_id" (text "sshd-restart") (
                        field "expires_at_unix_seconds" (number 200)
                          (field "nonce" (text "nonce-1") end)))))))))))
      (field "key_id" (text "key-1") (
        field "signature" (text "opaque") (
          field "signature_status" (text "valid")
            (field "seen_nonces" (items (item (text "nonce-0") last)) end)))))

abbrev request_document : Sample
request_document = object (
    field "lease_id" (text "lease-1") (
      field "action" (text "service.restart") (
        field "target_resource_id" (text "application:service/sshd") (
          field "target_subject" (text "sshd")
            (field "arguments" (object (field "mode" (text "graceful") end)) end)))))

abbrev yaml : Yaml Sample
yaml = sample_yaml (
    field "lease" lease_document (
      field "request" request_document
        (field "allowlist" (object (field "entries" (items (item entry last)) end)) end)))

-- a file holds the name of its document
abbrev files : FileSystem
files = record {
  read_to_string = λ path. ok path;
  metadata = λ path. ok (record { is_file = true; uid = 0; st_mode = 0o100755 });
}

abbrev options : ExecuteOptions
options = record {
  lease_file = "lease";
  request_file = "request";
  allowlist_file = "allowlist";
  node_id = "prod-web-01";
  now_unix_seconds = 150;
  dry_run = true;
}

now_reads : from_str_radix 10 18446744073709551616 "150" ≡ some 150
unfolding from_str_radix more_digits
now_reads = refl

-- the node is given twice, and the last one counts
abbrev settings : List Setting
settings =
    node_id_is "elsewhere"
    ∷ now_is "150" 150 now_reads
    ∷ lease_file_is "lease"
    ∷ node_id_is "prod-web-01"
    ∷ request_file_is "request"
    ∷ allowlist_file_is "allowlist"
    ∷ []

abbrev args : List String
args =
    "--node-id" ∷ "elsewhere" ∷ "--now" ∷ "150" ∷ "--lease-file" ∷ "lease" ∷ "--node-id"
    ∷ "prod-web-01" ∷ "--request-file" ∷ "request" ∷ "--allowlist-file" ∷ "allowlist" ∷ []

parse_execute_iff_example : parse_execute args ≡ ok (record options { dry_run = false })
parse_execute_iff_example =
    (parse_execute_iff args (record options { dry_run = false })).1 (settings, refl, refl)

abbrev executed : String
executed =
    "status: succeeded\naction: service.restart\ntarget: application:service/sshd\ndry_run: true\nmessage: validated typed service.restart without mutating host"

executes : execute_with yaml files options ≡ ok executed
unfolding execute_with load read_yaml mapping string unsigned parse_action parse_lease parse_request
    parse_allowlist_entry parse_allowlist parse_signature_status parse_seen_nonces
    validate_helper_request permits conclude format
executes = refl

execute_with_iff_example : Executes yaml files options
execute_with_iff_example = (execute_with_iff yaml files options).0 (executed, executes)

abbrev preflight_args : List String
preflight_args =
    "--helper-binary" ∷ "/usr/libexec/runlane-helper" ∷ "--allowlist-file" ∷ "allowlist"
    ∷ "--expected-owner-uid" ∷ "0" ∷ "--expected-mode" ∷ "0o755" ∷ []

abbrev preflight_options : PreflightOptions
preflight_options = record {
  helper_binary = "/usr/libexec/runlane-helper";
  allowlist_file = "allowlist";
  expected_owner_uid = 0;
  expected_mode = 0o755;
}

abbrev report : HelperPreflightReport
report = record {
  helper_binary = "/usr/libexec/runlane-helper";
  owner_uid = 0;
  mode = 0o755;
  allowlist_file = "allowlist";
}

-- `{:?}` of a text without characters that are escaped
abbrev quoted : String → String
quoted s = format ("\"" ∷ s ∷ "\"" ∷ [])

parsed : parse_preflight quoted preflight_args ≡ ok preflight_options
unfolding parse_preflight option_loop preflight_option next_value parse_octal_mode from_str_radix
    more_digits strip_prefix
parsed = refl

checked : check yaml files preflight_options ≡ ok report
unfolding check read_yaml parse_allowlist parse_allowlist_entry string parse_action
checked = refl

check_iff_example : Fit yaml files preflight_options report
check_iff_example = (check_iff yaml files preflight_options report).0 checked

parse-Passes_example :
    ((last : Result String ExecuteFields) × (n : ℕ) × (n ≤ length args)
      × Passes execute_option n args no_execute_fields last
      × (parse_execute args ≡ last >>= finish_execute))
    × ((last : Result String PreflightFields) × (n : ℕ) × (n ≤ length args)
        × Passes (preflight_option quoted) n args no_preflight_fields last
        × (parse_preflight quoted args ≡ last >>= finish_preflight))
parse-Passes_example = parse-Passes quoted args
