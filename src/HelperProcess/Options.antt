-- ===== src/HelperProcess/Options.antt =====
-- The command line options of the helper: `PreflightOptions`, `ExecuteOptions` and their loops, in
-- crates/runlane-helper/src/main.rs. A loop keeps the arguments from its index on. It has as much
-- fuel as there are arguments, and each pass takes one or two of them.
use runlane.Prelude.{
  ℕ, zero, suc, String, Bool, true, false, Option, none, some, List, [], ◌∷◌, length, ◌==◌, Result,
  ok, err, ◌>>=◌, ok_or, if◌then◌else◌,
}
use runlane.Text.{format, strip_prefix}
use runlane.Text.Numbers.{u32_bound, parse_u32, parse_u64, from_str_radix}

-- `next_value`, for the arguments after the option
unfoldable pub next_value : List String → String → Result String (String × List String)
next_value [] option = err (format (option ∷ " requires a value" ∷ []))
next_value (value ∷ rest) option = ok (value, rest)

-- the local variables of `ExecuteOptions::parse`
pub record ExecuteFields : Type 0 where
  pub lease_file : Option String
  pub request_file : Option String
  pub allowlist_file : Option String
  pub node_id : Option String
  pub now_unix_seconds : Option ℕ
  pub dry_run : Bool

pub record ExecuteOptions : Type 0 where
  pub lease_file : String
  pub request_file : String
  pub allowlist_file : String
  pub node_id : String
  pub now_unix_seconds : ℕ
  pub dry_run : Bool

abbrev pub no_execute_fields : ExecuteFields
no_execute_fields = record {
  lease_file = none;
  request_file = none;
  allowlist_file = none;
  node_id = none;
  now_unix_seconds = none;
  dry_run = false;
}

-- an option's value and what it is assigned to
abbrev pub take_value :
    {A : Type 0}
    → List String
    → String
    → (String → Result String A)
    → Result String (A × List String)
take_value args option assign = do
  (value, rest) ← next_value args option
  fields ← assign value
  ok (fields, rest)

-- one pass of the loop of `ExecuteOptions::parse`
unfoldable pub execute_option :
    String → List String → ExecuteFields → Result String (ExecuteFields × List String)
execute_option option args fields =
    if option == "--lease-file"
    then take_value args "--lease-file" (λ value. ok (record fields { lease_file = some value }))
    else if option == "--request-file"
    then take_value args "--request-file"
        (λ value. ok (record fields { request_file = some value }))
    else if option == "--allowlist-file"
    then take_value args "--allowlist-file"
        (λ value. ok (record fields { allowlist_file = some value }))
    else if option == "--node-id"
    then take_value args "--node-id" (λ value. ok (record fields { node_id = some value }))
    else if option == "--now"
    then take_value args "--now" (λ value. do
      now ← ok_or (parse_u64 value) "--now must be an unsigned integer"
      ok (record fields { now_unix_seconds = some now }))
    else if option == "--dry-run"
    then ok (record fields { dry_run = true }, args)
    else err (format ("unsupported execute option: " ∷ option ∷ []))

-- `while index < args.len()`, with one pass of it
unfoldable pub option_loop :
    {A : Type 0}
    → (String → List String → A → Result String (A × List String))
    → ℕ
    → List String
    → A
    → Result String A
option_loop pass fuel [] fields = ok fields
option_loop pass zero (option ∷ args) fields = err "out of fuel"
option_loop pass (suc fuel) (option ∷ args) fields = do
  (next, rest) ← pass option args fields
  option_loop pass fuel rest next

abbrev pub finish_execute : ExecuteFields → Result String ExecuteOptions
finish_execute fields = do
  lease_file ← ok_or fields.lease_file "--lease-file is required"
  request_file ← ok_or fields.request_file "--request-file is required"
  allowlist_file ← ok_or fields.allowlist_file "--allowlist-file is required"
  node_id ← ok_or fields.node_id "--node-id is required"
  now ← ok_or fields.now_unix_seconds "--now is required"
  ok (record {
    lease_file = lease_file;
    request_file = request_file;
    allowlist_file = allowlist_file;
    node_id = node_id;
    now_unix_seconds = now;
    dry_run = fields.dry_run;
  })

-- `ExecuteOptions::parse`
unfoldable pub parse_execute : List String → Result String ExecuteOptions
parse_execute args =
    option_loop execute_option (length args) args no_execute_fields >>= finish_execute

-- the local variables of `PreflightOptions::parse`
pub record PreflightFields : Type 0 where
  pub helper_binary : Option String
  pub allowlist_file : Option String
  pub expected_owner_uid : Option ℕ
  pub expected_mode : Option ℕ

pub record PreflightOptions : Type 0 where
  pub helper_binary : String
  pub allowlist_file : String
  pub expected_owner_uid : ℕ
  pub expected_mode : ℕ

abbrev pub no_preflight_fields : PreflightFields
no_preflight_fields = record {
  helper_binary = none;
  allowlist_file = none;
  expected_owner_uid = none;
  expected_mode = none;
}

abbrev pub finish_preflight : PreflightFields → Result String PreflightOptions
finish_preflight fields = do
  helper_binary ← ok_or fields.helper_binary "--helper-binary is required"
  allowlist_file ← ok_or fields.allowlist_file "--allowlist-file is required"
  expected_owner_uid ← ok_or fields.expected_owner_uid "--expected-owner-uid is required"
  expected_mode ← ok_or fields.expected_mode "--expected-mode is required"
  ok (record {
    helper_binary = helper_binary;
    allowlist_file = allowlist_file;
    expected_owner_uid = expected_owner_uid;
    expected_mode = expected_mode;
  })

-- `option.unwrap_or(default)`
abbrev pub unwrap_or {ℓ} : {A : Type ℓ} → Option A → A → A
unwrap_or none default = default
unwrap_or (some a) default = a

-- `{:?}` of a text escapes what the standard library does not count as printable, by tables that are
-- a parameter here.
module _ (debug_str : String → String) where
  unfoldable pub parse_octal_mode : String → Result String ℕ
  parse_octal_mode value =
      let normalized = unwrap_or (strip_prefix value "0o") value in
      ok_or (from_str_radix 8 u32_bound normalized)
        (format ("--expected-mode must be an octal mode, got " ∷ debug_str value ∷ []))

  -- one pass of the loop of `PreflightOptions::parse`
  unfoldable pub preflight_option :
      String → List String → PreflightFields → Result String (PreflightFields × List String)
  preflight_option option args fields =
      if option == "--helper-binary"
      then take_value args "--helper-binary"
          (λ value. ok (record fields { helper_binary = some value }))
      else if option == "--allowlist-file"
      then take_value args "--allowlist-file"
          (λ value. ok (record fields { allowlist_file = some value }))
      else if option == "--expected-owner-uid"
      then take_value args "--expected-owner-uid" (λ value. do
        uid ← ok_or (parse_u32 value) "--expected-owner-uid must be an unsigned integer"
        ok (record fields { expected_owner_uid = some uid }))
      else if option == "--expected-mode"
      then take_value args "--expected-mode" (λ value. do
        mode ← parse_octal_mode value
        ok (record fields { expected_mode = some mode }))
      else err (format ("unsupported preflight option: " ∷ option ∷ []))

  -- `PreflightOptions::parse`
  unfoldable pub parse_preflight : List String → Result String PreflightOptions
  parse_preflight args =
      option_loop preflight_option (length args) args no_preflight_fields >>= finish_preflight
