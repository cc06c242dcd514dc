-- ===== src/HelperProcess/Preflight.antt =====
-- `HelperPreflightReport::check` and `preflight`, in crates/runlane-helper/src/main.rs, on Unix. The
-- file system is a parameter.
use Prim.Native.Nat.{bit_and}
use runlane.Prelude.{
  ℕ, String, Bool, not, List, [], ◌∷◌, nat_eq, Result, ok, ◌>>=◌, ◌>>◌, map_err, refuse_if,
}
use runlane.Text.{format, show_u64}
use runlane.Text.Numbers.{show_octal}
use runlane.Yaml.{Yaml}
use runlane.HelperProcess.{parse_allowlist}
use runlane.HelperProcess.Options.{PreflightOptions, parse_preflight}

-- what is asked of `fs::Metadata`; `st_mode` has the file type above the twelve mode bits
pub record Metadata : Type 0 where
  pub is_file : Bool
  pub uid : ℕ
  pub st_mode : ℕ

-- the calls on the file system, with the text of their errors
pub record FileSystem : Type 0 where
  pub read_to_string : String → Result String String
  pub metadata : String → Result String Metadata

pub record HelperPreflightReport : Type 0 where
  pub helper_binary : String
  pub owner_uid : ℕ
  pub mode : ℕ
  pub allowlist_file : String

abbrev pub unix_owner_and_mode : Metadata → ℕ × ℕ
unix_owner_and_mode metadata = (metadata.uid, bit_and metadata.st_mode 0o7777)

module _ {Value : Type 0} (yaml : Yaml Value) (files : FileSystem) where
  unfoldable pub read_yaml : String → Result String Value
  read_yaml path = do
    body ← map_err (λ error. format (path ∷ ": " ∷ error ∷ [])) (files.read_to_string path)
    map_err (λ error. format (path ∷ ": invalid yaml: " ∷ error ∷ [])) (yaml.from_str body)

  -- `HelperPreflightReport::check`
  unfoldable pub check : PreflightOptions → Result String HelperPreflightReport
  check options =
      let path = options.helper_binary in
      do
        metadata ←
            map_err (λ error. format ("helper binary " ∷ path ∷ ": " ∷ error ∷ []))
              (files.metadata path)
        refuse_if (not metadata.is_file)
            (format ("helper binary " ∷ path ∷ " is not a regular file" ∷ []))
        (owner_uid, mode) ← ok (unix_owner_and_mode metadata)
        refuse_if (not (nat_eq owner_uid options.expected_owner_uid)) (
            format (
              "helper binary "
              ∷ path
              ∷ " owner uid "
              ∷ show_u64 owner_uid
              ∷ " does not match expected "
              ∷ show_u64 options.expected_owner_uid
              ∷ []))
        refuse_if (not (nat_eq mode options.expected_mode)) (
            format (
              "helper binary "
              ∷ path
              ∷ " mode "
              ∷ show_octal mode
              ∷ " does not match expected "
              ∷ show_octal options.expected_mode
              ∷ []))
        refuse_if (nat_eq (bit_and mode 0o111) 0)
            (format ("helper binary " ∷ path ∷ " is not executable" ∷ []))
        refuse_if (not (nat_eq (bit_and mode 0o022) 0))
            (format ("helper binary " ∷ path ∷ " must not be group- or world-writable" ∷ []))
        allowlist_yaml ← read_yaml options.allowlist_file
        parse_allowlist yaml allowlist_yaml
        ok (record {
          helper_binary = options.helper_binary;
          owner_uid = owner_uid;
          mode = mode;
          allowlist_file = options.allowlist_file;
        })

  unfoldable pub preflight : (String → String) → List String → Result String String
  preflight debug_str args = do
    options ← parse_preflight debug_str args
    report ← check options
    ok (
        format (
          "status: succeeded\nhelper_binary: "
          ∷ report.helper_binary
          ∷ "\nowner_uid: "
          ∷ show_u64 report.owner_uid
          ∷ "\nmode: "
          ∷ show_octal report.mode
          ∷ "\nallowlist_file: "
          ∷ report.allowlist_file
          ∷ "\ndry_run_support: present\nmessage: helper preflight passed without mutating host"
          ∷ []))
