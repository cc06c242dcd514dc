-- ===== src/HelperProcess/ExpectedMode.antt =====
-- What the helper's preflight checks of its binary.
use Prim.Native.Nat.{bit_and}
use runlane.Prelude.{
  ℕ, ◌/◌, ◌%◌, ◌<◌, ◌≡◌, ◌↔◌, refl, sym, ap, inl, inr, Bool, true, false, not, ◌&&◌, ◌||◌, ok,
  nat_eq, arith, Result-cases,
}
use runlane.Prelude.Bits.{all_below, all_below-true, bit_and-le}
use runlane.Yaml.{Yaml}
use runlane.Helper.{HelperAllowlist}
use runlane.HelperProcess.{parse_allowlist}
use runlane.HelperProcess.Options.{PreflightOptions}
use runlane.HelperProcess.Preflight.{Metadata, FileSystem, HelperPreflightReport, read_yaml, check}

-- the bits of a mode, from the execute bit of the others
abbrev pub other_execute : ℕ → Bool
other_execute mode = nat_eq (mode % 2) 1

abbrev pub other_write : ℕ → Bool
other_write mode = nat_eq (mode / 2 % 2) 1

abbrev pub group_execute : ℕ → Bool
group_execute mode = nat_eq (mode / 8 % 2) 1

abbrev pub group_write : ℕ → Bool
group_write mode = nat_eq (mode / 16 % 2) 1

abbrev pub owner_execute : ℕ → Bool
owner_execute mode = nat_eq (mode / 64 % 2) 1

abbrev bool_eq : Bool → Bool → Bool
bool_eq a b = (a && b) || (not a && not b)

abbrev masks_agree : ℕ → Bool
masks_agree mode =
    bool_eq (nat_eq (bit_and mode 0o111) 0)
      (not (other_execute mode || group_execute mode || owner_execute mode))
    && bool_eq (nat_eq (bit_and mode 0o022) 0) (not (other_write mode || group_write mode))

masks_table : all_below 4096 masks_agree ≡ true
unfolding all_below
masks_table = refl

masks : (mode : ℕ) → mode < 4096 → masks_agree mode ≡ true
masks mode lt = all_below-true 4096 masks_agree mode masks_table lt

runnable_iff :
    (mode : ℕ)
    → mode < 4096
    → (nat_eq (bit_and mode 0o111) 0 ≡ false)
      ↔ ((other_execute mode || group_execute mode || owner_execute mode) ≡ true)
runnable_iff mode lt = let table = masks mode lt in ground arith

protected_iff :
    (mode : ℕ)
    → mode < 4096
    → (nat_eq (bit_and mode 0o022) 0 ≡ true) ↔ ((other_write mode || group_write mode) ≡ false)
protected_iff mode lt = let table = masks mode lt in ground arith

module _ {Value : Type 0} (yaml : Yaml Value) (files : FileSystem) (options : PreflightOptions)
    (report : HelperPreflightReport) where
  -- a regular file of the expected owner and mode, which somebody may execute and only its owner may
  -- write, beside an allowlist that is read
  pub record Fit : Type 0 where
    pub metadata : Metadata
    pub found : files.metadata options.helper_binary ≡ ok metadata
    pub regular : metadata.is_file ≡ true
    pub same_owner : metadata.uid ≡ options.expected_owner_uid
    pub same_mode : bit_and metadata.st_mode 0o7777 ≡ options.expected_mode
    pub runnable :
        (other_execute report.mode || group_execute report.mode || owner_execute report.mode) ≡ true
    pub protected : (other_write report.mode || group_write report.mode) ≡ false
    pub document : Value
    pub is_read : read_yaml yaml files options.allowlist_file ≡ ok document
    pub allowlist : HelperAllowlist
    pub is_allowlist : parse_allowlist yaml document ≡ ok allowlist
    pub reported : report ≡ record {
      helper_binary = options.helper_binary;
      owner_uid = metadata.uid;
      mode = bit_and metadata.st_mode 0o7777;
      allowlist_file = options.allowlist_file;
    }

  -- The preflight of a helper binary reports exactly when the binary is a regular file with the
  -- expected owner and mode bits, somebody may execute it, neither its group nor others may write
  -- it, and the allowlist file is read as an allowlist; it reports what it found.
  pub check_iff : (check yaml files options ≡ ok report) ↔ Fit
  unfolding check
  check_iff = (
    λ h. elim (Result-cases (files.metadata options.helper_binary)) [
      | inr (e, failed) ↦ absurd (ground arith)
      | inl (metadata, found) ↦
          let mode = bit_and metadata.st_mode 0o7777 in
          let lt : mode < 4096 = omega (arith, bit_and-le metadata.st_mode 0o7777) in
          elim (Result-cases (read_yaml yaml files options.allowlist_file)) [
            | inr (e, failed) ↦ absurd (ground arith)
            | inl (document, is_read) ↦ elim (Result-cases (parse_allowlist yaml document)) [
              | inr (e, failed) ↦ absurd (ground arith)
              | inl (allowlist, is_allowlist) ↦
                  let same : report ≡ record {
                    helper_binary = options.helper_binary;
                    owner_uid = metadata.uid;
                    mode = mode;
                    allowlist_file = options.allowlist_file;
                  } =
                    ground arith in
                  record {
                    metadata = metadata;
                    found = found;
                    regular = ground arith;
                    same_owner = ground arith;
                    same_mode = ground arith;
                    runnable = rw same ((runnable_iff mode lt).0 (ground arith));
                    protected = rw same ((protected_iff mode lt).0 (ground arith));
                    document = document;
                    is_read = is_read;
                    allowlist = allowlist;
                    is_allowlist = is_allowlist;
                    reported = same;
                  }
            ]
          ]
    ],
    λ fit.
        let metadata = fit.metadata in
        let mode = bit_and metadata.st_mode 0o7777 in
        let lt : mode < 4096 = omega (arith, bit_and-le metadata.st_mode 0o7777) in
        let same = fit.reported in
        let found = fit.found in
        let regular = fit.regular in
        let same_owner = fit.same_owner in
        let same_mode = fit.same_mode in
        let is_read = fit.is_read in
        let is_allowlist = fit.is_allowlist in
        let runs = (runnable_iff mode lt).1 (rw (sym (ap (λ r. r.mode) same)) fit.runnable) in
        let guarded = (protected_iff mode lt).1 (rw (sym (ap (λ r. r.mode) same)) fit.protected) in
        ground arith,
  )
