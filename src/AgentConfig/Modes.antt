-- ===== src/AgentConfig/Modes.antt =====
-- What the checks of modes and kinds find, and that they change nothing.
use Prim.Native.Nat.{bit_and}
use runlane.Prelude.{◌≡◌, inl, inr, String, Bool, true, nat_eq, ok, arith, Result-cases}
use runlane.Prelude.Action.{◌>>◌, Finds, Finds-then}
use runlane.AgentConfig.Files.{
  Metadata, FileSystem, Octal, require_regular_file, require_directory,
  reject_group_or_other_writable, reject_group_or_other_accessible, check_config_file_permissions,
  check_secret_file_permissions,
}

-- no write by others, and no use by others
abbrev pub is_unwritable : Metadata → Bool
is_unwritable metadata = nat_eq (bit_and (bit_and metadata.st_mode 0o777) 0o022) 0

abbrev pub is_inaccessible : Metadata → Bool
is_inaccessible metadata = nat_eq (bit_and (bit_and metadata.st_mode 0o777) 0o077) 0

module _ {W : Type 0} (files : FileSystem W) (path : String) (w : W) where
  -- something is there, and it passes a test
  pub record Passes (test : Metadata → Bool) : Type 0 where
    pub metadata : Metadata
    pub is_there : files.metadata path w ≡ ok metadata
    pub fine : test metadata ≡ true

  -- a regular file that only its owner may use
  abbrev pub IsPrivate : Type 0
  IsPrivate = Passes (λ metadata. metadata.is_file) × Passes is_inaccessible

  -- a regular file that only its owner may change
  abbrev pub IsGuarded : Type 0
  IsGuarded = Passes (λ metadata. metadata.is_file) × Passes is_unwritable

  module _ (octal : Octal) where
    pub require_regular_file_iff :
        (role : String)
        → Finds
            (Passes (λ metadata. metadata.is_file))
            (require_regular_file files octal path role)
            w
    unfolding require_regular_file
    require_regular_file_iff role t = (
      λ h. elim (Result-cases (files.metadata path w)) [
        | inr (e, bad) ↦ absurd (ground arith)
        | inl (metadata, there) ↦
            (record { metadata = metadata; is_there = there; fine = ground arith }, ground arith)
      ],
      λ (passes, same). let there = passes.is_there in let fine = passes.fine in ground arith,
    )

    pub require_directory_iff :
        (role : String)
        → Finds (Passes (λ metadata. metadata.is_dir)) (require_directory files octal path role) w
    unfolding require_directory
    require_directory_iff role t = (
      λ h. elim (Result-cases (files.metadata path w)) [
        | inr (e, bad) ↦ absurd (ground arith)
        | inl (metadata, there) ↦
            (record { metadata = metadata; is_there = there; fine = ground arith }, ground arith)
      ],
      λ (passes, same). let there = passes.is_there in let fine = passes.fine in ground arith,
    )

    pub reject_group_or_other_writable_iff :
        Finds (Passes is_unwritable) (reject_group_or_other_writable files octal path) w
    unfolding reject_group_or_other_writable
    reject_group_or_other_writable_iff t = (
      λ h. elim (Result-cases (files.metadata path w)) [
        | inr (e, bad) ↦ absurd (ground arith)
        | inl (metadata, there) ↦
            (record { metadata = metadata; is_there = there; fine = ground arith }, ground arith)
      ],
      λ (passes, same). let there = passes.is_there in let fine = passes.fine in ground arith,
    )

    reject_group_or_other_accessible_iff :
        Finds (Passes is_inaccessible) (reject_group_or_other_accessible files octal path) w
    unfolding reject_group_or_other_accessible
    reject_group_or_other_accessible_iff t = (
      λ h. elim (Result-cases (files.metadata path w)) [
        | inr (e, bad) ↦ absurd (ground arith)
        | inl (metadata, there) ↦
            (record { metadata = metadata; is_there = there; fine = ground arith }, ground arith)
      ],
      λ (passes, same). let there = passes.is_there in let fine = passes.fine in ground arith,
    )

    pub guarded_iff :
        (role : String)
        → Finds IsGuarded
            (require_regular_file files octal path role
              >> reject_group_or_other_writable files octal path)
            w
    guarded_iff role =
        Finds-then (require_regular_file files octal path role)
          (reject_group_or_other_writable files octal path) w (require_regular_file_iff role)
          reject_group_or_other_writable_iff

    pub check_config_iff : Finds IsGuarded (check_config_file_permissions files octal path) w
    unfolding check_config_file_permissions
    check_config_iff = guarded_iff "agent config"

    pub check_secret_iff : Finds IsPrivate (check_secret_file_permissions files octal path) w
    unfolding check_secret_file_permissions
    check_secret_iff =
        Finds-then (require_regular_file files octal path "secret agent state")
          (reject_group_or_other_accessible files octal path) w
          (require_regular_file_iff "secret agent state") reject_group_or_other_accessible_iff
