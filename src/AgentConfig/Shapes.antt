-- ===== src/AgentConfig/Shapes.antt =====
-- Which configurations and identities are accepted, and how they stand in their files.
use text.Mathlib.Text.{starts_with}
use runlane.Prelude.{
  ◌≡◌, ◌↔◌, refl, ap, inl, inr, String, Bool, true, not, List, eq_iff, ok, for_each, then_iff,
  refuse_if_iff, tests_iff, arith, All, Result-cases,
}
use runlane.Domain.{OperatingSystem, linux, free_bsd, open_bsd, solaris, illumos, unknown}
use runlane.AgentConfig.{
  AgentConfig, AgentConfigFile, AgentIdentityMetadata, AgentIdentityFile, invalid_field,
  parse_operating_system, format_operating_system,
}
use runlane.AgentConfig.Checks.{
  validate_node_id, is_startup_platform, to_file, identity_to_file, configured, identified,
  refuse_relative, config_paths, validate_shape, validate_identity_shape, from_file,
  identity_from_file,
}

pub parse-format :
    (debug_str : String → String) (os : OperatingSystem)
    → parse_operating_system debug_str (format_operating_system os) ≡ ok os
unfolding parse_operating_system
parse-format debug_str linux = refl
parse-format debug_str free_bsd = refl
parse-format debug_str open_bsd = refl
parse-format debug_str solaris = refl
parse-format debug_str illumos = refl
parse-format debug_str unknown = refl

format-parse :
    (debug_str : String → String) (value : String) (os : OperatingSystem)
    → parse_operating_system debug_str value ≡ ok os
    → value ≡ format_operating_system os
unfolding parse_operating_system
format-parse debug_str value os h = ground (
  arith,
  eq_iff value "linux",
  eq_iff value "freebsd",
  eq_iff value "openbsd",
  eq_iff value "solaris",
  eq_iff value "illumos",
  eq_iff value "unknown",
)

module _ (is_absolute : String → Bool) where
  pub refuse_relative-All :
      (reason : String) (paths : List (String × String))
      → (for_each (refuse_relative is_absolute reason) paths ≡ ok tt)
        ↔ All (λ path. is_absolute path.1 ≡ true) paths
  refuse_relative-All reason paths =
      tests_iff (λ path. is_absolute path.1) (λ path. invalid_field path.0 reason) paths

  -- what a configuration has to be
  pub record IsStartable (config : AgentConfig) : Type 0 where
    pub node_fine : validate_node_id config.node_id ≡ ok tt
    pub secure : starts_with config.server_url "https://" ≡ true
    pub platform : is_startup_platform config.platform_family ≡ true
    pub absolute : All (λ path. is_absolute path.1 ≡ true) (config_paths config)

  -- The shape of a configuration is accepted exactly when its node id is, its server is reached by
  -- https, its platform is one that the agent starts on, and its five paths are absolute.
  pub validate_shape_iff :
      (config : AgentConfig) → (validate_shape is_absolute config ≡ ok tt) ↔ IsStartable config
  unfolding validate_shape
  validate_shape_iff config = (
    λ h.
        let (node, h) = (then_iff _ _ tt).0 h in
        let (secure, h) = (then_iff _ _ tt).0 h in
        let (platform, paths) = (then_iff _ _ tt).0 h in
        record {
          node_fine = node;
          secure =
              ground (
                arith,
                (refuse_if_iff (not (starts_with config.server_url "https://")) _).0 secure,
              );
          platform = ground (
            arith,
            (refuse_if_iff (not (is_startup_platform config.platform_family)) _).0 platform,
          );
          absolute = (refuse_relative-All _ (config_paths config)).0 paths;
        },
    λ fine.
        let node = fine.node_fine in
        let secure = fine.secure in
        let platform = fine.platform in
        let paths =
          (refuse_relative-All "must be an absolute path so startup does not depend on cwd"
              (config_paths config)).1
            fine.absolute in
        ground arith,
  )

module _ (is_absolute : String → Bool) (debug_str : String → String) where
  -- A configuration is read from its file exactly when the file is the one that is written for it
  -- and its shape is accepted.
  pub from_file_iff :
      (file : AgentConfigFile) (config : AgentConfig)
      → (from_file is_absolute debug_str file ≡ ok config)
        ↔ ((file ≡ to_file config) × (validate_shape is_absolute config ≡ ok tt))
  unfolding from_file
  from_file_iff file config = (
    λ h. elim (Result-cases (parse_operating_system debug_str file.platform_family)) [
      | inr (e, bad) ↦ absurd (ground arith)
      | inl (os, parsed) ↦
          let written = format-parse debug_str file.platform_family os parsed in
          elim (Result-cases (validate_shape is_absolute (configured file os))) [
            | inr (e, bad) ↦ absurd (ground arith)
            | inl (u, fine) ↦
                let same : configured file os ≡ config = ground arith in
                rw (← same) (ap (λ name. record file { platform_family = name }) written, fine)
          ]
    ],
    λ (same, fine).
        rw same (let parsed = parse-format debug_str config.platform_family in ground arith),
  )

  -- An identity is read from its file exactly when the file is the one that is written for it and
  -- its shape is accepted.
  pub identity_from_file_iff :
      (file : AgentIdentityFile) (identity : AgentIdentityMetadata)
      → (identity_from_file is_absolute debug_str file ≡ ok identity) ↔ (
          (file ≡ identity_to_file identity)
          × (validate_identity_shape is_absolute identity ≡ ok tt))
  unfolding identity_from_file
  identity_from_file_iff file identity = (
    λ h. elim (Result-cases (parse_operating_system debug_str file.platform_family)) [
      | inr (e, bad) ↦ absurd (ground arith)
      | inl (os, parsed) ↦
          let written = format-parse debug_str file.platform_family os parsed in
          elim (Result-cases (validate_identity_shape is_absolute (identified file os))) [
            | inr (e, bad) ↦ absurd (ground arith)
            | inl (u, fine) ↦
                let same : identified file os ≡ identity = ground arith in
                rw (← same) (ap (λ name. record file { platform_family = name }) written, fine)
          ]
    ],
    λ (same, fine).
        rw same (let parsed = parse-format debug_str identity.platform_family in ground arith),
  )
