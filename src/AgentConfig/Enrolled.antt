-- ===== src/AgentConfig/Enrolled.antt =====
-- What is read back of an identity that was installed.
use runlane.Prelude.{◌≡◌, refl, ◌∙◌, subst, inl, inr, String, ok, arith, Result-cases}
use runlane.Prelude.Action.{lift, Ends, Ends-bind, Ends-ok, lift-ok}
use runlane.AgentConfig.{AgentConfig, AgentIdentityMetadata, InstallIdentityOptions}
use runlane.AgentConfig.Checks.{
  identity_to_file, from_config, validate_shape, validate_identity_shape, from_file,
}
use runlane.AgentConfig.Files.{
  FileSystem, Octal, require_regular_file, reject_group_or_other_accessible,
  check_config_file_permissions, check_secret_file_permissions, write_yaml_restrictive,
}
use runlane.AgentConfig.State.{
  Host, validate_identity_matches_config, load_config, load_identity, validate_config_prerequisites,
  install_identity,
}
use runlane.AgentConfig.Modes.{check_config_iff}
use runlane.AgentConfig.Shapes.{from_file_iff, identity_from_file_iff}
use runlane.AgentConfig.Startup.{load-same}
use runlane.AgentConfig.Written.{HoldsSecret, Faithful, ReadsBack, Kept, write-HoldsSecret}
use runlane.AgentConfig.Installed.{from_config-shape, from_config-matches}

-- a file with the mode of a secret passes the check of a secret
secret-private :
    {W : Type 0} (files : FileSystem W) (octal : Octal) (path text : String) (w : W)
    → HoldsSecret files path text w
    → check_secret_file_permissions files octal path w ≡ (ok tt, w)
unfolding check_secret_file_permissions require_regular_file reject_group_or_other_accessible
secret-private files octal path text w h =
    let there = h.is_there in let regular = h.regular in let private = h.private in ground arith

module _ {W : Type 0} (host : Host W) where
  load_config-shape :
      (path : String) (config : AgentConfig) (w t : W)
      → load_config host path w ≡ (ok config, t)
      → validate_shape host.is_absolute config ≡ ok tt
  unfolding load_config
  load_config-shape path config w t h = elim (Result-cases (host.files.read_to_string path w)) [
    | inr (e, bad) ↦ absurd (ground arith)
    | inl (body, read) ↦ elim (Result-cases (host.codec.read_config body)) [
      | inr (e, bad) ↦ absurd (ground arith)
      | inl (file, parsed) ↦
          let accepted : from_file host.is_absolute host.debug_str file ≡ ok config =
            ground arith in
          ((from_file_iff host.is_absolute host.debug_str file config).0 accepted).1
    ]
  ]

  -- an identity whose file holds it is loaded
  load_identity-HoldsSecret :
      (path text : String) (identity : AgentIdentityMetadata) (w : W)
      → HoldsSecret host.files path text w
      → host.codec.read_identity text ≡ ok (identity_to_file identity)
      → validate_identity_shape host.is_absolute identity ≡ ok tt
      → load_identity host path w ≡ (ok identity, w)
  unfolding load_identity
  load_identity-HoldsSecret path text identity w holds parsed shaped =
      let reads = holds.reads in
      let back =
        (identity_from_file_iff host.is_absolute host.debug_str (identity_to_file identity)
            identity).1
          (refl, shaped) in
      ground arith

  module _ (options : InstallIdentityOptions) (before : W) where
    -- what an installation has done
    pub record IsInstalled (identity : AgentIdentityMetadata) (after : W) : Type 0 where
      pub config : AgentConfig
      pub loaded : load_config host options.config_path before ≡ (ok config, before)
      pub made :
          from_config config options.certificate_fingerprint options.enrolled_at_unix_seconds
            options.expires_at_unix_seconds
          ≡ ok identity
      pub kept :
          Kept host.files host.octal config.identity_path
            (host.codec.write_identity (identity_to_file identity))
            tt
            after

    install-IsInstalled :
        Faithful host.files → Ends IsInstalled (install_identity host options before)
    unfolding install_identity
    install-IsInstalled faithful =
        let Post = IsInstalled in
        let path = options.config_path in
        Ends-bind Post (check_config_file_permissions host.files host.octal path) _ before
          (λ _ t1 e1. Ends-bind Post (load_config host path) _ t1 (λ config t2 e2.
            Ends-bind Post (validate_config_prerequisites host config) _ t2 (λ _ t3 e3.
              Ends-bind Post
                (lift (
                  from_config config options.certificate_fingerprint
                    options.enrolled_at_unix_seconds options.expires_at_unix_seconds))
                _ t3
                (λ identity t4 e4.
                  let body = host.codec.write_identity (identity_to_file identity) in
                  let write =
                    write_yaml_restrictive host.files host.octal config.identity_path body
                      options.force in
                  Ends-bind Post write _ t4 (λ u t5 e5.
                    let (_, b1) = (check_config_iff host.files path before host.octal t1).0 e1 in
                    let b2 = load-same host path config t1 t2 e2 ∙ b1 in
                    record {
                      config = config;
                      loaded =
                          subst (λ s. load_config host path s ≡ (ok config, before)) b1
                            (subst (λ s. load_config host path t1 ≡ (ok config, s)) b2 e2);
                      made =
                          (lift-ok
                            (from_config config options.certificate_fingerprint
                              options.enrolled_at_unix_seconds options.expires_at_unix_seconds)
                            t3 t4 identity e4).0;
                      kept =
                          Ends-ok (Kept host.files host.octal config.identity_path body) (write t4)
                            u t5
                            (write-HoldsSecret host.files host.octal config.identity_path body
                              options.force t4 faithful)
                            e5;
                    })))))

    -- An identity that was installed agrees with the configuration that was loaded, its file passes
    -- the check of a secret, and it is what the agent loads from that file, if files and YAML are
    -- read back as they were written.
    pub install_identity-load :
        (after : W) (identity : AgentIdentityMetadata)
        → Faithful host.files
        → ReadsBack host.codec
        → install_identity host options before ≡ (ok identity, after)
        → (config : AgentConfig) × (load_config host options.config_path before
            ≡ (ok config, before))
          × (validate_identity_matches_config config identity ≡ ok tt)
          × (check_secret_file_permissions host.files host.octal config.identity_path after
              ≡ (ok tt, after))
          × (load_identity host config.identity_path after ≡ (ok identity, after))
    unfolding Kept
    install_identity-load after identity faithful codec h =
        let done =
          Ends-ok IsInstalled (install_identity host options before) identity after
            (install-IsInstalled faithful) h in
        let config = done.config in
        let fingerprint = options.certificate_fingerprint in
        let enrolled = options.enrolled_at_unix_seconds in
        let expires = options.expires_at_unix_seconds in
        let (text, written, holds) = done.kept in
        let shaped =
          from_config-shape host.is_absolute config fingerprint enrolled expires identity
            (load_config-shape options.config_path config before before done.loaded) done.made in
        (
          config,
          done.loaded,
          from_config-matches config fingerprint enrolled expires identity done.made,
          secret-private host.files host.octal config.identity_path text after holds,
          load_identity-HoldsSecret config.identity_path text identity after holds
              (codec.identity (identity_to_file identity) text written) shaped,
        )
