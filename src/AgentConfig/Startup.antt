-- ===== src/AgentConfig/Startup.antt =====
-- What an agent that starts has checked.
use runlane.Prelude.{◌↔◌, ◌≡◌, sym, ap, subst, inl, inr, String, not, ok, arith, Result-cases}
use runlane.Prelude.Action.{Action, ◌>>=◌, ◌>>◌, pure, check_iff, bind_iff, Finds, lift, reject_if}
use runlane.Domain.{OperatingSystem, os_eq, os_eq_iff}
use runlane.AgentConfig.{
  AgentConfigError, AgentConfig, AgentIdentityMetadata, AgentState, platform_mismatch,
}
use runlane.AgentConfig.Files.{check_config_file_permissions, check_secret_file_permissions}
use runlane.AgentConfig.Modes.{IsPrivate, IsGuarded, check_config_iff, check_secret_iff}
use runlane.AgentConfig.State.{
  Host, validate_identity_matches_config, load_config, load_identity, validate_config_prerequisites,
  validate_agent_state,
}
use runlane.AgentConfig.Matching.{Matches, validate_identity_iff}
use runlane.AgentConfig.Prerequisites.{IsReady, prerequisites_iff}

module _ {W : Type 0} (host : Host W) where
  pub load-same :
      (path : String) (config : AgentConfig) (w t : W)
      → load_config host path w ≡ (ok config, t)
      → t ≡ w
  unfolding load_config
  load-same path config w t h = elim (Result-cases (host.files.read_to_string path w)) [
    | inr (e, bad) ↦ absurd (ground arith)
    | inl (body, read) ↦ elim (Result-cases (host.codec.read_config body)) [
      | inr (e, bad) ↦ absurd (ground arith)
      | inl (file, parsed) ↦ ground arith
    ]
  ]

  identity-same :
      (path : String) (identity : AgentIdentityMetadata) (w t : W)
      → load_identity host path w ≡ (ok identity, t)
      → t ≡ w
  unfolding load_identity
  identity-same path identity w t h = elim (Result-cases (host.files.read_to_string path w)) [
    | inr (e, bad) ↦ absurd (ground arith)
    | inl (body, read) ↦ elim (Result-cases (host.codec.read_identity body)) [
      | inr (e, bad) ↦ absurd (ground arith)
      | inl (file, parsed) ↦ ground arith
    ]
  ]

  -- what a start has found
  pub record Started (path : String) (detected : OperatingSystem) (w : W) (state : AgentState)
      : Type 0 where
    pub config_guarded : IsGuarded host.files path w
    pub config_loaded : load_config host path w ≡ (ok state.config, w)
    pub ready : IsReady host state.config w
    pub platform : state.config.platform_family ≡ detected
    pub identity_private : IsPrivate host.files state.config.identity_path w
    pub identity_loaded : load_identity host state.config.identity_path w ≡ (ok state.identity, w)
    pub matching : Matches state.config state.identity

  platform_iff :
      (config : AgentConfig) (detected : OperatingSystem) (w : W)
      → Finds
          (config.platform_family ≡ detected)
          (reject_if
            (not (os_eq config.platform_family detected))
            (platform_mismatch config.platform_family detected))
          w
  platform_iff config detected w t = (
    λ h.
        ((os_eq_iff config.platform_family detected).0 (ground arith), sym (ap (λ done. done.1) h)),
    λ (same, back). let equal = (os_eq_iff config.platform_family detected).1 same in ground arith,
  )

  matching_iff :
      (config : AgentConfig) (identity : AgentIdentityMetadata) (w : W)
      → Finds (Matches config identity) (lift (validate_identity_matches_config config identity)) w
  matching_iff config identity w t = (
    λ h. (
      (validate_identity_iff config identity).0 (ap (λ done. done.0) h),
      sym (ap (λ done. done.1) h),
    ),
    λ (matches, back). let fine = (validate_identity_iff config identity).1 matches in ground arith,
  )

  -- the steps of a start after the loading of the identity, and of the configuration
  abbrev matched : AgentConfig → AgentIdentityMetadata → Action W AgentConfigError AgentState
  matched config identity =
      lift (validate_identity_matches_config config identity)
      >> pure (record { config = config; identity = identity })

  -- An agent starts exactly when its configuration file is one that only its owner may change and
  -- loads, the trust root and the certificate are files that only their owner may change, the private
  -- key and the identity files that only their owner may use, the spool a directory that only its
  -- owner may change, the configuration is for the platform that was detected, and the identity
  -- loads and agrees with the configuration in node, platform and paths. A start changes nothing.
  pub validate_agent_state_iff :
      (path : String) (detected : OperatingSystem) (before after : W) (state : AgentState)
      → (validate_agent_state host path detected before ≡ (ok state, after))
        ↔ (Started path detected before state × (after ≡ before))
  unfolding validate_agent_state
  validate_agent_state_iff path detected before after state =
      let files = host.files in
      let octal = host.octal in
      let reject = λ (config : AgentConfig).
        reject_if (not (os_eq config.platform_family detected))
          (platform_mismatch config.platform_family detected) in
      let m4 =
        λ (config : AgentConfig). load_identity host config.identity_path >>= matched config in
      let m3 = λ (config : AgentConfig).
        check_secret_file_permissions files octal config.identity_path >> m4 config in
      let m2 = λ (config : AgentConfig). reject config >> m3 config in
      let m1 = λ (config : AgentConfig). validate_config_prerequisites host config >> m2 config in
      let m0 = load_config host path >>= m1 in
      let check = check_config_file_permissions files octal path in
      let first =
        check_iff check m0 before after state (check_config_iff files path before octal) in
      let second =
        bind_iff (load_config host path) m1 before after state
          (λ config t h. load-same path config before t h) in
      let third = λ (config : AgentConfig).
        check_iff (validate_config_prerequisites host config) (m2 config) before after state
          (prerequisites_iff host config before) in
      let fourth = λ (config : AgentConfig).
        check_iff (reject config) (m3 config) before after state
          (platform_iff config detected before) in
      let fifth = λ (config : AgentConfig).
        check_iff (check_secret_file_permissions files octal config.identity_path) (m4 config)
          before after state (check_secret_iff files config.identity_path before octal) in
      let sixth = λ (config : AgentConfig).
        bind_iff (load_identity host config.identity_path) (matched config) before after state
          (λ identity t h. identity-same config.identity_path identity before t h) in
      let seventh = λ (config : AgentConfig) (identity : AgentIdentityMetadata).
        check_iff (lift (validate_identity_matches_config config identity))
          (pure (record { config = config; identity = identity })) before after state
          (matching_iff config identity before) in
      (
        λ h.
            let (guarded, h) = first.0 h in
            let (config, loaded, h) = second.0 h in
            let (ready, h) = (third config).0 h in
            let (platform, h) = (fourth config).0 h in
            let (private, h) = (fifth config).0 h in
            let (identity, known, h) = (sixth config).0 h in
            let (matches, h) = (seventh config identity).0 h in
            let same : record { config = config; identity = identity } ≡ state = ground arith in
            (
              subst (Started path detected before) same (record {
                config_guarded = guarded;
                config_loaded = loaded;
                ready = ready;
                platform = platform;
                identity_private = private;
                identity_loaded = known;
                matching = matches;
              }),
              sym (ap (λ done. done.1) h),
            ),
        λ (started, same).
            let config = state.config in
            let identity = state.identity in
            first.1 (
              started.config_guarded,
              second.1 (
                config,
                started.config_loaded,
                (third config).1 (
                  started.ready,
                  (fourth config).1 (
                    started.platform,
                    (fifth config).1 (
                      started.identity_private,
                      (sixth config).1 (
                        identity,
                        started.identity_loaded,
                        (seventh config identity).1
                            (started.matching, ap (λ t. (ok state, t)) (sym same)),
                      ),
                    ),
                  ),
                ),
              ),
            ),
      )
