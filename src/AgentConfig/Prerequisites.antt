-- ===== src/AgentConfig/Prerequisites.antt =====
-- What the files that a configuration names have to be.
use runlane.Prelude.{String}
use runlane.Prelude.Action.{◌>>◌, Finds, Finds-then, Finds-map}
use runlane.AgentConfig.{AgentConfig}
use runlane.AgentConfig.Files.{
  require_regular_file, require_directory, reject_group_or_other_writable,
  check_secret_file_permissions,
}
use runlane.AgentConfig.Modes.{
  Passes, IsPrivate, IsGuarded, is_unwritable, require_regular_file_iff, require_directory_iff,
  reject_group_or_other_writable_iff, check_secret_iff,
}
use runlane.AgentConfig.State.{Host, validate_config_prerequisites}

module _ {W : Type 0} (host : Host W) where
  -- the files that a configuration names, as the agent needs them
  pub record IsReady (config : AgentConfig) (w : W) : Type 0 where
    pub root_guarded : IsGuarded host.files config.server_trust_root_path w
    pub certificate_guarded : IsGuarded host.files config.certificate_path w
    pub key_private : IsPrivate host.files config.private_key_path w
    pub spool_directory : Passes host.files config.spool_dir w (λ metadata. metadata.is_dir)
    pub spool_closed : Passes host.files config.spool_dir w is_unwritable

  pub prerequisites_iff :
      (config : AgentConfig) (w : W)
      → Finds (IsReady config w) (validate_config_prerequisites host config) w
  unfolding validate_config_prerequisites
  prerequisites_iff config w =
      let files = host.files in
      let octal = host.octal in
      let root = config.server_trust_root_path in
      let certificate = config.certificate_path in
      let key = config.private_key_path in
      let spool = config.spool_dir in
      let regular = λ (path role : String). require_regular_file files octal path role in
      let unwritable = λ (path : String). reject_group_or_other_writable files octal path in
      let directory = require_directory files octal spool "agent spool directory" in
      let secret = check_secret_file_permissions files octal key in
      let m7 = directory >> unwritable spool in
      let m6 = secret >> m7 in
      let m5 = regular key "agent private key" >> m6 in
      let m4 = unwritable certificate >> m5 in
      let m3 = regular certificate "agent certificate" >> m4 in
      let m2 = unwritable root >> m3 in
      let m1 = regular root "server trust root" >> m2 in
      Finds-map m1 w
        (λ (r1, (r2, (c1, (c2, (k1, (secrecy, (s1, s2))))))). record {
          root_guarded = (r1, r2);
          certificate_guarded = (c1, c2);
          key_private = secrecy;
          spool_directory = s1;
          spool_closed = s2;
        })
        (λ ready. (
          ready.root_guarded.0,
          (
            ready.root_guarded.1,
            (
              ready.certificate_guarded.0,
              (
                ready.certificate_guarded.1,
                (
                  ready.key_private.0,
                  (ready.key_private, (ready.spool_directory, ready.spool_closed)),
                ),
              ),
            ),
          ),
        ))
        (Finds-then (regular root "server trust root") m2 w
          (require_regular_file_iff files root w octal "server trust root")
          (Finds-then (unwritable root) m3 w (reject_group_or_other_writable_iff files root w octal)
            (Finds-then (regular certificate "agent certificate") m4 w
              (require_regular_file_iff files certificate w octal "agent certificate")
              (Finds-then (unwritable certificate) m5 w
                (reject_group_or_other_writable_iff files certificate w octal)
                (Finds-then (regular key "agent private key") m6 w
                  (require_regular_file_iff files key w octal "agent private key")
                  (Finds-then secret m7 w (check_secret_iff files key w octal) (
                    Finds-then directory (unwritable spool) w
                      (require_directory_iff files spool w octal "agent spool directory")
                      (reject_group_or_other_writable_iff files spool w octal))))))))
