-- ===== src/AgentConfig/Written.antt =====
-- What is read back of the files that the agent writes.
use Prim.Native.Nat.{bit_and}
use runlane.Prelude.{◌≡◌, refl, String, Bool, true, Result, ok, map_err, map_err-ok, arith}
use runlane.Prelude.Action.{
  lift, rethrow, Ends, Ends-bind, Ends-ok, Ends-of_ok, lift-ok, rethrow-ok,
}
use runlane.AgentConfig.{AgentConfigFile, AgentIdentityFile, InitConfigOptions, io, yaml}
use runlane.AgentConfig.Checks.{to_file, validate_shape}
use runlane.AgentConfig.Files.{
  Metadata, FileSystem, Octal, require_regular_file, reject_group_or_other_writable,
  check_config_file_permissions, create_parent, open_error, write_yaml_restrictive,
}
use runlane.AgentConfig.State.{ConfigCodec, Host, init_config, load_config}
use runlane.AgentConfig.Shapes.{from_file_iff}

module _ {W : Type 0} (files : FileSystem W) where
  -- a regular file with a text and with the mode of a secret
  pub record HoldsSecret (path text : String) (world : W) : Type 0 where
    pub metadata : Metadata
    pub is_there : files.metadata path world ≡ ok metadata
    pub regular : metadata.is_file ≡ true
    pub private : bit_and metadata.st_mode 0o777 ≡ 0o600
    pub reads : files.read_to_string path world ≡ ok text

  -- What is documented of the file system: a file that was opened for writing anew, written, synced
  -- and given a mode is a regular file with that text and that mode.
  pub record Faithful : Type 0 where
    pub keeps :
        (path text : String) (force : Bool) (w0 w1 w2 w3 w4 : W)
        → files.open_file path force 0o600 w0 ≡ (ok tt, w1)
        → files.write_all path text w1 ≡ (ok tt, w2)
        → files.sync_all path w2 ≡ (ok tt, w3)
        → files.set_permissions path 0o600 w3 ≡ (ok tt, w4)
        → HoldsSecret path text w4

  module _ (octal : Octal) (path : String) where
    unfoldable pub Kept : Result String String → Unit {0} → W → Type 0
    Kept body u w = (text : String) × (body ≡ ok text) × HoldsSecret path text w

    pub write-HoldsSecret :
        (body : Result String String) (force : Bool) (w0 : W)
        → Faithful
        → Ends (Kept body) (write_yaml_restrictive files octal path body force w0)
    unfolding write_yaml_restrictive Kept
    write-HoldsSecret body force w0 faithful =
        let Post = Kept body in
        Ends-bind Post (create_parent files octal (files.parent path)) _ w0 (λ _ v0 _.
          Ends-bind Post (lift (map_err (yaml path) body)) _ v0 (λ text v1 read.
            Ends-bind Post
              (rethrow (open_error files octal path) (files.open_file path force 0o600)) _ v1
              (λ _ w1 opened.
                Ends-bind Post (rethrow (io path) (files.write_all path text)) _ w1 (λ _ w2 wrote.
                  Ends-bind Post (rethrow (io path) (files.sync_all path)) _ w2 (λ _ w3 synced.
                    Ends-of_ok Post (rethrow (io path) (files.set_permissions path 0o600) w3)
                      (λ _ w4 set. (
                        text,
                        map_err-ok (yaml path) body text
                            (lift-ok (map_err (yaml path) body) v0 v1 text read).0,
                        faithful.keeps path text force v1 w1 w2 w3 w4
                            (rethrow-ok (open_error files octal path)
                              (files.open_file path force 0o600) v1 w1 tt opened)
                            (rethrow-ok (io path) (files.write_all path text) w1 w2 tt wrote)
                            (rethrow-ok (io path) (files.sync_all path) w2 w3 tt synced)
                            (rethrow-ok (io path) (files.set_permissions path 0o600) w3 w4 tt set),
                      )))))))

    -- such a file passes the check of a configuration
    secret-passes :
        (text : String) (w : W)
        → HoldsSecret path text w
        → check_config_file_permissions files octal path w ≡ (ok tt, w)
    unfolding check_config_file_permissions require_regular_file reject_group_or_other_writable
    secret-passes text w h =
        let there = h.is_there in let regular = h.regular in let private = h.private in ground arith

-- What is documented of the YAML of the configuration: what is written is read again.
pub record ReadsBack (codec : ConfigCodec) : Type 0 where
  pub config :
      (file : AgentConfigFile) (text : String)
      → codec.write_config file ≡ ok text
      → codec.read_config text ≡ ok file
  pub identity :
      (file : AgentIdentityFile) (text : String)
      → codec.write_identity file ≡ ok text
      → codec.read_identity text ≡ ok file

module _ {W : Type 0} (host : Host W) where
  -- what an initialisation leaves
  IsInitialised : InitConfigOptions → Unit {0} → W → Type 0
  IsInitialised options u w =
      (validate_shape host.is_absolute options.config ≡ ok tt)
      × Kept host.files host.octal options.config_path
          (host.codec.write_config (to_file options.config)) u w

  init-IsInitialised :
      (options : InitConfigOptions) (w0 : W)
      → Faithful host.files
      → Ends (IsInitialised options) (init_config host options w0)
  unfolding init_config IsInitialised
  init-IsInitialised options w0 faithful =
      let Post = IsInitialised options in
      let body = host.codec.write_config (to_file options.config) in
      Ends-bind Post (lift (validate_shape host.is_absolute options.config)) _ w0 (λ _ v0 shaped.
        Ends-bind Post (create_parent host.files host.octal (host.files.parent options.config_path))
          _ v0
          (λ _ v1 _.
            Ends-bind Post
              (rethrow (io options.config.spool_dir)
                (host.files.create_dir_all options.config.spool_dir))
              _ v1
              (λ _ v2 _.
                Ends-bind Post
                  (rethrow (io options.config.spool_dir)
                    (host.files.set_permissions options.config.spool_dir 0o700))
                  _ v2
                  (λ _ v3 _.
                    Ends-of_ok Post
                      (write_yaml_restrictive host.files host.octal options.config_path body
                        options.force v3)
                      (λ u w written. (
                        (lift-ok (validate_shape host.is_absolute options.config) w0 v0 tt
                            shaped).0,
                        Ends-ok (Kept host.files host.octal options.config_path body)
                            (write_yaml_restrictive host.files host.octal options.config_path body
                              options.force v3)
                            u w
                            (write-HoldsSecret host.files host.octal options.config_path body
                              options.force v3 faithful)
                            written,
                      ))))))

  -- A configuration that was initialised passes the check of its file, and is what the agent loads
  -- from it, if files and YAML are read back as they were written.
  pub init_config-load :
      (options : InitConfigOptions) (before after : W)
      → Faithful host.files
      → ReadsBack host.codec
      → init_config host options before ≡ (ok tt, after)
      → (check_config_file_permissions host.files host.octal options.config_path after
          ≡ (ok tt, after))
        × (load_config host options.config_path after ≡ (ok options.config, after))
  unfolding load_config IsInitialised Kept
  init_config-load options before after faithful codec h =
      let (shaped, (text, written, holds)) =
        Ends-ok (IsInitialised options) (init_config host options before) tt after
          (init-IsInitialised options before faithful) h in
      let reads = holds.reads in
      let parsed = codec.config (to_file options.config) text written in
      let back =
        (from_file_iff host.is_absolute host.debug_str (to_file options.config) options.config).1
          (refl, shaped) in
      (secret-passes host.files host.octal options.config_path text after holds, ground arith)
