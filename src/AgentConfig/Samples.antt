-- ===== src/AgentConfig/Samples.antt =====
-- A configuration, its identity and a YAML that knows these two, for the tests.
use text.Mathlib.Text.{starts_with}
use runlane.Prelude.{
  nat_eq, ℕ, ◌≡◌, refl, sym, ap, String, Bool, true, false, ◌&&◌, Option, none, some, ◌==◌, eq_iff,
  inl, inr, ok, err, arith, if◌then◌else◌, Bool-cases,
}
use runlane.Domain.{open_bsd}
use runlane.AgentConfig.{AgentConfig, AgentConfigFile, AgentIdentityMetadata, AgentIdentityFile}
use runlane.AgentConfig.Checks.{to_file, identity_to_file}
use runlane.AgentConfig.State.{ConfigCodec, Host}
use runlane.AgentConfig.Written.{ReadsBack}
use runlane.AgentConfig.Nodes.{World, nodes}

abbrev pub config : AgentConfig
config = record {
  node_id = "n1";
  server_url = "https://server";
  server_trust_root_path = "/ca";
  identity_path = "/id";
  certificate_path = "/cert";
  private_key_path = "/key";
  spool_dir = "/spool";
  platform_family = open_bsd;
}

abbrev pub identity : AgentIdentityMetadata
identity = record {
  node_id = "n1";
  platform_family = open_bsd;
  certificate_fingerprint = "f";
  server_trust_root_path = "/ca";
  certificate_path = "/cert";
  private_key_path = "/key";
  enrolled_at_unix_seconds = 1;
  expires_at_unix_seconds = some 2;
}

abbrev same_file : AgentConfigFile → AgentConfigFile → Bool
same_file a b =
    a.node_id == b.node_id
    && a.server_url == b.server_url
    && a.server_trust_root_path == b.server_trust_root_path
    && a.identity_path == b.identity_path
    && a.certificate_path == b.certificate_path
    && a.private_key_path == b.private_key_path
    && a.spool_dir == b.spool_dir
    && a.platform_family == b.platform_family

same_file-same : (a b : AgentConfigFile) → same_file a b ≡ true → a ≡ b
same_file-same a b h = ground (
  arith,
  eq_iff a.node_id b.node_id,
  eq_iff a.server_url b.server_url,
  eq_iff a.server_trust_root_path b.server_trust_root_path,
  eq_iff a.identity_path b.identity_path,
  eq_iff a.certificate_path b.certificate_path,
  eq_iff a.private_key_path b.private_key_path,
  eq_iff a.spool_dir b.spool_dir,
  eq_iff a.platform_family b.platform_family,
)

abbrev same_expiry : Option ℕ → Option ℕ → Bool
same_expiry none none = true
same_expiry (some a) (some b) = nat_eq a b
same_expiry _ _ = false

same_expiry-same : (a b : Option ℕ) → same_expiry a b ≡ true → a ≡ b
same_expiry-same none none h = refl
same_expiry-same none (some b) h = absurd (ground arith)
same_expiry-same (some a) none h = absurd (ground arith)
same_expiry-same (some a) (some b) h = ground arith

abbrev same_identity : AgentIdentityFile → AgentIdentityFile → Bool
same_identity a b =
    a.node_id == b.node_id
    && a.platform_family == b.platform_family
    && a.certificate_fingerprint == b.certificate_fingerprint
    && a.server_trust_root_path == b.server_trust_root_path
    && a.certificate_path == b.certificate_path
    && a.private_key_path == b.private_key_path
    && nat_eq a.enrolled_at_unix_seconds b.enrolled_at_unix_seconds
    && same_expiry a.expires_at_unix_seconds b.expires_at_unix_seconds

same_identity-same : (a b : AgentIdentityFile) → same_identity a b ≡ true → a ≡ b
same_identity-same a b h = ground (
  arith,
  eq_iff a.node_id b.node_id,
  eq_iff a.platform_family b.platform_family,
  eq_iff a.certificate_fingerprint b.certificate_fingerprint,
  eq_iff a.server_trust_root_path b.server_trust_root_path,
  eq_iff a.certificate_path b.certificate_path,
  eq_iff a.private_key_path b.private_key_path,
  same_expiry-same a.expires_at_unix_seconds b.expires_at_unix_seconds,
)

abbrev pub codec : ConfigCodec
codec = record {
  read_config = λ text. if text == "config" then ok (to_file config) else err "not this";
  write_config = λ file. if same_file file (to_file config) then ok "config" else err "not this";
  read_identity =
      λ text. if text == "identity" then ok (identity_to_file identity) else err "not this";
  write_identity = λ file.
      if same_identity file (identity_to_file identity) then ok "identity" else err "not this";
}

pub codec-ReadsBack : ReadsBack codec
codec-ReadsBack = record {
  config = λ file text h. elim (Bool-cases (same_file file (to_file config))) [
    | inl same ↦
        let name : "config" ≡ text = ground arith in
        rw (← name) (ap ok (sym (same_file-same file (to_file config) same)))
    | inr other ↦ absurd (ground arith)
  ];
  identity = λ file text h. elim (Bool-cases (same_identity file (identity_to_file identity))) [
    | inl same ↦
        let name : "identity" ≡ text = ground arith in
        rw (← name) (ap ok (sym (same_identity-same file (identity_to_file identity) same)))
    | inr other ↦ absurd (ground arith)
  ];
}

abbrev pub is_rooted : String → Bool
is_rooted path = starts_with path "/"

abbrev pub host : Host World
host = record {
  files = nodes;
  codec = codec;
  octal = λ n. "";
  is_absolute = is_rooted;
  debug_str = λ s. s;
}
