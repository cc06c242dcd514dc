-- ===== src/Runbook/Disk.antt =====
-- The disk-pressure runbook: capabilities by operating system, and the plan.
use Prim.Native.Char.{Char, code}
use Prim.Native.String as S
use runlane.Prelude.{
  String, Bool, not, ◌&&◌, List, [], ◌∷◌, ◌==◌, nat_eq, Result, ok, err, ◌>>=◌, ◌>>◌, refuse_if,
  if◌then◌else◌,
}
use runlane.Text.{format}
use runlane.Domain.{
  OperatingSystem, linux, free_bsd, open_bsd, Capability, CapabilityReport, supports, system,
  exclusive, remove_allowlisted_file, ImpactSet, VerificationPlan,
}
use runlane.Task.{Task, new_task}
use runlane.Run.{Run, new_run}
use runlane.Verification.{minimal, plan, skip}
use runlane.Runbook.{reading_task, node_resource, extend_skipped}

pub record DiskPressureRunbookRequest : Type 0 where
  pub run_id : String
  pub node_id : String
  pub mount : String
  pub cleanup_resource_id : String
  pub cleanup_subject : String

pub record DiskPressureRunbookPlan : Type 0 where
  pub storage_capability : Capability
  pub log_capability : Capability
  pub privilege_capability : Capability
  pub run : Run

pub data DiskPressurePlanError : Type 0 where
  -- requested node, node of the report
  node_mismatch : String → String → DiskPressurePlanError
  unsupported_operating_system : OperatingSystem → DiskPressurePlanError
  -- capability, reason
  missing_required_capability : Capability → String → DiskPressurePlanError

pub record DiskPressureCapabilities : Type 0 where
  pub storage : Capability
  pub log : Capability
  pub privilege : Capability

unfoldable pub disk_pressure_log_capability_for_os :
    OperatingSystem → Result DiskPressurePlanError String
disk_pressure_log_capability_for_os linux = ok "logs.journald"
disk_pressure_log_capability_for_os free_bsd = ok "logs.syslog-file"
disk_pressure_log_capability_for_os open_bsd = ok "logs.syslog-file"
disk_pressure_log_capability_for_os os = err (unsupported_operating_system os)

unfoldable pub disk_pressure_privilege_capability_for_os :
    OperatingSystem → Result DiskPressurePlanError String
disk_pressure_privilege_capability_for_os linux = ok "privilege.sudo-helper"
disk_pressure_privilege_capability_for_os free_bsd = ok "privilege.sudo-helper"
disk_pressure_privilege_capability_for_os open_bsd = ok "privilege.doas-helper"
disk_pressure_privilege_capability_for_os os = err (unsupported_operating_system os)

unfoldable pub require_disk_pressure_capability :
    CapabilityReport → String → String → Result DiskPressurePlanError Capability
require_disk_pressure_capability report id reason =
    let capability : Capability = record { name = id } in
    if supports report capability
    then ok capability
    else err (missing_required_capability capability reason)

unfoldable pub disk_pressure_capabilities :
    CapabilityReport → Result DiskPressurePlanError DiskPressureCapabilities
disk_pressure_capabilities report = do
  storage ←
      require_disk_pressure_capability report "storage.df"
        "filesystem snapshot capability is required for disk-pressure"
  log_id ← disk_pressure_log_capability_for_os report.os
  log ←
      require_disk_pressure_capability report log_id
        "recent log capability is required for disk-pressure context"
  privilege_id ← disk_pressure_privilege_capability_for_os report.os
  privilege ←
      require_disk_pressure_capability report privilege_id
        "signed helper capability is required for allowlisted cleanup"
  ok (record { storage = storage; log = log; privilege = privilege })

abbrev is_slash : Char → Bool
is_slash c = nat_eq (code c) b'/'

-- the two halves of `trim_matches('/')`
trim_start : String → String
trim_start S.[] = S.[]
trim_start (S.◌∷◌ c s) = let rest = trim_start s in if is_slash c then rest else S.◌∷◌ c s

trim_end : String → String
trim_end S.[] = S.[]
trim_end (S.◌∷◌ c s) =
    let rest = trim_end s in if is_slash c && rest == "" then S.[] else S.◌∷◌ c rest

-- `replace('/', "-")`
dash_slashes : String → String
dash_slashes S.[] = S.[]
dash_slashes (S.◌∷◌ c s) =
    let rest = dash_slashes s in S.◌∷◌ (if is_slash c then S.char_at "-" 0 else c) rest

unfoldable pub mount_resource_fragment : String → String
unfolding trim_start trim_end dash_slashes
mount_resource_fragment mount =
    if mount == "/" then "root" else dash_slashes (trim_end (trim_start mount))

abbrev pub filesystem_resource : DiskPressureRunbookRequest → String
filesystem_resource request =
    format (
      "system:node/"
      ∷ request.node_id
      ∷ "/filesystem/"
      ∷ mount_resource_fragment request.mount
      ∷ [])

abbrev pub disk_impact : DiskPressureRunbookRequest → ImpactSet
disk_impact request = record {
  layer = system;
  writes = request.cleanup_resource_id ∷ [];
  may_affect = filesystem_resource request ∷ [];
  does_not_affect =
      node_resource request.node_id "package-db"
      ∷ node_resource request.node_id "firewall"
      ∷ node_resource request.node_id "path/etc"
      ∷ [];
}

abbrev pub disk_verification : DiskPressureRunbookRequest → VerificationPlan
disk_verification request =
    extend_skipped
      (skip "package_audit" "disk-pressure cleanup removes only an allowlisted path, not package-db"
        ∷ skip "firewall_audit" "disk-pressure cleanup does not mutate firewall rules"
        ∷ [])
      (plan minimal remove_allowlisted_file (disk_impact request))

abbrev pub cleanup_task : DiskPressureRunbookRequest → DiskPressureCapabilities → Task
cleanup_task request c = record (new_task "cleanup-allowlisted-path" system) {
  required_capabilities = c.privilege ∷ [];
  reads = request.cleanup_resource_id ∷ [];
  writes = request.cleanup_resource_id ∷ [];
  lease_requests =
      record {
        resource_id = request.cleanup_resource_id;
        mode = exclusive;
        reason = "disk-pressure cleanup requires serialized path mutation";
      }
      ∷ [];
  dependencies =
      "collect-disk-usage" ∷ "collect-cleanup-candidate" ∷ "collect-disk-pressure-logs"
      ∷ "collect-pre-action-snapshot" ∷ [];
  impact = disk_impact request;
  verification = disk_verification request;
}

abbrev pub disk_tasks : DiskPressureRunbookRequest → DiskPressureCapabilities → List Task
disk_tasks request c =
    reading_task "collect-disk-usage" (c.storage ∷ []) (filesystem_resource request ∷ [])
    ∷ reading_task "collect-cleanup-candidate" (c.storage ∷ []) (request.cleanup_resource_id ∷ [])
    ∷ reading_task "collect-disk-pressure-logs" (c.log ∷ [])
        (node_resource request.node_id "logs/disk-pressure" ∷ [])
    ∷ reading_task "collect-pre-action-snapshot" (c.storage ∷ [])
        (filesystem_resource request ∷ request.cleanup_resource_id ∷ [])
    ∷ cleanup_task request c
    ∷ []

abbrev pub disk_plan :
    DiskPressureRunbookRequest → DiskPressureCapabilities → DiskPressureRunbookPlan
disk_plan request c =
    let base : Run =
      new_run request.run_id
        (format (
          "Resolve disk pressure on " ∷ request.node_id ∷ " " ∷ request.mount ∷ " by cleaning "
          ∷ request.cleanup_subject ∷ []))
        system in
    record {
      storage_capability = c.storage;
      log_capability = c.log;
      privilege_capability = c.privilege;
      run = record base {
        tasks = disk_tasks request c;
        impact = disk_impact request;
        verification = disk_verification request;
      };
    }

unfoldable pub plan_disk_pressure_runbook :
    DiskPressureRunbookRequest
    → CapabilityReport
    → Result DiskPressurePlanError DiskPressureRunbookPlan
plan_disk_pressure_runbook request report = do
  refuse_if (not (request.node_id == report.node_id)) (node_mismatch request.node_id report.node_id)
  c ← disk_pressure_capabilities report
  ok (disk_plan request c)
