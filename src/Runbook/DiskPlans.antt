-- ===== src/Runbook/DiskPlans.antt =====
-- What the disk runbook holds to, for every request and every capability report.
use runlane.Prelude.{
  String, true, ◌≡◌, ◌↔◌, refl, inl, inr, List, [], ◌∷◌, eq_iff, ok, arith, Result-cases, Option,
  none, some,
}
use runlane.Domain.{OperatingSystem, linux, free_bsd, open_bsd, CapabilityReport, supports}
use runlane.Task.{new_task, mutated_resource_ids}
use runlane.Run.{new_run}
use runlane.Runbook.Plans.{IsConfined, DependsBack, HasAll, is_ok}
use runlane.Runbook.Disk.{
  DiskPressureRunbookRequest, DiskPressureRunbookPlan, DiskPressureCapabilities,
  require_disk_pressure_capability, disk_pressure_capabilities, disk_plan,
  plan_disk_pressure_runbook, disk_pressure_log_capability_for_os,
  disk_pressure_privilege_capability_for_os,
}

-- the capabilities that the disk runbook takes from a report, on each platform
unfoldable pub disk_needs : OperatingSystem → Option (List String)
disk_needs linux = some ("storage.df" ∷ "logs.journald" ∷ "privilege.sudo-helper" ∷ [])
disk_needs free_bsd = some ("storage.df" ∷ "logs.syslog-file" ∷ "privilege.sudo-helper" ∷ [])
disk_needs open_bsd = some ("storage.df" ∷ "logs.syslog-file" ∷ "privilege.doas-helper" ∷ [])
disk_needs _ = none

-- every capability that the planner selects is one of the report's
AllSupported : CapabilityReport → DiskPressureCapabilities → Type 0
AllSupported report c =
    (supports report c.storage ≡ true)
    × (supports report c.log ≡ true)
    × (supports report c.privilege ≡ true)

disk_capabilities-AllSupported :
    (report : CapabilityReport) (c : DiskPressureCapabilities)
    → disk_pressure_capabilities report ≡ ok c
    → AllSupported report c
unfolding AllSupported disk_pressure_capabilities require_disk_pressure_capability
    disk_pressure_log_capability_for_os disk_pressure_privilege_capability_for_os
disk_capabilities-AllSupported report c h = ground arith

disk_plan-IsConfined :
    (request : DiskPressureRunbookRequest) (report : CapabilityReport)
    (c : DiskPressureCapabilities)
    → AllSupported report c
    → IsConfined report request.cleanup_resource_id (disk_plan request c).run
unfolding DependsBack mutated_resource_ids new_task new_run AllSupported
disk_plan-IsConfined request report c (storage, log, privilege) = record {
  fresh = refl;
  supported = ground arith;
  ordered = ground arith;
  distinct = ground arith;
  scoped = ground arith;
}

disk_capabilities_iff :
    (report : CapabilityReport)
    → (is_ok (disk_pressure_capabilities report) ≡ true) ↔ HasAll report (disk_needs report.os)
unfolding HasAll disk_needs disk_pressure_capabilities require_disk_pressure_capability
    disk_pressure_log_capability_for_os disk_pressure_privilege_capability_for_os
disk_capabilities_iff report = (λ h. ground arith, λ h. ground arith)

-- The disk runbook is planned exactly when the report is of the requested node, its platform is
-- one of the three that are supported, and it has every capability that the platform needs.
pub plan_disk_iff :
    (request : DiskPressureRunbookRequest) (report : CapabilityReport)
    → (is_ok (plan_disk_pressure_runbook request report) ≡ true)
      ↔ ((request.node_id ≡ report.node_id) × HasAll report (disk_needs report.os))
unfolding plan_disk_pressure_runbook
plan_disk_iff request report =
    let (to, from) = disk_capabilities_iff report in
    elim (Result-cases (disk_pressure_capabilities report)) [
      | inl (c, e) ↦ (
        λ h. (ground (arith, eq_iff request.node_id report.node_id), to (rw e refl)),
        λ (same, has). let t = (eq_iff request.node_id report.node_id).1 same in ground arith,
      )
      | inr (x, e) ↦
          (λ h. absurd (ground arith), λ (same, has). absurd (let t = from has in ground arith))
    ]

-- A disk runbook that is planned stays inside the report, and its only target is the cleanup
-- resource of the request.
pub plan_disk-IsConfined :
    (request : DiskPressureRunbookRequest) (report : CapabilityReport)
    (planned : DiskPressureRunbookPlan)
    → plan_disk_pressure_runbook request report ≡ ok planned
    → IsConfined report request.cleanup_resource_id planned.run
unfolding plan_disk_pressure_runbook
plan_disk-IsConfined request report planned h =
    elim (Result-cases (disk_pressure_capabilities report)) [
      | inl (c, e) ↦
          let made : planned ≡ disk_plan request c = ground arith in
          rw made
            (disk_plan-IsConfined request report c (disk_capabilities-AllSupported report c e))
      | inr (x, e) ↦ absurd (ground arith)
    ]
