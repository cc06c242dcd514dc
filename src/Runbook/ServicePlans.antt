-- ===== src/Runbook/ServicePlans.antt =====
-- What the service runbook holds to, for every request and every capability report.
use runlane.Prelude.{
  String, true, ◌≡◌, ◌↔◌, refl, subst, inl, inr, List, [], ◌∷◌, eq_iff, ok, arith, Bool-cases,
  Result-cases, Option, none, some,
}
use runlane.Domain.{
  OperatingSystem, linux, free_bsd, open_bsd, Capability, CapabilityReport, supports,
}
use runlane.Task.{new_task, mutated_resource_ids}
use runlane.Run.{new_run}
use runlane.Analyzer.{service_resource_id}
use runlane.Runbook.Plans.{IsConfined, DependsBack, HasAll, is_ok}
use runlane.Runbook.Service.{
  ServiceUnhealthyRunbookRequest, ServiceUnhealthyRunbookPlan, ServiceUnhealthyCapabilities,
  require_reported_capability, service_unhealthy_capabilities, service_plan,
  plan_service_unhealthy_runbook, service_manager_driver_for_os, log_capability_for_os,
  process_capability_for_os, socket_capability_for_os, privilege_capability_for_os,
}

require-supports :
    (report : CapabilityReport) (id reason : String) (c : Capability)
    → require_reported_capability report id reason ≡ ok c
    → supports report c ≡ true
unfolding require_reported_capability
require-supports report id reason c h = elim (Bool-cases (supports report (record { name = id }))) [
  | inl e ↦ ground arith
  | inr e ↦ absurd (ground arith)
]

-- every capability that the planner selects is one of the report's
pub AllSupported : CapabilityReport → ServiceUnhealthyCapabilities → Type 0
AllSupported report c =
    (supports report c.service ≡ true)
    × (supports report c.log ≡ true)
    × (supports report c.process ≡ true)
    × (supports report c.socket ≡ true)
    × (supports report c.storage ≡ true)
    × (supports report c.privilege ≡ true)

capabilities-AllSupported :
    (report : CapabilityReport) (c : ServiceUnhealthyCapabilities)
    → service_unhealthy_capabilities report ≡ ok c
    → AllSupported report c
unfolding AllSupported service_unhealthy_capabilities require_reported_capability
    service_manager_driver_for_os log_capability_for_os process_capability_for_os
    socket_capability_for_os privilege_capability_for_os
capabilities-AllSupported report c h = ground arith

plan-IsConfined :
    (request : ServiceUnhealthyRunbookRequest) (report : CapabilityReport)
    (c : ServiceUnhealthyCapabilities)
    → AllSupported report c
    → IsConfined report
        (service_resource_id request.node_id request.service)
        (service_plan request c).run
unfolding DependsBack mutated_resource_ids new_task new_run AllSupported
plan-IsConfined request report c (service, log, process, socket, storage, privilege) = record {
  fresh = refl;
  supported = ground arith;
  ordered = ground arith;
  distinct = ground arith;
  scoped = ground arith;
}

-- the capabilities that the service runbook takes from a report, on each platform
unfoldable pub service_needs : OperatingSystem → Option (List String)
service_needs linux = some (
    "service.systemd" ∷ "logs.journald" ∷ "process.procfs" ∷ "socket.ss" ∷ "storage.df"
    ∷ "privilege.sudo-helper" ∷ [])
service_needs free_bsd = some (
    "service.freebsd-rc" ∷ "logs.syslog-file" ∷ "process.procstat" ∷ "socket.sockstat"
    ∷ "storage.df" ∷ "privilege.sudo-helper" ∷ [])
service_needs open_bsd = some (
    "service.openbsd-rcctl" ∷ "logs.syslog-file" ∷ "process.ps" ∷ "socket.fstat" ∷ "storage.df"
    ∷ "privilege.doas-helper" ∷ [])
service_needs _ = none

service_capabilities_iff :
    (report : CapabilityReport)
    → (is_ok (service_unhealthy_capabilities report) ≡ true)
      ↔ HasAll report (service_needs report.os)
unfolding HasAll service_needs service_unhealthy_capabilities require_reported_capability
    service_manager_driver_for_os log_capability_for_os process_capability_for_os
    socket_capability_for_os privilege_capability_for_os
service_capabilities_iff report = (λ h. ground arith, λ h. ground arith)

-- The service runbook is planned exactly when the report is of the requested node, its platform is
-- one of the three that are supported, and it has every capability that the platform needs.
pub plan_service_iff :
    (request : ServiceUnhealthyRunbookRequest) (report : CapabilityReport)
    → (is_ok (plan_service_unhealthy_runbook request report) ≡ true)
      ↔ ((request.node_id ≡ report.node_id) × HasAll report (service_needs report.os))
unfolding plan_service_unhealthy_runbook
plan_service_iff request report =
    let (to, from) = service_capabilities_iff report in
    elim (Result-cases (service_unhealthy_capabilities report)) [
      | inl (c, e) ↦ (
        λ h. (ground (arith, eq_iff request.node_id report.node_id), to (rw e refl)),
        λ (same, has). let t = (eq_iff request.node_id report.node_id).1 same in ground arith,
      )
      | inr (x, e) ↦
          (λ h. absurd (ground arith), λ (same, has). absurd (let t = from has in ground arith))
    ]

-- A service runbook that is planned stays inside the report, and its only target is the resource of
-- the service on the node that the report is of.
pub plan_service-IsConfined :
    (request : ServiceUnhealthyRunbookRequest) (report : CapabilityReport)
    (planned : ServiceUnhealthyRunbookPlan)
    → plan_service_unhealthy_runbook request report ≡ ok planned
    → IsConfined report (service_resource_id report.node_id request.service) planned.run
unfolding plan_service_unhealthy_runbook
plan_service-IsConfined request report planned h =
    elim (Result-cases (service_unhealthy_capabilities report)) [
      | inl (c, e) ↦
          let same : request.node_id ≡ report.node_id =
            ground (arith, eq_iff request.node_id report.node_id) in
          let made : planned ≡ service_plan request c = ground arith in
          rw (made) (
            subst
              (λ n.
                IsConfined report (service_resource_id n request.service)
                  (service_plan request c).run)
              same (plan-IsConfined request report c (capabilities-AllSupported report c e)))
      | inr (x, e) ↦ absurd (ground arith)
    ]
