-- ===== src/Runbook/Service.antt =====
-- The service-unhealthy runbook: capabilities by operating system, and the plan.
use runlane.Prelude.{
  String, not, List, [], ◌∷◌, ◌==◌, Result, ok, err, ◌>>=◌, ◌>>◌, refuse_if, if◌then◌else◌,
}
use runlane.Text.{format}
use runlane.Domain.{
  OperatingSystem, linux, free_bsd, open_bsd, Capability, CapabilityReport, supports, system,
  exclusive, service_restart, ImpactSet, VerificationPlan,
}
use runlane.Task.{Task, new_task}
use runlane.Run.{Run, new_run}
use runlane.Analyzer.{service_resource_id}
use runlane.Verification.{minimal, plan, skip}
use runlane.Runbook.{reading_task, node_resource, extend_skipped}

pub data ServiceManagerDriver : Type 0 where
  systemd free_bsd_rc open_bsd_rcctl : ServiceManagerDriver

-- `ServiceManagerDriver::capability_id`
abbrev pub capability_id : ServiceManagerDriver → String
capability_id systemd = "service.systemd"
capability_id free_bsd_rc = "service.freebsd-rc"
capability_id open_bsd_rcctl = "service.openbsd-rcctl"

pub record ServiceUnhealthyRunbookRequest : Type 0 where
  pub run_id : String
  pub node_id : String
  pub service : String

pub record ServiceUnhealthyRunbookPlan : Type 0 where
  pub driver : ServiceManagerDriver
  pub log_capability : Capability
  pub process_capability : Capability
  pub socket_capability : Capability
  pub privilege_capability : Capability
  pub run : Run

pub data ServiceUnhealthyPlanError : Type 0 where
  -- requested node, node of the report
  node_mismatch : String → String → ServiceUnhealthyPlanError
  unsupported_operating_system : OperatingSystem → ServiceUnhealthyPlanError
  -- capability, reason
  missing_required_capability : Capability → String → ServiceUnhealthyPlanError

pub record ServiceUnhealthyCapabilities : Type 0 where
  pub driver : ServiceManagerDriver
  pub service : Capability
  pub log : Capability
  pub process : Capability
  pub socket : Capability
  pub storage : Capability
  pub privilege : Capability

-- the value for a platform of each of the three that are supported
abbrev by_os : {A : Type 0} → A → A → A → OperatingSystem → Result ServiceUnhealthyPlanError A
by_os a b c linux = ok a
by_os a b c free_bsd = ok b
by_os a b c open_bsd = ok c
by_os a b c os = err (unsupported_operating_system os)

unfoldable pub service_manager_driver_for_os :
    OperatingSystem → Result ServiceUnhealthyPlanError ServiceManagerDriver
service_manager_driver_for_os = by_os systemd free_bsd_rc open_bsd_rcctl

unfoldable pub log_capability_for_os : OperatingSystem → Result ServiceUnhealthyPlanError String
log_capability_for_os = by_os "logs.journald" "logs.syslog-file" "logs.syslog-file"

unfoldable pub process_capability_for_os : OperatingSystem → Result ServiceUnhealthyPlanError String
process_capability_for_os = by_os "process.procfs" "process.procstat" "process.ps"

unfoldable pub socket_capability_for_os : OperatingSystem → Result ServiceUnhealthyPlanError String
socket_capability_for_os = by_os "socket.ss" "socket.sockstat" "socket.fstat"

unfoldable pub privilege_capability_for_os :
    OperatingSystem → Result ServiceUnhealthyPlanError String
privilege_capability_for_os =
    by_os "privilege.sudo-helper" "privilege.sudo-helper" "privilege.doas-helper"

unfoldable pub require_reported_capability :
    CapabilityReport → String → String → Result ServiceUnhealthyPlanError Capability
require_reported_capability report id reason =
    let capability : Capability = record { name = id } in
    if supports report capability
    then ok capability
    else err (missing_required_capability capability reason)

unfoldable pub service_unhealthy_capabilities :
    CapabilityReport → Result ServiceUnhealthyPlanError ServiceUnhealthyCapabilities
service_unhealthy_capabilities report = do
  driver ← service_manager_driver_for_os report.os
  service ←
      require_reported_capability report (capability_id driver)
        "native service manager capability is required for service-unhealthy"
  log_id ← log_capability_for_os report.os
  log ←
      require_reported_capability report log_id
        "native service log capability is required for service-unhealthy"
  process_id ← process_capability_for_os report.os
  process ←
      require_reported_capability report process_id
        "native process snapshot capability is required for service-unhealthy"
  socket_id ← socket_capability_for_os report.os
  socket ←
      require_reported_capability report socket_id
        "native socket snapshot capability is required for service-unhealthy"
  storage ←
      require_reported_capability report "storage.df"
        "filesystem snapshot capability is required for service-unhealthy"
  privilege_id ← privilege_capability_for_os report.os
  privilege ←
      require_reported_capability report privilege_id
        "signed helper capability is required for service-unhealthy restart"
  ok (record {
    driver = driver;
    service = service;
    log = log;
    process = process;
    socket = socket;
    storage = storage;
    privilege = privilege;
  })

abbrev pub service_impact : ServiceUnhealthyRunbookRequest → ImpactSet
service_impact request = record {
  layer = system;
  writes = service_resource_id request.node_id request.service ∷ [];
  may_affect =
      format ("platform:on-node/" ∷ request.node_id ∷ [])
      ∷ format ("application:on-node/" ∷ request.node_id ∷ [])
      ∷ [];
  does_not_affect =
      node_resource request.node_id "package-db" ∷ node_resource request.node_id "firewall" ∷ [];
}

abbrev pub service_verification : ServiceUnhealthyRunbookRequest → VerificationPlan
service_verification request =
    extend_skipped
      (skip "package_audit"
          "service-unhealthy restart mutates only the service resource, not package-db"
        ∷ skip "firewall_audit"
            "service-unhealthy restart mutates only the service resource, not firewall rules"
        ∷ [])
      (plan minimal service_restart (service_impact request))

abbrev pub restart_task : ServiceUnhealthyRunbookRequest → ServiceUnhealthyCapabilities → Task
restart_task request c =
    let resource = service_resource_id request.node_id request.service in
    record (new_task "restart-service" system) {
      required_capabilities = c.service ∷ c.privilege ∷ [];
      reads = resource ∷ [];
      writes = resource ∷ [];
      lease_requests =
          record {
            resource_id = resource;
            mode = exclusive;
            reason = "service-unhealthy restart requires serialized service mutation";
          }
          ∷ [];
      dependencies =
          "collect-service-status" ∷ "collect-recent-logs" ∷ "collect-disk-snapshot"
          ∷ "collect-process-snapshot" ∷ "collect-socket-snapshot" ∷ [];
      impact = service_impact request;
      verification = service_verification request;
    }

abbrev pub service_tasks : ServiceUnhealthyRunbookRequest → ServiceUnhealthyCapabilities → List Task
service_tasks request c =
    reading_task "collect-service-status" (c.service ∷ [])
      (service_resource_id request.node_id request.service ∷ [])
    ∷ reading_task "collect-recent-logs" (c.log ∷ [])
        (format ("system:node/" ∷ request.node_id ∷ "/logs/" ∷ request.service ∷ []) ∷ [])
    ∷ reading_task "collect-disk-snapshot" (c.storage ∷ [])
        (node_resource request.node_id "filesystem" ∷ [])
    ∷ reading_task "collect-process-snapshot" (c.process ∷ [])
        (node_resource request.node_id "processes" ∷ [])
    ∷ reading_task "collect-socket-snapshot" (c.socket ∷ [])
        (node_resource request.node_id "sockets" ∷ [])
    ∷ restart_task request c
    ∷ []

abbrev pub service_plan :
    ServiceUnhealthyRunbookRequest → ServiceUnhealthyCapabilities → ServiceUnhealthyRunbookPlan
service_plan request c =
    let base : Run =
      new_run request.run_id
        (format ("Diagnose unhealthy service " ∷ request.service ∷ " on " ∷ request.node_id ∷ []))
        system in
    record {
      driver = c.driver;
      log_capability = c.log;
      process_capability = c.process;
      socket_capability = c.socket;
      privilege_capability = c.privilege;
      run = record base {
        tasks = service_tasks request c;
        impact = service_impact request;
        verification = service_verification request;
      };
    }

unfoldable pub plan_service_unhealthy_runbook :
    ServiceUnhealthyRunbookRequest
    → CapabilityReport
    → Result ServiceUnhealthyPlanError ServiceUnhealthyRunbookPlan
plan_service_unhealthy_runbook request report = do
  refuse_if (not (request.node_id == report.node_id)) (node_mismatch request.node_id report.node_id)
  c ← service_unhealthy_capabilities report
  ok (service_plan request c)
