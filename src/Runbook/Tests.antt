-- ===== src/Runbook/Tests.antt =====
-- Both runbooks on a Linux node.
use runlane.Prelude.{◌≡◌, refl, [], ◌∷◌}
use runlane.Domain.{linux, CapabilityReport, supports}
use runlane.Analyzer.{service_resource_id}
use runlane.Runbook.Service.{
  ServiceUnhealthyRunbookRequest, ServiceUnhealthyCapabilities, systemd, service_plan,
  plan_service_unhealthy_runbook, service_unhealthy_capabilities, require_reported_capability,
  service_manager_driver_for_os, log_capability_for_os, process_capability_for_os,
  socket_capability_for_os, privilege_capability_for_os,
}
use runlane.Runbook.Disk.{
  DiskPressureRunbookRequest, DiskPressureCapabilities, mount_resource_fragment,
}
use runlane.Runbook.Plans.{IsConfined}
use runlane.Runbook.ServicePlans.{plan_service-IsConfined}

abbrev report : CapabilityReport
report = record {
  node_id = "web-01";
  os = linux;
  capabilities =
      record { name = "service.systemd" }
      ∷ record { name = "logs.journald" }
      ∷ record { name = "process.procfs" }
      ∷ record { name = "socket.ss" }
      ∷ record { name = "storage.df" }
      ∷ record { name = "privilege.sudo-helper" }
      ∷ [];
  unsupported = [];
}

abbrev request : ServiceUnhealthyRunbookRequest
request = record { run_id = "run-1"; node_id = "web-01"; service = "sshd" }

abbrev found : ServiceUnhealthyCapabilities
found = record {
  driver = systemd;
  service = record { name = "service.systemd" };
  log = record { name = "logs.journald" };
  process = record { name = "process.procfs" };
  socket = record { name = "socket.ss" };
  storage = record { name = "storage.df" };
  privilege = record { name = "privilege.sudo-helper" };
}

abbrev disk_request : DiskPressureRunbookRequest
disk_request = record {
  run_id = "run-2";
  node_id = "web-01";
  mount = "/var/log/";
  cleanup_resource_id = "system:node/web-01/path/cache";
  cleanup_subject = "/var/cache";
}

abbrev disk_found : DiskPressureCapabilities
disk_found = record {
  storage = record { name = "storage.df" };
  log = record { name = "logs.journald" };
  privilege = record { name = "privilege.sudo-helper" };
}

fragment_test : mount_resource_fragment "/var/log/" ≡ "var-log"
unfolding mount_resource_fragment
fragment_test = refl

plan_service-IsConfined_example :
    IsConfined report (service_resource_id "web-01" "sshd") (service_plan request found).run
unfolding supports plan_service_unhealthy_runbook service_unhealthy_capabilities
    require_reported_capability service_manager_driver_for_os log_capability_for_os
    process_capability_for_os socket_capability_for_os privilege_capability_for_os
plan_service-IsConfined_example =
    plan_service-IsConfined request report (service_plan request found) refl
