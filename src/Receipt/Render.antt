-- ===== src/Receipt/Render.antt =====
-- The text of a receipt.
use runlane.Prelude.{String, [], ◌∷◌, map}
use runlane.Text.{format, join}
use runlane.Domain.{
  debug_layer, ActionKind, service_restart, service_reload, package_update, node_reboot,
  run_allowlisted_script, remove_allowlisted_file, HelperActionStatus, succeeded, failed, denied,
  SkippedVerification,
}
use runlane.Receipt.{OperatorReceipt}

-- the derived `Debug` of the action and the status
abbrev debug_action : ActionKind → String
debug_action service_restart = "ServiceRestart"
debug_action service_reload = "ServiceReload"
debug_action package_update = "PackageUpdate"
debug_action node_reboot = "NodeReboot"
debug_action run_allowlisted_script = "RunAllowlistedScript"
debug_action remove_allowlisted_file = "RemoveAllowlistedFile"

abbrev debug_status : HelperActionStatus → String
debug_status succeeded = "Succeeded"
debug_status failed = "Failed"
debug_status denied = "Denied"

abbrev skipped_text : SkippedVerification → String
skipped_text skipped = format (skipped.check_id ∷ " (" ∷ skipped.reason ∷ ")" ∷ [])

unfoldable pub render_text : OperatorReceipt → String
render_text r = format (
    "run: "
    ∷ r.run_id
    ∷ "\nincident: "
    ∷ r.incident_id
    ∷ "\nnode: "
    ∷ r.node_id
    ∷ "\nlayer: "
    ∷ debug_layer r.layer
    ∷ "\nchanged: "
    ∷ join r.changed_resources ","
    ∷ "\nevidence: "
    ∷ join r.evidence_references ","
    ∷ "\nproposal: "
    ∷ r.proposal_id
    ∷ " - "
    ∷ r.hypothesis
    ∷ "\napproval: "
    ∷ r.approval_id
    ∷ "\nlease: "
    ∷ r.lease_id
    ∷ "\nhelper: "
    ∷ debug_action r.helper_action
    ∷ " "
    ∷ debug_status r.helper_status
    ∷ "\nverified: "
    ∷ join r.verification_completed ","
    ∷ "\nskipped: "
    ∷ join (map skipped_text r.skipped_checks) ","
    ∷ "\nresidual_risk: "
    ∷ r.residual_risk
    ∷ "\ntakeover: "
    ∷ r.takeover_notes
    ∷ [])
