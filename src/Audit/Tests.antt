-- ===== src/Audit/Tests.antt =====
-- The ledger at two events.
use runlane.Prelude.{◌≡◌, refl, [], ◌∷◌, ok}
use runlane.Audit.{
  AuditEvent, empty_ledger, evidence_collected, cognitive_receipt_generated, append_all,
}
use runlane.Audit.Numbering.{append_all-empty}

abbrev collected : AuditEvent
collected = record {
  id = "event-1";
  run_id = "run-1";
  sequence = 1;
  kind = evidence_collected "service_status";
}

abbrev concluded : AuditEvent
concluded = record {
  id = "event-2";
  run_id = "run-1";
  sequence = 2;
  kind = cognitive_receipt_generated "receipt-1";
}

append_all-empty_example :
    append_all (collected ∷ concluded ∷ []) empty_ledger
    ≡ (ok tt, record { events = collected ∷ concluded ∷ [] })
append_all-empty_example = (append_all-empty (collected ∷ concluded ∷ [])).1 (refl, (refl, tt))
