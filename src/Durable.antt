-- ===== src/Durable.antt =====
-- The durable audit ledger of the server, crates/runlane-core/src/durable.rs. The YAML of events and
-- what the file system refuses are parameters; the state is the content of the ledger's file.
pub mod Restart
mod Tests
use Prim.Native.String as S
use runlane.Prelude.{
  ℕ, String, Bool, not, Option, none, some, List, [], ◌∷◌, nat_eq, Result, ok, err, map_err,
  if◌then◌else◌,
}
use runlane.Prelude.Action.{Action, ◌>>=◌, ◌>>◌, pure, lift, gets, modify, reject_if}
use runlane.Text.{format, show_u64, is_blank}
use runlane.Audit.{
  AuditEvent, AuditLedger, empty_ledger, AuditAppendError, non_monotonic_sequence, next_sequence,
  append,
}
use runlane.Receipt.{ReceiptError, missing_event, OperatorReceipt, generate_operator_receipt}

pub record ServerStateLayout : Type 0 where
  pub root : String
  pub ledger_dir : String
  pub audit_ledger : String

-- `ServerStateLayout::new`, over `Path::join`
abbrev pub layout_of : (String → String → String) → String → ServerStateLayout
layout_of join_path root = record {
  root = root;
  ledger_dir = join_path root "ledger";
  audit_ledger = join_path (join_path root "ledger") "audit.yaml";
}

pub data DurableStateError : Type 0 where
  -- path
  missing_ledger : String → DurableStateError
  -- path, operation, message
  io : String → String → String → DurableStateError
  -- path, message
  corrupt_ledger corrupt_write : String → String → DurableStateError
  append_failed : AuditAppendError → DurableStateError
  receipt_failed : ReceiptError → DurableStateError

abbrev debug_append : AuditAppendError → String
debug_append (non_monotonic_sequence expected actual) = format (
    "NonMonotonicSequence { expected: "
    ∷ show_u64 expected
    ∷ ", actual: "
    ∷ show_u64 actual
    ∷ " }"
    ∷ [])

-- the names of events in a receipt's error have nothing that `{:?}` escapes
abbrev debug_receipt : ReceiptError → String
debug_receipt (missing_event name) = format ("MissingEvent(\"" ∷ name ∷ "\")" ∷ [])

-- `Display`
unfoldable pub display : DurableStateError → String
display (missing_ledger path) = format ("missing audit ledger: " ∷ path ∷ [])
display (io path operation message) =
    format ("failed to " ∷ operation ∷ " at " ∷ path ∷ ": " ∷ message ∷ [])
display (corrupt_ledger path message) =
    format ("corrupt audit ledger " ∷ path ∷ ": " ∷ message ∷ [])
display (corrupt_write path message) =
    format ("failed to serialize audit event to " ∷ path ∷ ": " ∷ message ∷ [])
display (append_failed error) = format ("append-only ledger violation: " ∷ debug_append error ∷ [])
display (receipt_failed error) = format ("receipt generation failed: " ∷ debug_receipt error ∷ [])

-- `serde_yaml` on audit events: the documents of a text, each read as an event or refused, and the
-- text of an event, or what was written of it before it failed, and why
pub record Codec : Type 0 where
  pub documents : String → List (Result String AuditEvent)
  pub write_event : AuditEvent → Result (String × String) String

-- a write that fails has a part of the text that it wrote, and a message
abbrev pub WriteFault : Type 0
WriteFault = Option (String × String)

-- what the file system refuses during a call, with its message
pub record Faults : Type 0 where
  pub create_directory : Option String
  pub create_file : Option String
  pub read : Option String
  pub open_file : Option String
  pub separator : WriteFault
  pub finish : WriteFault

-- the file of the ledger: its content, where it is there
pub record Disk : Type 0 where
  pub content : Option String

abbrev pub content_of : Option String → String
content_of none = ""
content_of (some content) = content

abbrev pub extend : String → Disk → Disk
extend text disk = record { content = some (S.◌++◌ (content_of disk.content) text) }

-- a write at the end of the file
abbrev pub write :
    String → WriteFault → (String → DurableStateError) → Action Disk DurableStateError Unit
write text none failure disk = (ok tt, extend text disk)
write text (some (part, message)) failure disk = (err (failure message), extend part disk)

abbrev refused : Option String → (String → DurableStateError) → Action Disk DurableStateError Unit
refused none failure disk = (ok tt, disk)
refused (some message) failure disk = (err (failure message), disk)

module _ (layout : ServerStateLayout) (codec : Codec) where
  abbrev pub io_error : String → String → DurableStateError
  io_error operation message = io layout.audit_ledger operation message

  -- the loop of `load_ledger`
  unfoldable pub replay :
      List (Result String AuditEvent) → AuditLedger → Result DurableStateError AuditLedger
  replay [] ledger = ok ledger
  replay (err message ∷ rest) ledger = err (corrupt_ledger layout.audit_ledger message)
  replay (ok event ∷ rest) ledger =
      let (done, next) = append event ledger in
      let later = replay rest next in
      elim done as (λ _. Result DurableStateError AuditLedger) [
        | ok _ ↦ later
        | err e ↦ err (append_failed e)
      ]

  abbrev read_content : Option String → String → Result DurableStateError AuditLedger
  read_content (some message) content = err (io_error "read audit ledger" message)
  read_content none content =
      let replayed = replay (codec.documents content) empty_ledger in
      if is_blank content then ok empty_ledger else replayed

  unfoldable pub load_ledger : Faults → Disk → Result DurableStateError AuditLedger
  load_ledger faults disk = elim disk.content as (λ _. Result DurableStateError AuditLedger) [
    | none ↦ err (missing_ledger layout.audit_ledger)
    | some content ↦ read_content faults.read content
  ]

  -- `LocalServerState::init`: the file is created unless it is there
  unfoldable pub init : Faults → Action Disk DurableStateError Unit
  init faults = do
    refused faults.create_directory
        (λ message. io layout.ledger_dir "create ledger directory" message)
    refused faults.create_file (io_error "create audit ledger")
    modify (λ disk. record { content = some (content_of disk.content) })

  -- the write of an event, which `to_writer` may give up
  abbrev pub write_document : Result (String × String) String → Action Disk DurableStateError Unit
  write_document (ok text) = write text none (corrupt_write layout.audit_ledger)
  write_document (err fault) = write "" (some fault) (corrupt_write layout.audit_ledger)

  unfoldable pub append_event : Faults → AuditEvent → Action Disk DurableStateError Unit
  append_event faults event = do
    ledger ← λ disk. (load_ledger faults disk, disk)
    reject_if (not (nat_eq event.sequence (next_sequence ledger)))
        (append_failed (non_monotonic_sequence (next_sequence ledger) event.sequence))
    refused faults.open_file (io_error "open audit ledger for append")
    write "---\n" faults.separator (io_error "write audit document separator")
    write_document (codec.write_event event)
    write "\n" faults.finish (io_error "finish audit document")

  -- the loop of `append_ledger`
  unfoldable pub append_events : Faults → List AuditEvent → Action Disk DurableStateError Unit
  append_events faults [] = pure tt
  append_events faults (event ∷ rest) = do append_event faults event; append_events faults rest

  abbrev pub append_ledger : Faults → AuditLedger → Action Disk DurableStateError Unit
  append_ledger faults ledger = append_events faults ledger.events

  unfoldable pub render_receipt : Faults → String → Disk → Result DurableStateError OperatorReceipt
  render_receipt faults run_id disk =
      elim (load_ledger faults disk) as (λ _. Result DurableStateError OperatorReceipt) [
        | ok ledger ↦ map_err receipt_failed (generate_operator_receipt run_id ledger)
        | err e ↦ err e
      ]
