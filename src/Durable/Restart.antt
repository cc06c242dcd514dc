-- ===== src/Durable/Restart.antt =====
-- What the durable ledger keeps from one process to the next.
use Prim.Native.String as S
use runlane.Prelude.{◌≡◌, String, none, some, List, [], ◌∷◌, ◌++◌, map, All, ok}
use runlane.Audit.{AuditEvent, AuditLedger}
use runlane.Audit.Numbering.{IsNumbered}
use runlane.Durable.{ServerStateLayout, Codec, Faults, Disk}

-- the text that an event is appended with
abbrev pub with_document : String → String → String
with_document content text = S.◌++◌ (S.◌++◌ (S.◌++◌ content "---\n") text) "\n"

-- the content of a file to which events with these texts were appended, one after the other
unfoldable pub stored_after : String → List String → String
stored_after content [] = content
stored_after content (text ∷ texts) = stored_after (with_document content text) texts

abbrev pub stored : List String → String
stored texts = stored_after "" texts

-- What is documented of the YAML of events: a stream of documents, each after a separator on a line
-- of its own and each with the text of an event, is read as these events.
pub record Lawful (codec : Codec) : Type 0 where
  pub stream :
      (event : AuditEvent) (events : List AuditEvent) (texts : List String)
      → map codec.write_event (event ∷ events) ≡ map ok texts
      → codec.documents (stored texts) ≡ map ok (event ∷ events)

-- nothing goes wrong
abbrev pub no_faults : Faults
no_faults = record {
  create_directory = none;
  create_file = none;
  read = none;
  open_file = none;
  separator = none;
  finish = none;
}

module _ (layout : ServerStateLayout) (codec : Codec) where
  -- the file of a disk is one to which the events of a numbered ledger were appended
  pub record Holds (disk : Disk) (ledger : AuditLedger) : Type 0 where
    pub texts : List String
    pub is_there : disk.content ≡ some (stored texts)
    pub numbered : IsNumbered ledger
    pub are_texts : map codec.write_event ledger.events ≡ map ok texts

  module _ (disk : Disk) (ledger : AuditLedger) (event : AuditEvent) (text : String)
      (lawful : Lawful codec) (h : Holds disk ledger)
      (written : codec.write_event event ≡ ok text) where
    -- what an append that goes through leaves
    grown : Disk
    grown = record { content = some (with_document (stored h.texts) text) }

  -- every event has a text
  abbrev pub AreWritable : List AuditEvent → Type 0
  AreWritable events = All (λ event. (text : String) × (codec.write_event event ≡ ok text)) events
