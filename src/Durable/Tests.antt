-- ===== src/Durable/Tests.antt =====
-- A durable ledger whose documents are one letter long.
use Prim.Native.Char.{code}
use Prim.Native.String as S
use runlane.Prelude.{
  String, Bool, true, false, ◌&&◌, some, List, [], ◌∷◌, ◌++◌, nat_eq, ◌==◌, Result, ok, err,
  if◌then◌else◌,
}
use runlane.Text.{is_whitespace}
use runlane.Audit.{AuditEvent, AuditEventKind, approval_expired}
use runlane.Durable.{ServerStateLayout, layout_of, Codec, Disk}

abbrev event : AuditEvent
event = record { id = "1"; run_id = "r"; sequence = 1; kind = approval_expired "a" }

abbrev is_kind : AuditEventKind → Bool
is_kind (approval_expired approval_id) = approval_id == "a"
is_kind _ = false

abbrev is_event : AuditEvent → Bool
is_event e = e.id == "1" && e.run_id == "r" && nat_eq e.sequence 1 && is_kind e.kind

abbrev skip :
    Bool
    → List (Result String AuditEvent)
    → List (Result String AuditEvent)
    → List (Result String AuditEvent)
skip true rest other = rest
skip false rest other = other

-- every letter x is a document
unfoldable letters : String → List (Result String AuditEvent)
letters S.[] = []
letters (S.◌∷◌ c s) =
    let rest = letters s in
    skip (is_whitespace c) rest (if nat_eq (code c) b'x' then ok event ∷ rest else rest)

abbrev codec : Codec
codec = record {
  documents = letters;
  write_event = λ e. if is_event e then ok "x" else err ("", "no letter");
}

abbrev layout : ServerStateLayout
layout = layout_of (λ path name. S.◌++◌ path (S.◌++◌ "/" name)) "state"

abbrev fresh : Disk
fresh = record { content = some "" }
