-- ===== src/Lib.antt =====
-- The core of runlane: a control plane that runs operational work on nodes through typed tasks,
-- explicit leases, approvals bound to one action, and a privileged helper that checks everything
-- again. The paths below are from the repository's root.
--
-- Parts and files
--   Domain, and its children, has the vocabulary of crates/runlane-core/src/lib.rs: layers,
--     lease modes and their compatibility, impacts, verification plans, typed actions, lease claims,
--     capability reports and evidence. Task has `Task` and what it requests and mutates.
--   Run has the run's lifecycle (`Run`, `RunState`, `is_valid_run_transition`).
--   Scheduler has `SchedulerSnapshot::decide_task`: whether a task may run beside the active leases.
--   Audit has `AuditLedger`, the numbered log that the stores below append to.
--   Analyzer has crates/runlane-core/src/analyzer.rs: proposals from evidence, and their validation.
--   Approval has crates/runlane-core/src/approval.rs: the store of approvals, each bound to one
--     action of a proposal; an approval gives the claims of a capability lease.
--   Protocol has the task envelopes and result submissions of lib.rs, and the agent's checks.
--   Runtime has crates/runlane-core/src/runtime.rs: the control plane that enrols agents, hands out
--     tasks and takes results.
--   Helper has `validate_helper_request` and the allowlist of lib.rs: the last check before a
--     privileged action. Helper/Approved joins it to the approvals.
--   Verification has `VerificationPlanner` of lib.rs: the checks that an action needs and skips.
--   Telegram has crates/runlane-core/src/telegram.rs: approvals by chat message, over Approval.
--   Runbook has the two runbook planners of lib.rs, over Task, Run and Verification.
--   Fleet has the overlays of lib.rs that resolve to a node's desired intent.
--   Receipt has crates/runlane-core/src/receipt.rs: an operator's receipt from the audit ledger.
--   HelperProcess has crates/runlane-helper/src/main.rs: the command lines of the privileged process,
--     its documents, its preflight and its dry run, over Helper. Yaml has what it uses of serde_yaml.
--   Http has crates/runlane-server/src/http.rs: the handlers of the server's routes, over Runtime.
--   FleetRepository has crates/runlane-core/src/fleet.rs: the documents of a fleet repository, their
--     checks, the search for runtime fields and loading, over Fleet.
--   Durable has crates/runlane-core/src/durable.rs: the audit ledger in its file, over Audit and
--     Receipt.
--   AgentConfig has crates/runlane-agent/src/config.rs: the agent's configuration and identity, their
--     shapes, files and modes on Unix, and what a start of the agent checks.
--   Prelude has the helpers that the others share, Text the operations on strings.
--
-- Correspondence
--   A struct is a record with the source's field names, an enum a data type with its variants. A
--   method on `&mut self` that returns a `Result` is an action, a function from the state to the
--   result and the next state (Prelude/Action), so what was written before an error stays written. A
--   method that only reads is a function. Derived equality is a Boolean function per type; a `new` or
--   `with_` builder is a record expression. `impl Into<String>` and references are left out.
--   Vectors are lists; `position`, `find`, `any`, `retain` and `remove` are the functions of
--   Prelude/Lists, by recursion. Every loop is over a list or a text. The two option loops of the helper
--   process run on fuel, as much as there are arguments: each pass takes one at least. The search for
--   runtime fields in a YAML value has the depth of the value as fuel.
--   A `u64` or `u32` is a natural number; text is read as one with the check on overflow that Rust
--   has. The modelled code compares times and adds one to the length of a vector, which stays below
--   2^64; a decimal is printed with at most 20 digits, enough for a `u64`.
--   An `i64` (a chat id) is only compared, and is an integer without bounds. A `BTreeMap` is the list
--   of its entries in the order of their keys; `sort_by_key` is a stable insertion sort.
--   `format!` is the concatenation of its pieces. Lower case is that of ASCII, as in the source.
--   Sequences of calls on a store or on the control plane are lists of calls (Approval/Lifecycle,
--   Runtime/Steps), with a step relation for what one call can do.
--
-- Parameters
--   What the program takes from other packages and from the system is an argument of the definitions:
--   the reader and the accessors of YAML values, the header map of HTTP requests, the file system
--   with the state it works on, the walk over a directory, the typed reading of documents by serde, the
--   YAML of the agent's files, and the escapes that `{:?}` writes in a text. Each is instantiated in
--   the tests.
--
-- Not modelled
--   Signatures are opaque: the helper gets a status from the cryptographic layer, and so does the
--   model. Serialization, sockets, native commands and printing are effects outside. The agent's
--   probes, the other command lines and the end-to-end scenarios are not part of the development, nor
--   are the causes of errors (`Error::source`) and the data types of lib.rs that no modelled operation
--   uses (`Resource`, `CognitiveReceipt`, `CapabilityFailure`). How YAML reads a ledger file that something
--   else than appends has made, such as one whose last line is not ended, is left open.
pub mod Prelude
pub mod Text
pub mod Domain
pub mod Task
pub mod Run
pub mod Scheduler
pub mod Audit
pub mod Analyzer
pub mod Approval
pub mod Protocol
pub mod Runtime
pub mod Helper
pub mod Verification
pub mod Telegram
pub mod Fleet
pub mod Runbook
pub mod Receipt
pub mod Yaml
pub mod HelperProcess
pub mod Http
pub mod FleetRepository
pub mod Durable
pub mod AgentConfig
