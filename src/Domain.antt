-- ===== src/Domain.antt =====
-- The vocabulary of crates/runlane-core/src/lib.rs: layers, platforms, leases, impacts,
-- verification plans, typed actions and evidence. The children declare; this file passes on.
mod Layer
mod Lease
mod Impact
mod Action
mod Node
pub use Layer.*
unfoldable pub use Lease.*
pub use Impact.*
pub use Action.*
unfoldable pub use Node.*
