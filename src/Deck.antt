-- ===== src/Deck.antt =====
-- scripts/run-deck.py: the only way by which decK is started, and its gates.
pub mod Identities
pub mod Scope
pub mod Sanitize
pub mod Report
pub mod Request
pub mod Files
pub mod Receipt
pub mod Approval
pub mod Launch
pub mod Prepare
pub mod Review
pub mod Main
pub mod Entries
pub mod Order
pub mod Complete
pub mod Exact
pub mod Quiet
pub mod QuietReview
pub mod Reviewed
pub mod Unchanged
pub mod Approved
pub mod Launched
pub mod Gate
pub mod ApiGate
pub mod Named
pub mod Withheld
mod Tests
