-- ===== src/Keycloak.antt =====
-- scripts/sync-keycloak-demo-data.py: the plans that bring a live Keycloak realm to the wanted
-- configuration, and the requests that make, carry out and verify them.
pub mod Values
pub mod Mappers
pub mod Merge
pub mod KeyProvider
pub mod Clients
pub mod InSync
pub mod Distinct
pub mod Managed
pub mod Single
pub mod Additive
pub mod Changed
pub mod Request
pub mod Prepare
pub mod Apply
pub mod Main
pub mod ReadOnly
pub mod PlansFirst
pub mod Settled
pub mod Converged
pub mod Writes
pub mod Waiting
mod Tests
mod RunTests
