-- ===== src/Backend.antt =====
-- third-party-backend/app.py: the business API client behind the third-party Kong.
pub mod Config
pub mod Bearer
pub mod Project
pub mod Fetch
pub mod Server
pub mod Ready
pub mod Allowlist
pub mod Outcomes
pub mod Fixed
pub mod Gate
pub mod RoundTrip
pub mod Fixture
mod Tests
