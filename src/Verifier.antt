-- ===== src/Verifier.antt =====
-- pop-verifier/app.py: the upstream verifier behind the API Gateway.
pub mod Config
pub mod Compare
pub mod Certificates
pub mod Token
pub mod Evidence
pub mod Server
pub mod Binding
pub mod Claims
pub mod Peer
pub mod Authorization
pub mod Startup
pub mod Forwarded
pub mod Fixture
mod Tests
