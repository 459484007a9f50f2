-- ===== src/Examples.antt =====
-- Concrete runs: tests of the operations, and the theorems at concrete inputs.
pub mod Data
mod Repository
mod Services
mod Progress
mod Startup
mod Executors
mod Requests
mod Deployment
