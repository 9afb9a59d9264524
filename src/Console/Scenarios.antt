-- ===== src/Console/Scenarios.antt =====
-- The scenario routes of the console, netstars/x402/console/src/app/api/scenarios: a payment that goes
-- through, and four attempts that the gateway is meant to refuse.
mod Rounds
mod Attempts
unfoldable pub use Rounds.*
unfoldable pub use Attempts.*
pub mod Verdicts
pub mod Resending
pub mod Inputs
pub mod All
