-- ===== src/X402.antt =====
-- The x402 client, haba/src/lib/x402-client.ts: the challenge, the signed payment, and the retry.
mod Client
mod Stages
pub mod Splice
pub mod Protocol
pub mod Errors
unfoldable pub use Client.*
