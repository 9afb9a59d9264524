-- ===== src/Console.antt =====
-- The demonstration console of the x402 gateway, netstars/x402/console/src: its client, lib/x402.ts,
-- its scenario routes, app/api/scenarios, and its page, app/page.tsx.
pub mod Gateway
pub mod Scenarios
pub mod Page
