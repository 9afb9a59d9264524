-- ===== src/Dashboard/Routes.antt =====
-- The ledger routes of the dashboard together.
use x402_token_market.Env.{Env}
use x402_token_market.Json.Codec.{Codec}
