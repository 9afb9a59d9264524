-- ===== src/Console/Scenarios/All.antt =====
-- The scenario routes of the console together.
use x402_token_market.Env.{Env}
use x402_token_market.Json.{Json}
use x402_token_market.Json.Codec.{Codec}
