-- ===== src/TokenConsole/Pages/Calls.antt =====
-- The calls, the merchant, the proxy and the pages of the token console together.
use x402_token_market.Json.{Json}
use x402_token_market.Env.{Env}
use x402_token_market.Json.Codec.{Codec}
