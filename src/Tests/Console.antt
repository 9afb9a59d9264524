-- ===== src/Tests/Console.antt =====
-- The console's scenarios at concrete inputs.
use x402_token_market.Base.{[], ◌∷◌}
use x402_token_market.Json.{Json, str, object, Fields, field, end}
use x402_token_market.Console.Scenarios.{Clock}
use x402_token_market.Console.Gateway.{Answer}

abbrev clock : Clock
clock = record { stamp = "mb1"; took_first = 12; took_second = 30; took_third = 420 }

abbrev verified : Json
verified = object (("signedTxBase64", str "AA") ∷ ("userVerification", str "uv") ∷ [])

abbrev header_fields : Fields
header_fields = field "payload" (object (("signedTxBase64", str "AA") ∷ [])) end

abbrev refused : Answer
refused = record { status = 410; body = object (("error", str "EXPIRED") ∷ []); headers = [] }
