-- ===== src/Json/Codec.antt =====
-- The text codecs of the JavaScript runtime, which the source calls and does not implement:
-- `JSON.parse` (`none` where it throws, with the message of its error), `JSON.stringify`, Base64 by
-- `Buffer`, `String(v)` of a value that is no text, and `toLocaleString` of a whole number.
use x402_token_market.Base.{ℕ, ◌≡◌, true, false, String, Option, none, some}
use x402_token_market.Json.{Json, bool, null, str}

pub record Codec : Type 0 where
  pub parse : String → Option Json
  pub syntax_error : String → String
  pub stringify : Json → String
  pub decode64 : String → String
  pub encode64 : String → String
  pub display : Json → String
  pub locale_number : ℕ → String

-- `String(v)`, which a template or a header applies to what it is given.
abbrev pub to_text : Codec → Option Json → String
to_text c none = "undefined"
to_text c (some (str s)) = s
to_text c (some null) = "null"
to_text c (some (bool true)) = "true"
to_text c (some (bool false)) = "false"
to_text c (some v) = c.display v

-- Reading back what was written gives the value: of one JSON value, and of one text in Base64.
abbrev pub Restores : Codec → Json → Type 0
Restores c v = c.parse (c.decode64 (c.encode64 (c.stringify v))) ≡ some v
