-- ===== src/Env.antt =====
-- The process environment, and the fallback `||` on a default; `??` is the helper `or_else`.
use x402_token_market.Base.{String, Option, none, some, str_eq, if◌then◌else◌}

-- `process.env`
abbrev pub Env : Type 0
Env = String → Option String

infixr 3 ◌||or◌
-- `a || b`: an empty text counts as unset.
abbrev pub ◌||or◌ : Option String → String → String
none ||or d = d
some s ||or d = if str_eq s "" then d else s
