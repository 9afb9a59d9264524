-- ===== src/Advice.antt =====
-- The shop's adviser, haba/src/app/api/payment/advise/route.ts: one chat completion that is charged to
-- the shop's tokens.
mod Prompt
mod Messages
unfoldable pub use Prompt.*
unfoldable pub use Messages.*
pub mod Turns
pub mod Answers
use x402_token_market.Base.{
  ℕ, true, false, ◌==◌, String, Option, none, some, List, [], ◌∷◌, str_eq, ◌⊕◌, or_else,
  if◌then◌else◌,
}
use x402_token_market.Env.{Env}
use x402_token_market.Json.{Json, null, bool, str, whole, object, get, coalesce, is_truthy}
use x402_token_market.Json.Codec.{Codec, to_text}
use x402_token_market.Net.{Thrown, error, netstars, Io, ret, ◌>>=◌, try, unless_null}
use x402_token_market.Route.{HttpResult, defined}
use x402_token_market.Sign.{Crypto, Stamp}
use x402_token_market.Netstars.{ChatMessage, ChatArgs, chat_completion}

abbrev pub refusal : String → HttpResult
refusal why = record { status = 400; body = object (("ok", bool false) ∷ ("error", str why) ∷ []) }

-- `detail`: the upstream's body, as JSON where it is JSON.
abbrev pub detail : Codec → Option String → Option Json
detail c none = none
detail c (some raw) = some (if str_eq raw "" then str raw else or_else (c.parse raw) (str raw))

-- The `catch`: 402 is passed on, any other refusal is 502, and any other exception 500.
unfoldable pub advice_failed : Codec → Thrown → HttpResult
advice_failed c (netstars status text raw) = record {
  status = if status == 402 then 402 else 502;
  body = object (
      defined (
        ("ok", some (bool false))
        ∷ ("status", some (whole status))
        ∷ ("error", some (str text))
        ∷ ("detail", detail c raw)
        ∷ []));
}
advice_failed c (error name text cause) = record {
  status = 500;
  body = object (("ok", bool false) ∷ ("error", str text) ∷ []);
}

abbrev pub advice_fields : Json → Json → List (String × Option Json)
advice_fields body r =
    ("ok", some (bool true))
    ∷ ("scenarioId", some (coalesce (get "scenarioId" body) null))
    ∷ ("content", get "content" r)
    ∷ ("finish_reason", get "finish_reason" r)
    ∷ ("provider", get "provider" r)
    ∷ ("model", get "model" r)
    ∷ ("tokens_consumed", get "tokens_consumed" (or_else (get "usage" r) null))
    ∷ ("balance_after", get "balance_after" (or_else (get "usage" r) null))
    ∷ []

-- The answer to a completion; its usage is read, and undefined has no fields.
abbrev pub advised : Json → Json → Io HttpResult
advised body r = unless_null r "content" (
    unless_null (or_else (get "usage" r) null) "tokens_consumed"
      (ret (record { status = 200; body = object (defined (advice_fields body r)) })))

-- `system`: the rules, with the hint of the request where it has one.
abbrev pub system_of : Codec → Option Json → String
system_of c hint =
    if is_truthy hint
    then haba_system_prompt ⊕ "\n\nScenario context: " ⊕ to_text c hint
    else haba_system_prompt

module _ (c : Codec) (k : Crypto) (env : Env) (stamp : Stamp) where
  -- `DEFAULT_MODEL`
  abbrev pub default_model : String
  default_model = or_else (env "HABA_ADVISOR_MODEL") "gpt-4.1"

  abbrev pub chat_args : Json → List ChatMessage → ChatArgs
  chat_args body messages = record {
    model = coalesce (get "model" body) (str default_model);
    system = some (system_of c (get "systemHint" body));
    messages = messages;
    max_tokens = some 512;
  }

  -- The `try` of `POST`.
  unfoldable pub complete : Json → List ChatMessage → Io HttpResult
  complete body messages =
      try (chat_completion c k env stamp (chat_args body messages) >>= advised body) ret
        (λ e. ret (advice_failed c e))

  -- The messages are sent if the last of them is the user's.
  abbrev pub answer : Json → List ChatMessage → Io HttpResult
  answer body messages =
      if ends_with_user messages
      then complete body messages
      else ret (refusal "user message required")

  abbrev pub advise_on : Json → Io HttpResult
  advise_on body = user_prompt (get "userPrompt" body) >>= λ prompt.
      answer body (turns (normalize_messages (get "messages" body)) prompt)

  -- `POST`, on the text of the request's body.
  unfoldable pub advise : String → Io HttpResult
  advise text = elim (c.parse text) [
    | none ↦ ret (refusal "invalid JSON body")
    | some body ↦ unless_null body "messages" (advise_on body)
  ]
