-- ===== src/Agent.antt =====
-- The agent of the enterprise dashboard, haba/src/app/api/enterprise/run-agent/route.ts: one of three
-- tasks, as a completion of the token API.
mod Tasks
unfoldable pub use Tasks.*
pub mod Runs
use x402_token_market.Base.{
  ℕ, Bool, true, false, String, Option, none, some, List, [], ◌∷◌, ◌++◌, str_eq, starts_with, ◌⊕◌,
  or_else, if◌then◌else◌,
}
use x402_token_market.Env.{Env}
use x402_token_market.Json.{
  Json, null, bool, num, str, arr, obj, whole, object, items, get, get?, first, coalesce,
}
use x402_token_market.Json.Codec.{Codec}
use x402_token_market.Net.{
  Request, Response, error, Io, ret, throw, ◌>>=◌, try, fetch, is_ok, read_json,
}
use x402_token_market.Route.{HttpResult, defined, error_text}
use x402_token_market.Sign.{Crypto, Stamp, sign_request}
use x402_token_market.Topup.{token_base, agent_keys}

-- `data?.choices?.[0]?.message?.content ?? data?.content ?? "(no content)"`
abbrev pub first_of : Option Json → Option Json
first_of none = none
first_of (some v) = first v

abbrev pub content_of : Json → Json
content_of reply =
    coalesce (get? "content" (get? "message" (first_of (get "choices" reply))))
      (coalesce (get "content" reply) (str "(no content)"))

abbrev pub is_stub_text : Option Json → Bool
is_stub_text (some (str s)) = str_eq s "stub"
is_stub_text _ = false

-- `content.startsWith("(stub")`, which only a text has.
abbrev pub stub_prefix : Json → Io Bool
stub_prefix (str s) = ret (starts_with s "(stub")
stub_prefix _ = throw (error "TypeError" "content.startsWith is not a function" none)

-- `is_stub`
abbrev pub is_stub : Json → Io Bool
is_stub reply =
    if is_stub_text (get "finish_reason" reply) then ret true else stub_prefix (content_of reply)

abbrev pub usage_json : Json → Json
usage_json usage = object (
    ("input_tokens", coalesce (get "prompt_tokens" usage) (whole 0))
    ∷ ("output_tokens", coalesce (get "completion_tokens" usage) (whole 0))
    ∷ ("cost_token", coalesce (get "tokens_consumed" usage) (whole 0))
    ∷ ("balance_after", coalesce (get "balance_after" usage) null)
    ∷ [])

-- The answer to a completion.
abbrev pub agent_answer : Json → Json → Bool → HttpResult
agent_answer task reply stub = record {
  status = 200;
  body = object (
      ("content", content_of reply)
      ∷ ("task", task)
      ∷ ("model", coalesce (get "model" reply) (str "gpt-4.1"))
      ∷ ("is_stub", bool stub)
      ∷ ("usage", usage_json (coalesce (get "usage" reply) (object [])))
      ∷ []);
}

unfoldable pub agent_ran : Json → Json → Io HttpResult
agent_ran task reply = is_stub reply >>= λ stub. ret (agent_answer task reply stub)

-- The answer to a reply: a refusal is passed on with its status.
unfoldable pub read_agent : Codec → Json → Response → Io HttpResult
read_agent c task res =
    if is_ok res
    then read_json c res >>= agent_ran task
    else ret (record {
      status = res.status;
      body = object (
          ("error", str "token-api error")
          ∷ ("detail", or_else (c.parse res.text) (object []))
          ∷ []);
    })

module _ (c : Codec) (k : Crypto) (env : Env) (stamp : Stamp) where
  -- The signed request with a prompt.
  abbrev pub agent_request : Prompt → Request
  agent_request prompt =
      let body = c.stringify (payload prompt) in
      record {
        method = "POST";
        url = token_base env ⊕ "/v1/messages";
        headers =
            sign_request k (agent_keys env) stamp "POST" "/v1/messages" body
            ++ ("Content-Type", "application/json") ∷ [];
        body = some body;
      }

  -- `POST`, on the text of the request's body.
  unfoldable pub run_agent : String → Io HttpResult
  run_agent text =
      let (task, prompt) = read_task c text in
      try (fetch (agent_request prompt) >>= read_agent c task) ret (λ e. ret (record {
        status = 503;
        body =
            object (("error", str "token-api unreachable") ∷ ("detail", str (error_text e)) ∷ []);
      }))
