-- ===== src/Advice/Answers.antt =====
-- What a run of the adviser has sent and answered, whatever the request and the token API.
use x402_token_market.Base.{
  ℕ, ◌≡◌, ◌≢◌, ◌∙◌, String, Option, none, some, List, [], ◌∷◌, last?, or_else,
}
use x402_token_market.Env.{Env}
use x402_token_market.Json.{Json, null, whole, object, get}
use x402_token_market.Json.Codec.{Codec}
use x402_token_market.Net.{Thrown, error, netstars, Cause, ret, throw, Outcome, done, failed, Event}
use x402_token_market.Route.{HttpResult, defined, lookup-defined, or_option-none}
use x402_token_market.Sign.{Crypto, Stamp}
use x402_token_market.Netstars.{user, ChatMessage}
use x402_token_market.Netstars.Calls.{messages, IsCall}
use x402_token_market.Advice.{advice_fields, chat_args, normalize_messages, user_prompt}

-- What is answered to each way that the completion can end.
pub data Completed : Outcome Json → HttpResult → Type 0 where
  answered :
      (r : Json) (v : HttpResult)
      → v.status ≡ 200
      → get "content" v.body ≡ get "content" r
      → Completed (done r) v
  unmetered :
      (r : Json) (v : HttpResult)
      → or_else (get "usage" r) null ≡ null
      → v.status ≡ 500
      → Completed (done r) v
  unpaid :
      (n : ℕ) (why : String) (raw : Option String) (v : HttpResult)
      → n ≡ 402
      → v.status ≡ 402
      → Completed (failed (netstars n why raw)) v
  declined :
      (n : ℕ) (why : String) (raw : Option String) (v : HttpResult)
      → n ≢ 402
      → v.status ≡ 502
      → get "status" v.body ≡ some (whole n)
      → Completed (failed (netstars n why raw)) v
  broken :
      (name why : String) (cause : Option Cause) (v : HttpResult)
      → v.status ≡ 500
      → Completed (failed (error name why cause)) v

-- The messages of a request: its history where one was kept, and else its prompt where that is not empty.
pub data Turned : List ChatMessage → String → List ChatMessage → Type 0 where
  history : (m : ChatMessage) (ms : List ChatMessage) (p : String) → Turned (m ∷ ms) p (m ∷ ms)
  prompted : (p : String) → p ≢ "" → Turned [] p (record { role = user; content = p } ∷ [])
  silent : Turned [] "" []

-- The last message is the user's.
abbrev pub EndsWithUser : List ChatMessage → Type 0
EndsWithUser ms = (m : ChatMessage) × (last? ms ≡ some m) × (m.role ≡ user)

content :
    (body r : Json) → get "content" (object (defined (advice_fields body r))) ≡ get "content" r
content body r = lookup-defined "content" (advice_fields body r) ∙ or_option-none (get "content" r)

module _ (c : Codec) (k : Crypto) (env : Env) (stamp : Stamp) where
  -- One signed completion of these messages, and the answer that its end calls for.
  abbrev pub Sent : Json → List ChatMessage → List Event → Outcome HttpResult → Type 0
  Sent body ms t (done v) =
      (o : Outcome Json) × IsCall c k env stamp (messages (chat_args c k env stamp body ms)) t o
      × ((chat_args c k env stamp body ms).messages ≡ ms)
      × Completed o v
  Sent body ms t (failed e) = ⊥

  -- How a run of the route can end, with what it has sent.
  pub data Advised (text : String) : List Event → Outcome HttpResult → Type 0 where
    unparsed : (v : HttpResult) → c.parse text ≡ none → v.status ≡ 400 → Advised text [] (done v)
    null_body : (e : Thrown) → c.parse text ≡ some null → Advised text [] (failed e)
    crashed :
        (body : Json) (e : Thrown)
        → c.parse text ≡ some body
        → user_prompt (get "userPrompt" body) ≡ throw e
        → Advised text [] (failed e)
    refused :
        (body : Json) (prompt : String) (ms : List ChatMessage) (v : HttpResult)
        → c.parse text ≡ some body
        → user_prompt (get "userPrompt" body) ≡ ret prompt
        → Turned (normalize_messages (get "messages" body)) prompt ms
        → ¬ (EndsWithUser ms)
        → v.status ≡ 400
        → Advised text [] (done v)
    sent :
        (body : Json) (prompt : String) (ms : List ChatMessage) {t : List Event}
        {o : Outcome HttpResult}
        → c.parse text ≡ some body
        → user_prompt (get "userPrompt" body) ≡ ret prompt
        → Turned (normalize_messages (get "messages" body)) prompt ms
        → EndsWithUser ms
        → Sent body ms t o
        → Advised text t o
