-- ===== src/Agent/Runs.antt =====
-- What a run of the agent route has sent and answered.
use x402_token_market.Base.{
  ◌≡◌, refl, ◌⊎◌, inl, inr, Bool, true, false, Bool-cases, Option-cases, String, Option, none, some,
  List, [], ◌∷◌, eq_refl,
}
use x402_token_market.Env.{Env}
use x402_token_market.Json.{Json, get, is_truthy}
use x402_token_market.Json.Codec.{Codec, to_text}
use x402_token_market.Net.{
  Response, Reply, response, rejected, Thrown, Io, ret, throw, Outcome, done, Event, is_ok,
}
use x402_token_market.Route.{HttpResult}
use x402_token_market.Sign.{Crypto, Stamp, sign_request}
use x402_token_market.Netstars.Calls.{verifies}
use x402_token_market.Topup.{agent_keys}
use x402_token_market.Agent.{
  Prompt, tasks, pick_task, read_task, default_task, content_of, agent_ran, agent_answer,
  agent_request,
}

-- The task that is answered with is one whose prompt was sent.
abbrev pub IsTask : Codec → Json × Prompt → Type 0
IsTask c (task, prompt) = tasks (to_text c (some task)) ≡ some prompt

default_task-IsTask : (c : Codec) → IsTask c default_task
unfolding tasks
default_task-IsTask c = refl

pick_task-IsTask : (c : Codec) (v : Option Json) → IsTask c (pick_task c v)
unfolding pick_task
pick_task-IsTask c none = default_task-IsTask c
pick_task-IsTask c (some v) = elim (Option-cases (tasks (to_text c (some v)))) [
  | inl e ↦ rw (e, pick_task) (default_task-IsTask c)
  | inr (p, e) ↦ elim (Bool-cases (is_truthy (some v))) [
    | inl t ↦ rw (e, t, pick_task) e
    | inr t ↦ rw (e, t, pick_task) (default_task-IsTask c)
  ]
]

read_task-IsTask : (c : Codec) (text : String) → IsTask c (read_task c text)
unfolding read_task
read_task-IsTask c text = elim (Option-cases (c.parse text)) [
  | inl e ↦ rw (e, read_task) (default_task-IsTask c)
  | inr (v, e) ↦ rw (e, read_task) (pick_task-IsTask c (get "task" v))
]

-- A completion whose content is no text throws, and any other is answered.
abbrev Ran : Json → Json → Io HttpResult → Type 0
Ran task v m =
    ((e : Thrown) × (m ≡ throw e)) ⊎ ((stub : Bool) × (m ≡ ret (agent_answer task v stub)))

-- What is answered to each reply.
pub data Answers (c : Codec) (task : Json) : Reply → HttpResult → Type 0 where
  ran :
      (r : Response) (v : Json) (a : HttpResult)
      → is_ok r ≡ true
      → c.parse r.text ≡ some v
      → a.status ≡ 200
      → get "task" a.body ≡ some task
      → get "content" a.body ≡ some (content_of v)
      → Answers c task (response r) a
  refused :
      (r : Response) (a : HttpResult)
      → is_ok r ≡ false
      → a.status ≡ r.status
      → Answers c task (response r) a
  no_json :
      (r : Response) (a : HttpResult)
      → is_ok r ≡ true
      → c.parse r.text ≡ none
      → a.status ≡ 503
      → Answers c task (response r) a
  no_text :
      (r : Response) (v : Json) (e : Thrown) (a : HttpResult)
      → is_ok r ≡ true
      → c.parse r.text ≡ some v
      → agent_ran task v ≡ throw e
      → a.status ≡ 503
      → Answers c task (response r) a
  lost : (e : Thrown) (a : HttpResult) → a.status ≡ 503 → Answers c task (rejected e) a

module _ (c : Codec) (k : Crypto) (env : Env) (stamp : Stamp) where
  -- One signed request with the prompt of the task, and its answer.
  pub record IsRun (text : String) (t : List Event) (o : Outcome HttpResult) : Type 0 where
    pub reply : Reply
    pub answer : HttpResult
    pub task : IsTask c (read_task c text)
    pub sent : t ≡ (agent_request c k env stamp (read_task c text).1, reply) ∷ []
    pub signed :
        verifies k
          (agent_keys env).key_secret
          "/v1/messages"
          (agent_request c k env stamp (read_task c text).1)
        ≡ true
    pub returned : o ≡ done answer
    pub answered : Answers c (read_task c text).0 reply answer

  request_verifies :
      (prompt : Prompt)
      → verifies k (agent_keys env).key_secret "/v1/messages" (agent_request c k env stamp prompt)
        ≡ true
  unfolding verifies sign_request
  request_verifies prompt = eq_refl _

  abbrev run_of :
      (text : String) (reply : Reply) (a : HttpResult)
      → Answers c (read_task c text).0 reply a
      → IsRun text ((agent_request c k env stamp (read_task c text).1, reply) ∷ []) (done a)
  run_of text reply a h = record {
    reply = reply;
    answer = a;
    task = read_task-IsTask c text;
    sent = refl;
    signed = request_verifies (read_task c text).1;
    returned = refl;
    answered = h;
  }
