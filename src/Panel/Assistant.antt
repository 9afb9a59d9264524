-- ===== src/Panel/Assistant.antt =====
-- The agent run of the dashboard page, haba/src/app/dashboard/page.tsx: runAgent beside the balance and the
-- top-up of the page, which go on while it runs. The content of an answer is a text, as the agent route
-- sends it.
pub mod Attended
use x402_token_market.Base.{
  ℕ, ◌+◌, ◌≡◌, Bool, true, false, leb, String, Option, none, some, ◌⊕◌, or_else, take_text,
  text_length, if◌then◌else◌,
}
use x402_token_market.Panel.{Balance, Page, set_balance}
use x402_token_market.Panel
use x402_token_market.Panel.Typing.{advance}

pub data TaskId : Type 0 where
  pricing copy logistics : TaskId

pub record Usage : Type 0 where
  pub input_tokens : ℕ
  pub output_tokens : ℕ
  pub cost_token : ℕ
  pub balance_after : Option Balance

pub record Reply : Type 0 where
  pub content : String
  pub is_stub : Bool
  pub usage : Usage

-- What is shown of an answer beside its text.
pub record Meta : Type 0 where
  pub input_tokens : ℕ
  pub output_tokens : ℕ
  pub cost_token : ℕ
  pub balance_after : Option Balance
  pub is_stub : Bool

abbrev pub meta_of : Reply → Meta
meta_of a = record {
  input_tokens = a.usage.input_tokens;
  output_tokens = a.usage.output_tokens;
  cost_token = a.usage.cost_token;
  balance_after = a.usage.balance_after;
  is_stub = a.is_stub;
}

-- Where the running call of `runAgent` stands: none, before the reply, in the typewriter effect with the
-- characters shown so far, or in the request of a balance that the answer did not bring.
pub data Stage : Type 0 where
  resting waiting : Stage
  typing : Reply → ℕ → Stage
  asking : Reply → Stage

-- The hooks of the agent run beside the page. `stage`, and the calls that were sent and have ended, are not
-- kept by the page.
pub record Desk : Type 0 where
  pub page : Page
  pub selected_task : Option TaskId
  pub agent_running : Bool
  pub agent_output : String
  pub agent_meta : Option Meta
  pub stage : Stage
  pub sent : ℕ
  pub ended : ℕ

abbrev pub opened : Desk
opened = record {
  page = Panel.opened;
  selected_task = none;
  agent_running = false;
  agent_output = "";
  agent_meta = none;
  stage = resting;
  sent = 0;
  ended = 0;
}

-- `runAgent`, up to its request.
unfoldable pub run_agent : TaskId → Desk → Desk
run_agent t d = if d.agent_running then d else record d {
  selected_task = some t;
  agent_running = true;
  agent_output = "";
  agent_meta = none;
  stage = waiting;
  sent = d.sent + 1;
}

-- The `finally`.
unfoldable pub stop_agent : Desk → Desk
stop_agent d = record d { agent_running = false; stage = resting; ended = d.ended + 1 }

-- The `catch`.
unfoldable pub agent_broken : Desk → Desk
unfolding stop_agent
agent_broken d = stop_agent (record d { agent_output = "[Error] Network error, please retry." })

-- The body of a reply out of range: no JSON, null, or an object with its `error`.
pub data Refusal : Type 0 where
  no_json null_body : Refusal
  body : Option String → Refusal

-- `err.error` of a null throws.
unfoldable pub agent_refused : Refusal → Desk → Desk
unfolding stop_agent agent_broken
agent_refused no_json d = stop_agent (record d { agent_output = "[Error] Agent call failed" })
agent_refused null_body d = agent_broken d
agent_refused (body e) d =
    stop_agent (record d { agent_output = "[Error] " ⊕ or_else e "Agent call failed" })

unfoldable pub agent_answered : Reply → Desk → Desk
agent_answered a d = record d { stage = typing a 0 }

-- What follows the typewriter effect: the answer brings the balance, or it is asked for.
unfoldable pub settle : Reply → Option Balance → Desk → Desk
unfolding stop_agent
settle a (some b) d =
    stop_agent (record d { agent_meta = some (meta_of a); page = set_balance b d.page })
settle a none d = record d { agent_meta = some (meta_of a); stage = asking a }

-- One tick of the typewriter effect, with what follows the last one.
unfoldable pub type_tick : Reply → ℕ → Desk → Desk
unfolding settle
type_tick a i d =
    let shown : Desk = record d {
      agent_output = take_text (advance i a.content) a.content;
      stage = typing a (advance i a.content);
    } in
    if leb (text_length a.content) (advance i a.content)
    then settle a a.usage.balance_after shown
    else shown

-- The end of `fetchBalance`, with a balance or without.
unfoldable pub balance_asked : Option Balance → Desk → Desk
unfolding stop_agent
balance_asked (some b) d =
    stop_agent (record d { page = set_balance b (record d.page { balance_err = false }) })
balance_asked none d = stop_agent (record d { page = record d.page { balance_err = true } })

-- What can happen, in any order: what can happen to the page, a click on a task, and the steps of the
-- call that runs.
pub data Change : Desk → Desk → Type 0 where
  turned : {q : Page} (d : Desk) → Panel.Change d.page q → Change d (record d { page = q })
  clicked : (t : TaskId) (d : Desk) → Change d (run_agent t d)
  refused : (r : Refusal) (d : Desk) → d.stage ≡ waiting → Change d (agent_refused r d)
  broken : (d : Desk) → d.stage ≡ waiting → Change d (agent_broken d)
  answered : (a : Reply) (d : Desk) → d.stage ≡ waiting → Change d (agent_answered a d)
  ticked : (a : Reply) (i : ℕ) (d : Desk) → d.stage ≡ typing a i → Change d (type_tick a i d)
  asked :
      (a : Reply) (b : Option Balance) (d : Desk)
      → d.stage ≡ asking a
      → Change d (balance_asked b d)

pub data Reaches (d : Desk) : Desk → Type 0 where
  here : Reaches d d
  next : {e f : Desk} → Reaches d e → Change e f → Reaches d f
