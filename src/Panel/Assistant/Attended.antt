-- ===== src/Panel/Assistant/Attended.antt =====
-- What the dashboard shows of an agent run along every order of events.
use x402_token_market.Base.{
  ℕ, ◌+◌, ◌≡◌, refl, sym, ap, ◌∙◌, inl, inr, Bool, true, false, Bool-cases, leb, String, Option,
  none, some, take_text, text_length, arith,
}
use x402_token_market.Panel.{Page, set_balance}
use x402_token_market.Panel
use x402_token_market.Panel.Typing.{advance, advance_end, take_text_all}
use x402_token_market.Panel.Assistant.{
  Desk, Reply, Meta, meta_of, Stage, resting, waiting, typing, asking, opened, run_agent,
  stop_agent, agent_broken, agent_refused, no_json, null_body, body, agent_answered, settle,
  type_tick, balance_asked, Change, turned, clicked, refused, broken, answered, ticked, asked,
  Reaches, here, next, TaskId, Refusal,
}

abbrev pub is_at_work : Stage → Bool
is_at_work resting = false
is_at_work _ = true

abbrev pub calls_at : Stage → ℕ
calls_at resting = 0
calls_at _ = 1

-- The text that belongs to a stage; what a call has left when it ended stays.
abbrev pub output_at : Stage → String → String
output_at resting left = left
output_at waiting left = ""
output_at (typing a i) left = take_text i a.content
output_at (asking a) left = a.content

abbrev pub meta_at : Stage → Option Meta → Option Meta
meta_at resting left = left
meta_at waiting left = none
meta_at (typing a i) left = none
meta_at (asking a) left = some (meta_of a)

pub record IsAttended (d : Desk) : Type 0 where
  pub page : Panel.Reaches Panel.opened d.page
  pub running : d.agent_running ≡ is_at_work d.stage
  pub single : d.sent ≡ d.ended + calls_at d.stage
  pub output : d.agent_output ≡ output_at d.stage d.agent_output
  pub meta : d.agent_meta ≡ meta_at d.stage d.agent_meta

stop_agent-IsAttended :
    (d : Desk) (q : Page) (out : String) (m : Option Meta)
    → Panel.Reaches Panel.opened q
    → d.sent ≡ d.ended + 1
    → IsAttended (stop_agent (record d { page = q; agent_output = out; agent_meta = m }))
unfolding stop_agent
stop_agent-IsAttended d q out m r e = record {
  page = r;
  running = refl;
  single = omega (arith, e);
  output = refl;
  meta = refl;
}

-- A call that has not ended is the one that is not counted as ended.
at_work :
    (d : Desk) (s : Stage) → d.stage ≡ s → calls_at s ≡ 1 → IsAttended d → d.sent ≡ d.ended + 1
at_work d s e h v = omega (arith, v.single, ap calls_at e, h)

charged :
    {p : Page} (b : Panel.Balance)
    → Panel.Reaches Panel.opened p
    → Panel.Reaches Panel.opened (set_balance b p)
charged {p} b r = Panel.Reaches.next r (Panel.Change.charged p b)

run_agent-IsAttended : (t : TaskId) (d : Desk) → IsAttended d → IsAttended (run_agent t d)
unfolding run_agent
run_agent-IsAttended t d v = elim (Bool-cases d.agent_running) [
  | inl h ↦ simp h v
  | inr h ↦ simp h (record {
    page = v.page;
    running = refl;
    single = omega (arith, v.single, idle d.stage (sym v.running ∙ h));
    output = refl;
    meta = refl;
  })
]
  where
    idle : (s : Stage) → is_at_work s ≡ false → calls_at s ≡ 0
    idle resting e = refl
    idle waiting e = absurd (cc)
    idle (typing a i) e = absurd (cc)
    idle (asking a) e = absurd (cc)

agent_refused-IsAttended :
    (r : Refusal) (d : Desk) → d.stage ≡ waiting → IsAttended d → IsAttended (agent_refused r d)
unfolding agent_refused agent_broken
agent_refused-IsAttended no_json d e v =
    stop_agent-IsAttended d d.page _ d.agent_meta v.page (at_work d _ e refl v)
agent_refused-IsAttended null_body d e v =
    stop_agent-IsAttended d d.page _ d.agent_meta v.page (at_work d _ e refl v)
agent_refused-IsAttended (body o) d e v =
    stop_agent-IsAttended d d.page _ d.agent_meta v.page (at_work d _ e refl v)

agent_answered-IsAttended :
    (a : Reply) (d : Desk) → d.stage ≡ waiting → IsAttended d → IsAttended (agent_answered a d)
unfolding agent_answered
agent_answered-IsAttended a d e v = record {
  page = v.page;
  running = v.running ∙ ap is_at_work e;
  single = at_work d _ e refl v;
  output = v.output ∙ ap (λ s. output_at s d.agent_output) e;
  meta = v.meta ∙ ap (λ s. meta_at s d.agent_meta) e;
}

-- What follows the typewriter effect, once the whole text is shown.
settle-IsAttended :
    (a : Reply) (b : Option Panel.Balance) (d : Desk) (out : String) (j : ℕ)
    → out ≡ a.content
    → d.sent ≡ d.ended + 1
    → d.agent_running ≡ true
    → Panel.Reaches Panel.opened d.page
    → IsAttended (settle a b (record d { agent_output = out; stage = typing a j }))
unfolding settle
settle-IsAttended a (some b) d out j h e g r =
    stop_agent-IsAttended (record d { stage = typing a j }) (set_balance b d.page) out
      (some (meta_of a)) (charged b r) e
settle-IsAttended a none d out j h e g r = record {
  page = r;
  running = g;
  single = e;
  output = h;
  meta = refl;
}

type_tick-IsAttended :
    (a : Reply) (i : ℕ) (d : Desk)
    → d.stage ≡ typing a i
    → IsAttended d
    → IsAttended (type_tick a i d)
unfolding type_tick
type_tick-IsAttended a i d e v =
    elim (Bool-cases (leb (text_length a.content) (advance i a.content))) [
      | inl h ↦ simp h (
          settle-IsAttended a a.usage.balance_after d _ _
            (ap (λ j. take_text j a.content) (advance_end i a.content h) ∙ take_text_all a.content)
            (at_work d _ e refl v) (v.running ∙ ap is_at_work e) v.page)
      | inr h ↦ simp h (record {
        page = v.page;
        running = v.running ∙ ap is_at_work e;
        single = at_work d _ e refl v;
        output = refl;
        meta = v.meta ∙ ap (λ s. meta_at s d.agent_meta) e;
      })
    ]

balance_asked-IsAttended :
    (a : Reply) (b : Option Panel.Balance) (d : Desk)
    → d.stage ≡ asking a
    → IsAttended d
    → IsAttended (balance_asked b d)
unfolding balance_asked
balance_asked-IsAttended a (some b) d e v =
    stop_agent-IsAttended d _ d.agent_output d.agent_meta
      (Panel.Reaches.next v.page (Panel.Change.polled d.page b)) (at_work d _ e refl v)
balance_asked-IsAttended a none d e v =
    stop_agent-IsAttended d _ d.agent_output d.agent_meta
      (Panel.Reaches.next v.page (Panel.Change.poll_failed d.page)) (at_work d _ e refl v)

Change-IsAttended : {d e : Desk} → Change d e → IsAttended d → IsAttended e
unfolding agent_broken
Change-IsAttended (turned d c) v = record {
  page = Panel.Reaches.next v.page c;
  running = v.running;
  single = v.single;
  output = v.output;
  meta = v.meta;
}
Change-IsAttended (clicked t d) v = run_agent-IsAttended t d v
Change-IsAttended (refused r d e) v = agent_refused-IsAttended r d e v
Change-IsAttended (broken d e) v =
    stop_agent-IsAttended d d.page _ d.agent_meta v.page (at_work d _ e refl v)
Change-IsAttended (answered a d e) v = agent_answered-IsAttended a d e v
Change-IsAttended (ticked a i d e) v = type_tick-IsAttended a i d e v
Change-IsAttended (asked a b d e) v = balance_asked-IsAttended a b d e v

-- Along every order of events of the dashboard, the balance, the top-up and its gate go on as events of the
-- page without the agent lead to; at most one call of the agent is in flight, exactly while the page
-- says so; and while it is, the page shows nothing before the reply, then a beginning of its text without
-- figures, and the whole text with its figures while it asks for a balance that the reply did not bring.
pub Reaches-IsAttended : {d : Desk} → Reaches opened d → IsAttended d
Reaches-IsAttended here = record {
  page = Panel.Reaches.here;
  running = refl;
  single = omega arith;
  output = refl;
  meta = refl;
}
Reaches-IsAttended (next r c) = Change-IsAttended c (Reaches-IsAttended r)
