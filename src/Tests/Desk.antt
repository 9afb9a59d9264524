-- ===== src/Tests/Desk.antt =====
-- The dashboard with its agent, the invoices and the rows of the token console at concrete inputs.
use x402_token_market.Base.{
  ◌+◌, ◌-◌, ◌<◌, ◌≤◌, ◌≡◌, ◌↔◌, refl, ◌==◌, true, false, not, ◌&&◌, String, none, some, List, [],
  ◌∷◌, length, map, filter, All, or_else, show, show_from, if◌then◌else◌, arith,
}
use x402_token_market.Panel.{tokens, is_low}
use x402_token_market.Panel.Assistant
use x402_token_market.Panel.Assistant.{
  Desk, Reply, run_agent, agent_answered, type_tick, clicked, answered, ticked,
}
use x402_token_market.Panel.Assistant.Attended.{IsAttended, Reaches-IsAttended}
use x402_token_market.Mock.{InvoiceRow, issued, Calendar}
use x402_token_market.Mock.Keys.{get_audit_mock}
use x402_token_market.Mock.Platform.{BillingLineItem, get_model_breakdown}
use x402_token_market.Invoicing.{grouped_from, grouped, csv_lines, item_line}
use x402_token_market.Invoicing.Fields.{commas, fields, csv_lem}
use x402_token_market.Invoicing.Notice.{passes, pass, show_toast, passes_lem}
use x402_token_market.Invoicing.Notice
use x402_token_market.TokenPages.Audit.{Query, audit_page, is_wanted, audit_page_lem}
use x402_token_market.TokenPages.Legend.{visible, clicks, is_odd, pressed, clicks_lem}
use x402_token_market.Budget
use x402_token_market.Budget.{
  BudgetPage, set_token_limit, set_budget_limit, Tone, danger, tone, remaining_to_trigger,
  budget_gauge, trend_route, trend_week,
}
use x402_token_market.Budget.Trigger.{trigger_lem}
use x402_token_market.Console.Page.{Page, Scenario, replay, click}
use x402_token_market.Console.Page
use x402_token_market.Console.Page.Buttons.{is_disabled, click-is_disabled}
use x402_token_market.Console.Page.Timeline.{
  Event, timeline, count, is_proof, is_settled, is_broken, is_waiting, size, explorer_link,
  timeline_lem,
}

abbrev reply : Reply
reply = record {
  content = "Buy 6";
  is_stub = false;
  usage = record {
    input_tokens = 3;
    output_tokens = 4;
    cost_token = 12;
    balance_after = some (tokens 900_000_000);
  };
}

abbrev waiting_desk : Desk
waiting_desk = run_agent Assistant.TaskId.pricing Assistant.opened

abbrev typing_desk : Desk
typing_desk = agent_answered reply waiting_desk

typing_Reaches : Assistant.Reaches Assistant.opened (type_tick reply 0 typing_desk)
unfolding run_agent agent_answered
typing_Reaches =
    Assistant.next
      (Assistant.next
        (Assistant.next Assistant.here (clicked Assistant.TaskId.pricing Assistant.opened))
        (answered reply waiting_desk refl))
      (ticked reply 0 typing_desk refl)

Reaches-IsAttended_example : IsAttended (type_tick reply 0 typing_desk)
Reaches-IsAttended_example = Reaches-IsAttended typing_Reaches

abbrev june : InvoiceRow
june = record {
  period = "2026/06";
  id = "inv_202606_00012";
  total_jpy = 234_500;
  status = issued;
  tx_count = 22;
  call_count = 18_420;
}

abbrev gpt : BillingLineItem
gpt = record {
  model = "GPT-4o";
  tokens = 149_900_000;
  unit_rate_per_million = 1_000;
  amount = 149_900;
}

csv_lem_example :
    (All (λ l. fields l ≡ 2) (csv_lines show june)
      ↔ ((commas (show 234_500) ≡ 0) × (commas (show 18_420) ≡ 0)))
    × (All (λ l. fields l ≡ 2) (csv_lines grouped june) ↔ ((234_500 < 1000) × (18_420 < 1000)))
    × ((fields (item_line gpt) ≡ 4) ↔ ((1_000 < 100_000) × (149_900 < 100_000)))
csv_lem_example = csv_lem show june gpt refl refl refl

-- In English, the sample invoice has a total that is split into two fields.
split_total : map fields (csv_lines grouped june) ≡ 2 ∷ 2 ∷ 3 ∷ 2 ∷ 3 ∷ 2 ∷ []
unfolding csv_lines grouped_from show show_from
split_total = refl

passes_lem_example :
    ((passes 4000 Notice.opened).toast_msg ≡ none)
    × ((passes
          (4000 - 3000)
          (show_toast "second" (passes 3000 (show_toast "first" Notice.opened)))).toast_msg
        ≡ none)
passes_lem_example = passes_lem "first" "second" 3000 Notice.here (omega arith) (omega arith)

abbrev fixed : Calendar
fixed = record {
  year = λ _. 2026;
  month = λ _. 0;
  day = λ _. 2;
  iso = λ _. "2026-01-02T00:00:00.000Z";
  weekday = λ _. 5;
}

abbrev of_system : Query
of_system = record { trace = some "tr_1"; actor = some "system"; action = none }

audit_page_lem_example :
    audit_page fixed 1_767_312_000_000 7 of_system
    ≡ filter
        (λ r. is_wanted (some "system") r.actor && is_wanted none r.action)
        (get_audit_mock fixed 60 1_767_312_000_000 7).0
audit_page_lem_example = audit_page_lem fixed 1_767_312_000_000 7 of_system

abbrev clicked_models : List String
clicked_models = "Claude" ∷ "GPT-4o" ∷ "Claude" ∷ []

clicks_lem_example :
    (visible (clicks clicked_models []) get_model_breakdown
      ≡ filter (λ d. not (is_odd d.model clicked_models)) get_model_breakdown)
    × (map (pressed (clicks clicked_models [])) get_model_breakdown
        ≡ map (λ d. not (is_odd d.model clicked_models)) get_model_breakdown)
clicks_lem_example = clicks_lem clicked_models get_model_breakdown

-- With a limit of 1,000 dollars, of which 2,847 are used.
abbrev tight : BudgetPage
tight = set_budget_limit 1_000 (set_token_limit 1_000_000_000 Budget.opened)

tight_is_red : budget_gauge tight ≡ danger
unfolding tone
tight_is_red = refl

trigger_lem_example :
    ((budget_gauge tight ≡ danger) ↔ (remaining_to_trigger tight ≡ 0))
    × ((is_low (tokens 200_000_000) ≡ true)
        ↔ (tone (1_000_000_000 - 200_000_000) 1_000_000_000 ≡ danger))
trigger_lem_example = trigger_lem tight 200_000_000

weekly : (trend_route (λ i. 400_000) (some "week")).points ≡ trend_week
unfolding trend_route
weekly = refl

click-is_disabled_example :
    length (click replay Page.opened).asked
    ≡ length Page.opened.asked + (if is_disabled Page.opened replay then 0 else 1)
click-is_disabled_example = click-is_disabled replay Page.opened

abbrev order : Event
order = record {
  order_id = "ord_1";
  resource = "http://x402-api:8080/v1/protected/checkout/order";
  network = "solana-devnet";
  status = "confirmed";
  status_reason = none;
  tx_hash = some "5KJpBd7Qabcdef";
  nonce = "a1b2c3d4e5f6";
  confirmed_at = some "2026-06-03T14:32:00Z";
  proofs = none;
}

timeline_lem_example :
    (count is_proof (timeline order) ≡ length (or_else order.proofs []))
    × (count is_settled (timeline order) ≡ size (explorer_link none order))
    × (count is_settled (timeline order) + count is_broken (timeline order) ≤ 1)
    × (count is_waiting (timeline order) ≡ (if length (or_else order.proofs []) == 0 then 1 else 0))
timeline_lem_example = timeline_lem none order
