-- ===== src/Budget/Trigger.antt =====
-- When a gauge turns red, against what the budget page and the dashboard call the trigger of a top-up.
use x402_token_market.Base.{ℕ, ◌-◌, ◌*◌, ◌≤◌, ◌≡◌, ◌↔◌, true, arith}
use x402_token_market.Panel.{tokens, is_low}
use x402_token_market.Budget.{
  BudgetPage, danger, tone, remaining_to_trigger, budget_gauge, mock_kpi,
}

tone-danger : (used limit : ℕ) → (tone used limit ≡ danger) ↔ (80 * limit ≤ 100 * used)
unfolding tone
tone-danger used limit = (λ e. ground (arith, e), λ l. ground (arith, l))

-- The gauge of the budget is red exactly if the page says that nothing remains until the trigger, whatever
-- limit is chosen; and the dashboard takes a balance for low exactly if the gauge of what is used of its
-- limit of 1,000,000,000 tokens would be red.
pub trigger_lem :
    (p : BudgetPage) (n : ℕ)
    → ((budget_gauge p ≡ danger) ↔ (remaining_to_trigger p ≡ 0))
      × ((is_low (tokens n) ≡ true) ↔ (tone (1_000_000_000 - n) 1_000_000_000 ≡ danger))
unfolding remaining_to_trigger
trigger_lem p n =
    let red = tone-danger mock_kpi.current_budget_used p.budget_limit in
    let low = tone-danger (1_000_000_000 - n) 1_000_000_000 in
    (
      (λ e. omega (arith, red.0 e), λ e. red.1 (omega (arith, e))),
      (λ e. low.1 (ground (arith, e)), λ e. ground (arith, low.0 e)),
    )
