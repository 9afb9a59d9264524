-- ===== src/WeaConsole/Order.antt =====
-- What the page shows along every order of clicks, answers and polls.
use mathlib.Core.List
use x402_token_market.Base.{
  ℕ, ◌+◌, ◌≡◌, refl, ap, ◌∙◌, Option, none, some, List, [], ◌∷◌, length, arith,
}
use x402_token_market.Feed.{poll_once}
use x402_token_market.Feed.Arrivals.{
  fed, fed_lem, last_log, last_metrics, last_live, log_shown, metrics_shown,
}
use x402_token_market.WeaConsole.{
  WeaPage, Scenario, ScenarioResult, opened, polled, run_while, run_scenario, answer, fail, Change,
  clicked, ended, broke, refreshed, Reaches, here, next,
}

abbrev pub in_flight : Option Scenario → ℕ
in_flight none = 0
in_flight (some s) = 1

-- The result that is to be seen: none while a scenario runs, and else that of the last that ended.
abbrev pub settled : Option Scenario → List (Option ScenarioResult) → Option ScenarioResult
settled (some s) rs = none
settled none [] = none
settled none (r ∷ rs) = r

pub record IsCurrent (p : WeaPage) : Type 0 where
  pub calls : p.feed.entries ≡ log_shown List.reverse (last_log p.polls)
  pub metrics : p.feed.metrics ≡ metrics_shown (last_metrics p.polls)
  pub live : p.feed.live ≡ last_live p.polls
  pub single : length p.asked ≡ length p.outcomes + in_flight p.running
  pub shown : p.result ≡ settled p.running p.outcomes

-- The same with the feed as the polls make it.
record Follows (p : WeaPage) : Type 0 where
  feed : p.feed ≡ fed List.reverse p.polls
  single : length p.asked ≡ length p.outcomes + in_flight p.running
  shown : p.result ≡ settled p.running p.outcomes

run_scenario-Follows : (s : Scenario) (p : WeaPage) → Follows p → Follows (run_scenario s p)
unfolding run_while
run_scenario-Follows s p v = go p.running refl
  where
    go : (o : Option Scenario) → p.running ≡ o → Follows (run_while o s p)
    go (some r) e = v
    go none e = record {
      feed = v.feed;
      single = omega (arith, v.single, ap in_flight e);
      shown = refl;
    }

answer-Follows :
    (s : Scenario) (r : Option ScenarioResult) (p : WeaPage)
    → p.running ≡ some s
    → Follows p
    → Follows (answer r p)
unfolding answer
answer-Follows s r p e v = record {
  feed = v.feed;
  single = omega (arith, v.single, ap in_flight e);
  shown = refl;
}

Change-Follows : {p q : WeaPage} → Change p q → Follows p → Follows q
unfolding polled fail
Change-Follows (clicked s p) v = run_scenario-Follows s p v
Change-Follows (ended s r p e) v = answer-Follows s r p e v
Change-Follows (broke s why p e) v = answer-Follows s _ p e v
Change-Follows (refreshed q p) v = record {
  feed = ap (poll_once List.reverse q) v.feed;
  single = v.single;
  shown = v.shown;
}

Reaches-Follows : {p : WeaPage} → Reaches opened p → Follows p
Reaches-Follows here = record { feed = refl; single = omega arith; shown = refl }
Reaches-Follows (next r c) = Change-Follows c (Reaches-Follows r)

-- Along every order of clicks, answers and polls, the page shows the calls of the last log that could be
-- read, the newest first, and the last metrics that could, none where these were null; it calls the facilitator live exactly if the
-- last poll was whole, or there was none; at most one scenario is in flight, and the result that is shown
-- is that of the last scenario that ended, and none while one runs.
pub Reaches-IsCurrent : {p : WeaPage} → Reaches opened p → IsCurrent p
Reaches-IsCurrent {p} r =
    let v = Reaches-Follows r in
    let e : p.feed ≡ _ = v.feed ∙ fed_lem List.reverse p.polls in
    record {
      calls = ap (λ f. f.entries) e;
      metrics = ap (λ f. f.metrics) e;
      live = ap (λ f. f.live) e;
      single = v.single;
      shown = v.shown;
    }
