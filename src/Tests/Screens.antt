-- ===== src/Tests/Screens.antt =====
-- The explorer, the consoles and the pages of the token console at concrete inputs.
use x402_token_market.Base.{
  ◌+◌, ◌-◌, ◌%◌, ◌≡◌, refl, true, false, none, some, [], ◌∷◌, ◌++◌, map, if◌then◌else◌,
}
use x402_token_market.Explorer.{
  Explorer, opened, fire, tick_effect, choose_speed, choose_recipe, quadruple, refund, sped, fired,
  Reaches, here, next, looks, looks_from, look, plain, current, past, ahead,
}
use x402_token_market.Explorer.Timeline.{IsShown, fires, fires_lem}
use x402_token_market.Explorer.Picture.{copies, explorer_lem}
use x402_token_market.Feed.{refused, received, Poll, poll_once, take_log, take_metrics}
use x402_token_market.WeaConsole
use x402_token_market.WeaConsole.{
  WeaPage, CallRecord, Metrics, direct_verify, run_scenario, run_while, polled,
}
use x402_token_market.WeaConsole.View.{
  call_card, is_devnet, strip_origin, after_scheme, after_prefix, strip_host, after_host,
}
use x402_token_market.WeaConsole.Order.{IsCurrent, Reaches-IsCurrent}

-- Motion is reduced, the refund is chosen in vain, motion is allowed again, the speed is raised, and the
-- timer goes off.
abbrev quick : Explorer
quick = choose_speed quadruple (opened true)

quick-Reaches : Reaches (opened true) (fire quick)
unfolding choose_speed tick_effect
quick-Reaches = next (next here (sped quadruple (opened true))) (fired 225 quick refl)

fires_lem_example :
    fires 8 (fire quick) ≡ record (fire quick) { active_step = ((fire quick).active_step + 8) % 8 }
unfolding fire choose_speed tick_effect
fires_lem_example = fires_lem 8 quick-Reaches refl refl

explorer_lem_example :
    IsShown (fire quick)
    × (looks (fire quick) ≡ (
        if (fire quick).reduced_motion
        then copies 8 plain
        else copies (fire quick).active_step past
          ++ current ∷ copies (7 - (fire quick).active_step) ahead))
explorer_lem_example = explorer_lem quick-Reaches

second_step : looks (fire quick) ≡ past ∷ current ∷ copies 6 ahead
unfolding looks fire choose_speed tick_effect looks_from look
second_step = refl

no_refund : choose_recipe refund quick ≡ quick
unfolding choose_recipe
no_refund = refl

abbrev devnet_call : CallRecord
devnet_call = record {
  kind = WeaConsole.verify;
  started_at = "2026-06-03T14:32:00Z";
  took_ms = 12;
  network = "solana-devnet";
  amount_usdc_micro = 100_000;
  pay_to = "5dHabcdefghijklmnop2hYz";
  payer = none;
  resource = "http://x402-api:8080/v1/protected/checkout/order";
  nonce = none;
  ok = true;
  error_reason = none;
  tx_hash = some "5KJpBd7Q";
  had_user_verification = false;
}

-- A verification is asked for, and a poll brings two calls while the metrics are refused.
abbrev two_calls : Poll CallRecord Metrics
two_calls = record {
  log = received (some (devnet_call ∷ record devnet_call { took_ms = 40 } ∷ []));
  numbers = refused;
}

abbrev asked : WeaPage
asked = run_scenario direct_verify WeaConsole.opened

asked_Reaches : WeaConsole.Reaches WeaConsole.opened (polled two_calls asked)
asked_Reaches =
    WeaConsole.next
      (WeaConsole.next WeaConsole.here (WeaConsole.clicked direct_verify WeaConsole.opened))
      (WeaConsole.refreshed two_calls asked)

Reaches-IsCurrent_example : IsCurrent (polled two_calls asked)
Reaches-IsCurrent_example = Reaches-IsCurrent asked_Reaches

newest_first :
    map (λ (c : CallRecord). c.took_ms) (polled two_calls asked).feed.entries ≡ 40 ∷ 12 ∷ []
unfolding polled run_while poll_once take_log take_metrics
newest_first = refl

-- A call on devnet is linked to the main network as long as no metrics were read.
wrong_cluster :
    (call_card (is_devnet none) devnet_call).explorer
    ≡ some "https://explorer.solana.com/tx/5KJpBd7Q?cluster=mainnet-beta"
wrong_cluster = refl

card_path : strip_origin devnet_call.resource ≡ "/v1/protected/checkout/order"
unfolding strip_origin after_scheme after_prefix strip_host after_host
card_path = refl
