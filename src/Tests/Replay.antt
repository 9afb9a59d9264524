-- ===== src/Tests/Replay.antt =====
-- The console's page: a normal run that is paid, and its replay.
use x402_token_market.Base.{◌≡◌, refl, true, [], ◌∷◌}
use x402_token_market.Json.{Json, bool, str, object}
use x402_token_market.Console.Page.{
  Page, normal, replay, click, click_while, start, answer, take_answer, opened, replay_body,
}

abbrev receipt : Json
receipt = object (
    ("ok", bool true)
    ∷ ("x_payment_header", str "header")
    ∷ ("response", object (("order_id", str "po_1") ∷ []))
    ∷ [])

abbrev waiting : Page
waiting = click normal opened

abbrev settled : Page
settled = answer normal receipt "" waiting

replay_asked :
    (click replay settled).asked
    ≡ (replay, replay_body (str "header", str "po_1")) ∷ (normal, object []) ∷ []
unfolding click_while start answer take_answer
replay_asked = refl
