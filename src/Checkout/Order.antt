-- ===== src/Checkout/Order.antt =====
-- `POST` of the checkout route: the cart is priced, clamped and charged through the x402 loop.
use x402_token_market.Base.{
  ℕ, true, false, String, Option, none, some, List, [], ◌∷◌, map, length, str_eq, show, ◌⊕◌,
  if◌then◌else◌, or_else,
}
use x402_token_market.Env.{Env}
use x402_token_market.Json.{Json, bool, str, arr, whole, tenthousandths, items, object, get}
use x402_token_market.Json.Codec.{Codec}
use x402_token_market.Net.{Thrown, Io, ret, ◌>>=◌, try, null_access, unless_null}
use x402_token_market.Route.{HttpResult, defined, message, cause}
use x402_token_market.Amount.{jpy_to_checkout_usdc, to_micro}
use x402_token_market.X402.{Purchase, Settled, protected_checkout_order_url, x402_fetch}
use x402_token_market.Checkout.Cart.{Line, read_lines, cart_items}

-- What the handler draws from outside: two `randomBytes(…).toString("hex")`, and the time of day.
pub record Draws : Type 0 where
  pub idem_hex : String
  pub order_hex : String
  pub placed_at : String

-- `typeof v === "string" && v ? v : undefined`
abbrev pub text_or_none : Option Json → Option String
text_or_none (some (str s)) = if str_eq s "" then none else some s
text_or_none _ = none

-- `{ ok: false, error }` with its status.
abbrev pub refusal : ℕ → String → HttpResult
refusal status text = record {
  status = status;
  body = object (("ok", bool false) ∷ ("error", str text) ∷ []);
}

abbrev pub line_json : Line → Json
line_json l = object (
    ("productId", str l.product_id)
    ∷ ("qty", whole l.qty)
    ∷ ("sku", str l.sku)
    ∷ ("nameShort", str l.name_short)
    ∷ ("priceJpy", whole l.price_jpy)
    ∷ [])

-- The `catch`: 502 with the cause, if there is one, and else 500.
abbrev pub order_failed : Thrown → HttpResult
order_failed e = elim (cause e) [
  | some detail ↦ record {
    status = 502;
    body = object (("ok", bool false) ∷ ("error", str (message e)) ∷ ("detail", detail) ∷ []);
  }
  | none ↦ refusal 500 (message e)
]

module _ (c : Codec) (env : Env) (d : Draws) where
  -- `typeof body.idempotencyKey === "string" && body.idempotencyKey ? … : haba-checkout-…`
  abbrev pub idempotency_key : Json → String
  idempotency_key body =
      or_else (text_or_none (get "idempotencyKey" body)) ("haba-checkout-" ⊕ d.idem_hex)

  -- The body that the route sends to the gateway, on both attempts.
  abbrev pub order_body : Json → ℕ → List Line → Json
  order_body body total lines = object (
      ("amount_usdc_micro", whole (to_micro (jpy_to_checkout_usdc total)))
      ∷ ("idempotency_key", str (idempotency_key body))
      ∷ (
        "description",
        str ("HABA MARVIE order · " ⊕ show (length lines) ⊕ " 件 / ¥" ⊕ c.locale_number total),
      )
      ∷ (
        "metadata",
        object (
            ("channel", str "haba-cart")
            ∷ ("total_jpy", whole total)
            ∷ ("line_count", whole (length lines))
            ∷ []),
      )
      ∷ [])

  abbrev pub purchase : Json → ℕ → List Line → Purchase
  purchase body total lines = record {
    resource_url = protected_checkout_order_url env;
    body = order_body body total lines;
    user_verification = text_or_none (get "userVerification" body);
  }

  -- The x402 part of the response, and the response.
  abbrev pub x402_json : Settled → Json
  x402_json s = object (
      defined (
        ("resource", get "resource" s.body)
        ∷ ("requirements", s.requirements)
        ∷ ("settlement_receipt", some s.settlement_receipt)
        ∷ []))

  abbrev pub placed_body : ℕ → List Line → Settled → Json
  placed_body total lines s = object (
      defined (
        ("ok", some (bool true))
        ∷ ("order_id", some (str ("ord_" ⊕ d.order_hex)))
        ∷ ("payment_order_id", get "order_id" s.body)
        ∷ ("tx_hash", get "tx_hash" s.body)
        ∷ ("network", get "network" s.body)
        ∷ ("payer", get "payer" s.body)
        ∷ ("x402", some (x402_json s))
        ∷ ("amount_usdc", some (tenthousandths (jpy_to_checkout_usdc total)))
        ∷ ("total_jpy", some (whole total))
        ∷ ("items", some (arr (items (map line_json lines))))
        ∷ ("placed_at", some (str d.placed_at))
        ∷ []))

  -- The response to a settled order; the gateway's answer is read, and null has no fields.
  abbrev pub placed : ℕ → List Line → Settled → Io HttpResult
  placed total lines s =
      unless_null s.body "order_id"
        (ret (record { status = 200; body = placed_body total lines s }))

  unfoldable pub place_order : Json → ℕ → List Line → Io HttpResult
  place_order body total [] = ret (refusal 400 "no valid line items")
  place_order body total (l ∷ lines) =
      try (x402_fetch c env (purchase body total (l ∷ lines)) >>= placed total (l ∷ lines)) ret
        (λ e. ret (order_failed e))

  -- The cart, once it is known to be a list.
  unfoldable pub order_items : Json → List Json → Io HttpResult
  order_items body [] = ret (refusal 400 "cart is empty")
  order_items body (it ∷ rest) = elim (read_lines (it ∷ rest) (0, [])) [
    | none ↦ null_access "productId"
    | some acc ↦ place_order body acc.0 acc.1
  ]

  unfoldable pub order : Json → Io HttpResult
  order body = unless_null body "items" (order_items body (cart_items (get "items" body)))

  -- `POST`, on the text of the request's body.
  unfoldable pub post : String → Io HttpResult
  post text = elim (c.parse text) [
    | none ↦ ret (refusal 400 "invalid JSON body")
    | some body ↦ order body
  ]
