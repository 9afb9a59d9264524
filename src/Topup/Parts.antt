-- ===== src/Topup/Parts.antt =====
-- The values, requests and readings of the top-up route.
use x402_token_market.Base.{
  ℕ, Bool, true, false, String, Option, none, some, List, [], ◌∷◌, ◌++◌, ◌*◌, ◌==◌, ◌⊕◌, take_text,
  take, or_else, if◌then◌else◌,
}
use x402_token_market.Env.{Env}
use x402_token_market.Json.{Json, null, str, arr, whole, items, elems, object, get, coalesce}
use x402_token_market.Json.Codec.{Codec, to_text}
use x402_token_market.Net.{
  Request, Response, error, Io, ret, throw, ◌>>=◌, try, is_ok, read_json, unless_null,
}
use x402_token_market.Sign.{Crypto, Stamp, Credentials, sign_request}

abbrev pub topup_usdc : ℕ
topup_usdc = 100

abbrev pub topup_tokens : ℕ
topup_tokens = 100_000_000

-- `TOKEN_API`, `X402_API`, the signing keys and `INTERNAL_AUTH` of the route
pub token_base : Env → String
token_base env = or_else (env "NETSTARS_TOKEN_API_INTERNAL") "http://localhost:8080"

pub gateway_base : Env → String
gateway_base env = or_else (env "NETSTARS_X402_API_INTERNAL") "http://localhost:8081"

pub agent_keys : Env → Credentials
agent_keys env = record {
  key_id = or_else (env "NETSTARS_AGENT_KEY_ID") "ak_localdev_test";
  key_secret = or_else (env "NETSTARS_AGENT_KEY_SECRET") "secret_localdev_test";
}

pub agent_auth : Env → String
agent_auth env = or_else (env "INTERNAL_AUTH_SECRET") "internal_localdev_token"

pub data StepStatus : Type 0 where
  done failed : StepStatus

pub record Step : Type 0 where
  pub name : String
  pub status : StepStatus
  pub detail : Option Json

abbrev pub step : String → StepStatus → String → Step
step name status detail = record { name = name; status = status; detail = some (str detail) }

pub data Mode : Type 0 where
  x402 direct : Mode

pub record TopupResult : Type 0 where
  pub ok : Bool
  pub mode : Mode
  pub order_id : Option Json
  pub steps : List Step
  pub tokens_credited : ℕ
  pub error : Option String

abbrev pub succeeded : Mode → Option Json → List Step → TopupResult
succeeded mode order steps = record {
  ok = true;
  mode = mode;
  order_id = order;
  steps = steps;
  tokens_credited = topup_tokens;
  error = none;
}

abbrev pub gave_up : Option Json → List Step → String → TopupResult
gave_up order steps why = record {
  ok = false;
  mode = direct;
  order_id = order;
  steps = steps;
  tokens_credited = 0;
  error = some why;
}

-- What the first reply gives: `orderId`, `amountMicro`, `recipient` and `nonce`.
pub record Order : Type 0 where
  pub order_id : Option Json
  pub amount_micro : Json
  pub recipient : Json
  pub nonce : Json

-- `await r.json().catch(() => ({}))`
abbrev pub read_problem : Codec → Response → Io Json
read_problem c r = try (read_json c r) ret (λ _. ret (object []))

module _ (c : Codec) (k : Crypto) (env : Env) (stamp : Stamp) (idem : String) where
  abbrev pub purchase_request : Request
  purchase_request =
      let body =
        c.stringify
          (object (("amount_usdc", whole topup_usdc) ∷ ("idempotency_key", str idem) ∷ [])) in
      record {
        method = "POST";
        url = token_base env ⊕ "/v1/token-purchase";
        headers =
            sign_request k (agent_keys env) stamp "POST" "/v1/token-purchase" body
            ++ ("Content-Type", "application/json") ∷ [];
        body = some body;
      }

module _ (c : Codec) (env : Env) where
  -- The payment requirements that the route writes itself.
  abbrev pub requirements_json : Order → Json
  requirements_json o = object (
      ("scheme", str "exact")
      ∷ ("network", str "solana-devnet")
      ∷ ("maxAmountRequired", str (to_text c (some o.amount_micro)))
      ∷ ("resource", str (gateway_base env ⊕ "/v1/protected/token-purchase"))
      ∷ ("payTo", o.recipient)
      ∷ ("maxTimeoutSeconds", whole 600)
      ∷ ("asset", str "4zMMC9srt5Ri5X14GAgXhaHii3GnPAEERYPJgZJDncDU")
      ∷ ("extra", object (("nonce", o.nonce) ∷ ("decimals", whole 6) ∷ ("name", str "USDC") ∷ []))
      ∷ [])

  abbrev pub sign_step_request : Order → Request
  sign_step_request o = record {
    method = "POST";
    url = gateway_base env ⊕ "/internal/build-payment-payload";
    headers = ("Content-Type", "application/json") ∷ ("X-Internal-Auth", agent_auth env) ∷ [];
    body = some (c.stringify (requirements_json o));
  }

  abbrev pub proof_request : Option Json → Json → Request
  proof_request order tx = record {
    method = "POST";
    url = gateway_base env ⊕ "/v1/payments/" ⊕ to_text c order ⊕ "/proof";
    headers = ("Content-Type", "application/json") ∷ [];
    body = some (c.stringify (object (("signed_tx_base64", tx) ∷ [])));
  }

  -- The credit names the order, or the idempotency key where there is none.
  abbrev pub credit_request : String → Option Json → Request
  credit_request idem order = record {
    method = "POST";
    url = token_base env ⊕ "/internal/credit";
    headers = ("Content-Type", "application/json") ∷ ("X-Internal-Auth", agent_auth env) ∷ [];
    body = some (
        c.stringify (
          object (
            ("merchant_id", str "mch_haba")
            ∷ ("amount_token", whole topup_tokens)
            ∷ ("payment_order_id", coalesce order (str ("local-" ⊕ idem)))
            ∷ ("tx_hash", null)
            ∷ [])));
  }

-- `(v as string)?.slice(0, n)` in a template; of a value that has no `slice` the call throws.
abbrev pub sliced : Codec → ℕ → String → Option Json → Io String
sliced c n d none = ret d
sliced c n d (some null) = ret d
sliced c n d (some (str s)) = ret (take_text n s)
sliced c n d (some (arr vs)) = ret (c.display (arr (items (take n (elems vs)))))
sliced c n d (some v) = throw (error "TypeError" "slice is not a function" none)

-- `orderId ?? undefined`
abbrev pub nullish : Option Json → Option Json
nullish (some null) = none
nullish v = v

-- What the first step gives: the order, or the answer that ends the route.
pub data First : Type 0 where
  stop : TopupResult → First
  go : Order → First

-- What the later steps give: the steps so far, and the signed transaction, or nothing more to try but
-- the direct credit. (The source makes that credit inside the `try`; it throws nothing.)
pub data Later : Type 0 where
  signed : Json → List Step → Later
  settled : List Step → Later
  fallback : List Step → Later

abbrev pub read_order : Codec → Response → Io First
read_order c r =
    if is_ok r
    then read_json c r >>= (λ d. unless_null d "payment_order_id" (
        ret (
          go (record {
            order_id = get "payment_order_id" d;
            amount_micro = coalesce (get "amount_usdc_micro" d) (whole (topup_usdc * 1_000_000));
            recipient = coalesce (get "recipient" d) (str "");
            nonce = coalesce (get "nonce" d) (str "");
          }))))
    else read_problem c r >>= λ e. ret (
        stop (
          gave_up (some null) (step "Create Order" failed (take_text 120 (c.stringify e)) ∷ [])
            "token-purchase failed"))

abbrev pub read_signed : Codec → List Step → Response → Io Later
read_signed c steps r =
    if r.status == 503
    then ret (fallback (steps ++ step "x402 Sign" done "Local settlement path" ∷ []))
    else if is_ok r
    then read_json c r >>= (λ d. unless_null d "signed_tx_b64" (
        sliced c 8 "undefined" (get "payer" d) >>= λ payer. ret (
          signed (coalesce (get "signed_tx_b64" d) null)
            (steps ++ step "x402 Sign" done ("payer: " ⊕ payer ⊕ "…") ∷ []))))
    else read_problem c r >>= λ e.
        ret (fallback (steps ++ step "x402 Sign" failed (take_text 120 (c.stringify e)) ∷ []))

abbrev pub read_proof : Codec → List Step → Response → Io Later
read_proof c steps r =
    if is_ok r
    then read_json c r >>= (λ d. unless_null d "tx_hash" (
        sliced c 12 "broadcasting" (get "tx_hash" d) >>= λ tx.
        ret (settled (steps ++ step "Solana Settle" done ("tx: " ⊕ tx ⊕ "…") ∷ []))))
    else read_problem c r >>= λ e.
        ret (fallback (steps ++ step "Solana Settle" failed (take_text 120 (c.stringify e)) ∷ []))
