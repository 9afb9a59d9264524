-- ===== src/Dashboard/History.antt =====
-- What the top-up history shows of the ledger's entries.
use x402_token_market.Base.{
  ℕ, Bool, true, false, String, none, some, List, [], ◌∷◌, str_eq, ◌⊕◌, if◌then◌else◌,
}
use x402_token_market.Json.{
  Json, null, str, bool, arr, items, elems, whole, object, get, coalesce, is_truthy,
}
use x402_token_market.Json.Codec.{Codec}
use x402_token_market.Net.{error, Io, ret, throw, ◌>>=◌, null_access}
use x402_token_market.Route.{HttpResult, defined}
use x402_token_market.Topup.{sliced}

abbrev sample_record : (id time reason : String) → ℕ → (tx status : String) → Json
sample_record id time reason before tx status = object (
    ("id", str id)
    ∷ ("time", str time)
    ∷ ("triggerReason", str reason)
    ∷ ("remainingTokenBefore", whole before)
    ∷ ("topupAmount", whole 100_000_000)
    ∷ ("usdCost", whole 100)
    ∷ ("txHash", str tx)
    ∷ ("status", str status)
    ∷ [])

-- `MOCK_TOPUP_HISTORY`
abbrev pub mock_topup_history : List Json
mock_topup_history =
    sample_record "top_001" "2026-06-03T14:32:00Z" "Budget usage reached 80% ($4,000 / $5,000)"
      12_400_000 "5gYYVx...wYMS" "completed"
    ∷ sample_record "top_002" "2026-06-02T09:15:00Z" "Balance below 20M Tokens" 18_600_000
        "4R1wey...pHJAF" "completed"
    ∷ sample_record "top_003" "2026-06-01T17:44:00Z" "Budget usage reached 80%" 9_800_000
        "3Kx9mn...qRTWD" "completed"
    ∷ sample_record "top_004" "2026-05-31T11:20:00Z" "Balance below 20M Tokens" 15_200_000
        "7Pqrst...mNBVC" "completed"
    ∷ sample_record "top_005" "2026-05-30T08:05:00Z" "Budget usage reached 80%" 22_100_000
        "2Lmnop...xYZAB" "failed"
    ∷ sample_record "top_006" "2026-05-29T16:38:00Z" "Balance below 20M Tokens" 11_300_000
        "9Fghij...kLMNO" "completed"
    ∷ []

abbrev pub shown : List Json → Json → HttpResult
shown records is_mock = record {
  status = 200;
  body = object (("data", arr (items records)) ∷ ("is_mock", is_mock) ∷ []);
}

abbrev pub sample_history : HttpResult
sample_history = shown mock_topup_history (bool true)

-- `it.kind === "credit"`
abbrev pub is_credit : Json → Bool
is_credit v = elim (get "kind" v) [ some (str s) ↦ str_eq s "credit" | _ ↦ false ]

-- `json.items.filter(…)`; an entry that is null has no kind.
unfoldable pub credits : List Json → Io (List Json)
credits [] = ret []
credits (null ∷ r) = null_access "kind"
credits (v ∷ r) = credits r >>= λ rest. ret (if is_credit v then v ∷ rest else rest)

module _ (c : Codec) (now : String) where
  -- `entry.trace_id ? … : "—"`
  abbrev pub tx_hash : Json → Io String
  tx_hash entry =
      if is_truthy (get "trace_id" entry)
      then (sliced c 8 "" (get "trace_id" entry) >>= λ t. ret (t ⊕ "…"))
      else ret "—"

  abbrev pub topup_record : Json → String → Json
  topup_record entry tx = object (
      defined (
        ("id", get "id" entry)
        ∷ ("time", some (coalesce (get "ts" entry) (str now)))
        ∷ (
          "triggerReason",
          if is_truthy (get "description" entry)
              then get "description" entry
              else some (str "Token purchase via x402"),
        )
        ∷ ("remainingTokenBefore", some null)
        ∷ ("topupAmount", some (whole 100_000_000))
        ∷ ("usdCost", some (coalesce (get "amount_usdc" entry) (whole 100)))
        ∷ ("txHash", some (str tx))
        ∷ ("status", some (str "completed"))
        ∷ []))

  unfoldable pub records : List Json → Io (List Json)
  records [] = ret []
  records (entry ∷ r) =
      tx_hash entry >>= λ tx. records r >>= λ rest. ret (topup_record entry tx ∷ rest)

  -- The history of entries that are credits: the sample where there are none.
  abbrev pub credit_history : Json → List Json → Io HttpResult
  credit_history json [] = ret sample_history
  credit_history json (e ∷ es) =
      records (e ∷ es) >>= λ rs. ret (shown rs (coalesce (get "is_mock" json) (bool false)))

  -- `json.items` of an object; what is no array has no `filter`.
  unfoldable pub ledger_history : Json → Io HttpResult
  ledger_history json = elim (get "items" json) [
    | some (arr vs) ↦ credits (elems vs) >>= credit_history json
    | _ ↦ throw (error "TypeError" "json.items.filter is not a function" none)
  ]
