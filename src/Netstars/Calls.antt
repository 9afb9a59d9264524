-- ===== src/Netstars/Calls.antt =====
-- What each call of the client sends and returns, against a check of signatures on the other side.
use x402_token_market.Base.{
  ℕ, ◌≡◌, refl, true, false, inl, inr, Bool, Bool-cases, Option-cases, String, Option, none, some,
  List, [], ◌∷◌, map, show, ◌⊕◌, or_else, str_eq, eq_refl,
}
use x402_token_market.Env.{Env}
use x402_token_market.Json.{Json, Number, num, str, arr, items, get}
use x402_token_market.Json.Codec.{Codec}
use x402_token_market.Net.{
  Request, Response, Reply, response, rejected, Thrown, netstars, error, Io, Outcome, done, failed,
  Event, is_ok, header, run, fetch, ◌>>=◌,
}
use x402_token_market.Net.Laws.{Always, run-Always, Always-mono}
use x402_token_market.Sign.{Crypto, Stamp, string_to_sign, sign_request}
use x402_token_market.Netstars.{
  token_api, credentials, chat_json, ChatArgs, CheckoutArgs, checked, signed_get, signed_post,
  fetch_balance, fetch_recent_activity, create_token_purchase, create_merchant_checkout,
  chat_completion,
}

-- The check on the other side: the signature is that of the request's method and body, its
-- timestamp and nonce headers, and the path under which it arrives, without a query.
unfoldable pub verifies : Crypto → String → String → Request → Bool
verifies k secret path r = str_eq (or_else (header "X-Netstars-Signature" r.headers) "") (
    k.hmac_sha256_hex secret (
      string_to_sign r.method path (or_else (header "X-Netstars-Timestamp" r.headers) "")
        (or_else (header "X-Netstars-Nonce" r.headers) "") (k.sha256_hex (or_else r.body ""))))

-- The signed calls of the client.
pub data Call : Type 0 where
  balance : Call
  recent_activity : ℕ → Call
  token_purchase : Number → String → Call
  merchant_checkout : CheckoutArgs → Call
  messages : ChatArgs → Call

abbrev pub path_of : Call → String
path_of balance = "/v1/balance"
path_of (recent_activity n) = "/v1/recent-activity"
path_of (token_purchase n s) = "/v1/token-purchase"
path_of (merchant_checkout a) = "/v1/merchant-checkout"
path_of (messages a) = "/v1/messages"

abbrev pub query_of : Call → String
query_of (recent_activity n) = "?limit=" ⊕ show n
query_of _ = ""

module _ (c : Codec) (k : Crypto) (env : Env) (s : Stamp) where
  pub perform : Call → Io Json
  perform balance = fetch_balance c k env s
  perform (recent_activity n) = fetch_recent_activity c k env s n
  perform (token_purchase n i) = create_token_purchase c k env s n i
  perform (merchant_checkout a) = create_merchant_checkout c k env s a
  perform (messages a) = chat_completion c k env s a

  -- A value is the JSON of a reply in the range of success; a NetstarsError carries the status and
  -- the body of a reply out of it; a rejection is passed on.
  pub data Answered : Reply → Outcome Json → Type 0 where
    value :
        (r : Response) (v : Json)
        → is_ok r ≡ true
        → c.parse r.text ≡ some v
        → Answered (response r) (done v)
    no_json :
        (r : Response)
        → is_ok r ≡ true
        → c.parse r.text ≡ none
        → Answered (response r) (failed (error "SyntaxError" (c.syntax_error r.text) none))
    refused :
        (r : Response) (why : String)
        → is_ok r ≡ false
        → Answered (response r) (failed (netstars r.status why (some r.text)))
    lost : (e : Thrown) → Answered (rejected e) (failed e)

  -- What the body of a request holds: nothing, or JSON with the arguments of the call.
  abbrev pub Carried : Call → Option String → Type 0
  Carried balance o = o ≡ none
  Carried (recent_activity n) o = o ≡ none
  Carried (token_purchase n i) o =
      (b : Json) × (o ≡ some (c.stringify b))
      × (get "amount_usdc" b ≡ some (num n))
      × (get "idempotency_key" b ≡ some (str i))
  Carried (merchant_checkout a) o =
      (b : Json) × (o ≡ some (c.stringify b))
      × (get "amount_usdc" b ≡ some (num a.amount_usdc))
      × (get "idempotency_key" b ≡ some (str a.idempotency_key))
      × (get "order_reference" b ≡ some (str a.order_reference))
  Carried (messages a) o =
      (b : Json) × (o ≡ some (c.stringify b))
      × (get "model" b ≡ some a.model)
      × (get "messages" b ≡ some (arr (items (map chat_json a.messages))))

  -- One signed request, and what came of it.
  pub record IsCall (call : Call) (t : List Event) (o : Outcome Json) : Type 0 where
    pub request : Request
    pub reply : Reply
    pub sent : t ≡ (request, reply) ∷ []
    pub addressed : request.url ≡ token_api env ⊕ path_of call ⊕ query_of call
    pub signed : verifies k (credentials env).key_secret (path_of call) request ≡ true
    pub carried : Carried call request.body
    pub answered : Answered reply o

  checked-Answered :
      (label : String) (r : Response)
      → Always (checked c label r) (λ t o. (t ≡ []) × Answered (response r) o)
  unfolding checked
  checked-Answered label r = elim (Bool-cases (is_ok r)) [
    | inl e ↦ elim (Option-cases (c.parse r.text)) [
      | inl p ↦ rw (e, p) (refl, no_json r e p)
      | inr (v, p) ↦ rw (e, p) (refl, value r v e p)
    ]
    | inr e ↦ rw e (refl, refused r _ e)
  ]

  exchange :
      (call : Call) (label : String) (req : Request)
      → req.url ≡ token_api env ⊕ path_of call ⊕ query_of call
      → verifies k (credentials env).key_secret (path_of call) req ≡ true
      → Carried call req.body
      → Always (fetch req >>= checked c label) (IsCall call)
  exchange call label req url sig body (rejected e) = record {
    request = req;
    reply = rejected e;
    sent = refl;
    addressed = url;
    signed = sig;
    carried = body;
    answered = lost e;
  }
  exchange call label req url sig body (response r) =
      Always-mono _ (λ t o. IsCall call ((req, response r) ∷ t) o) (checked c label r)
        (λ t o h. record {
          request = req;
          reply = response r;
          sent = rw (h.0) refl;
          addressed = url;
          signed = sig;
          carried = body;
          answered = h.1;
        })
        (checked-Answered label r)

  get_verifies :
      (path query : String)
      → verifies k (credentials env).key_secret path (signed_get c k env s path query) ≡ true
  unfolding verifies sign_request
  get_verifies path query = eq_refl _

  post_verifies :
      (path : String) (body : Json)
      → verifies k (credentials env).key_secret path (signed_post c k env s path body) ≡ true
  unfolding verifies sign_request
  post_verifies path body = eq_refl _

  perform-IsCall : (call : Call) → Always (perform call) (IsCall call)
  unfolding perform fetch_balance fetch_recent_activity create_token_purchase
      create_merchant_checkout chat_completion
  perform-IsCall balance = exchange balance "balance" _ refl (get_verifies "/v1/balance" "") refl
  perform-IsCall (recent_activity n) =
      exchange (recent_activity n) "recent-activity" _ refl
        (get_verifies "/v1/recent-activity" ("?limit=" ⊕ show n)) refl
  perform-IsCall (token_purchase n i) =
      exchange (token_purchase n i) "token-purchase" _ refl (post_verifies "/v1/token-purchase" _)
        (_, refl, refl, refl)
  perform-IsCall (merchant_checkout a) =
      exchange (merchant_checkout a) "merchant-checkout" _ refl
        (post_verifies "/v1/merchant-checkout" _) (_, refl, refl, refl, refl)
  perform-IsCall (messages a) =
      exchange (messages a) "messages" _ refl (post_verifies "/v1/messages" _) (_, refl, refl, refl)

  pub chat_completion-IsCall :
      (a : ChatArgs) → Always (chat_completion c k env s a) (IsCall (messages a))
  unfolding perform
  chat_completion-IsCall a = perform-IsCall (messages a)

-- Each signed call of the client sends exactly one request, to its path with its query, whose
-- signature passes the check on the other side of the path without the query. It returns the JSON of a
-- reply in the range of success, or throws: a SyntaxError if that reply is no JSON, a NetstarsError
-- with the status and body of any other reply, or what the request was rejected with. The body of the
-- request is the JSON of the call's arguments, the list of messages among them, or none.
pub run-perform-IsCall :
    (c : Codec) (k : Crypto) (env : Env) (stamp : Stamp) (call : Call) {S : Type 0}
    (service : S → Request → Reply × S) (s : S)
    → let r = run service (perform c k env stamp call) s in
      IsCall c k env stamp call r.trace r.outcome
run-perform-IsCall c k env stamp call service s =
    run-Always service (IsCall c k env stamp call) (perform c k env stamp call) s
      (perform-IsCall c k env stamp call)
