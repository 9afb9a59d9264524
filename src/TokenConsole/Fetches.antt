-- ===== src/TokenConsole/Fetches.antt =====
-- What the console's calls of the token API send and return.
use text.Mathlib.TextLemmas.{nil-append, cons-append}
use x402_token_market.Base.{
  ◌≡◌, refl, ap, ◌∙◌, true, false, inl, inr, Bool-cases, Option-cases, String, none, some, List, [],
  ◌∷◌, show, ◌⊕◌, eq_refl,
}
use x402_token_market.Env.{Env}
use x402_token_market.Json.{Json}
use x402_token_market.Json.Codec.{Codec}
use x402_token_market.Net.{
  Request, Response, Reply, response, rejected, Thrown, error, Io, Outcome, done, failed, Event,
  run, is_ok, settle, ◌>>=◌,
}
use x402_token_market.Net.Laws.{Always, run-Always, Always-mono}
use x402_token_market.Sign.{Crypto, Stamp, sign_request}
use x402_token_market.Netstars.Calls.{verifies}
use x402_token_market.TokenConsole.{
  console_base, console_keys, path_only, read_reply, get_request, get_json, recent_activity,
  balance, healthz, merchant_profile,
}

-- The four calls of `api`.
pub data Call : Type 0 where
  activity : String → Call
  funds health profile : Call

abbrev pub path_of : Call → String
path_of (activity limit) = "/v1/recent-activity"
path_of funds = "/v1/balance"
path_of health = "/healthz"
path_of profile = "/v1/merchant/profile"

abbrev pub query_of : Call → String
query_of (activity limit) = "?limit=" ⊕ limit
query_of _ = ""

-- A query is not part of the path that is signed.
path_only-query : (p q : String) → path_only (p ⊕ String.◌∷◌ "?" q) ≡ path_only p
unfolding path_only
path_only-query String.[] q = rw (nil-append (String.◌∷◌ "?" q)) refl
path_only-query (String.◌∷◌ d s) q =
    rw (cons-append d s (String.◌∷◌ "?" q)) (rw (path_only-query s q) refl)

signed_path : (call : Call) → path_only (path_of call ⊕ query_of call) ≡ path_of call
unfolding path_only
signed_path (activity limit) =
    ap (λ q. path_only ("/v1/recent-activity" ⊕ q)) (cons-append "?" "limit=" limit)
    ∙ path_only-query "/v1/recent-activity" ("limit=" ⊕ limit)
signed_path funds = refl
signed_path health = refl
signed_path profile = refl

module _ (c : Codec) (k : Crypto) (env : Env) (stamp : Stamp) where
  unfoldable pub perform : Call → Io Json
  perform (activity limit) = recent_activity c k env stamp limit
  perform funds = balance c k env stamp
  perform health = healthz c k env stamp
  perform profile = merchant_profile c k env stamp

  -- A value is the JSON of a reply in the range of success; any other status is an Error that names
  -- it, and a rejection is passed on.
  pub data Answered (call : Call) : Reply → Outcome Json → Type 0 where
    value :
        (r : Response) (v : Json)
        → is_ok r ≡ true
        → c.parse r.text ≡ some v
        → Answered call (response r) (done v)
    no_json :
        (r : Response)
        → is_ok r ≡ true
        → c.parse r.text ≡ none
        → Answered call (response r) (failed (error "SyntaxError" (c.syntax_error r.text) none))
    refused :
        (r : Response)
        → is_ok r ≡ false
        → Answered call (response r) (
            failed (
              error "Error" ("API " ⊕ (path_of call ⊕ query_of call) ⊕ " → " ⊕ show r.status) none))
    lost : (e : Thrown) → Answered call (rejected e) (failed e)

  -- One signed request, and what came of it.
  pub record IsFetch (call : Call) (t : List Event) (o : Outcome Json) : Type 0 where
    pub request : Request
    pub reply : Reply
    pub sent : t ≡ (request, reply) ∷ []
    pub addressed : request.url ≡ console_base env ⊕ path_of call ⊕ query_of call
    pub signed : verifies k (console_keys env).key_secret (path_of call) request ≡ true
    pub answered : Answered call reply o

  get_verifies :
      (call : Call)
      → verifies k
          (console_keys env).key_secret
          (path_of call)
          (get_request c k env stamp (path_of call ⊕ query_of call))
        ≡ true
  unfolding verifies sign_request
  get_verifies call = rw (signed_path call) (eq_refl _)

  get_json-IsFetch :
      (call : Call) → Always (get_json c k env stamp (path_of call ⊕ query_of call)) (IsFetch call)
  unfolding get_json read_reply
  get_json-IsFetch call reply =
      Always-mono (λ t o. (t ≡ []) × Answered call reply o) _ _
        (λ t o h. record {
          request = get_request c k env stamp (path_of call ⊕ query_of call);
          reply = reply;
          sent = rw (h.0) refl;
          addressed = refl;
          signed = get_verifies call;
          answered = h.1;
        })
        (read reply)
    where
      read :
          (reply : Reply)
          → Always
              (settle reply >>= read_reply c (path_of call ⊕ query_of call))
              (λ t o. (t ≡ []) × Answered call reply o)
      read (rejected e) = (refl, lost e)
      read (response r) = elim (Bool-cases (is_ok r)) [
        | inl e ↦ elim (Option-cases (c.parse r.text)) [
          | inl p ↦ rw (e, p) (refl, no_json r e p)
          | inr (v, p) ↦ rw (e, p) (refl, value r v e p)
        ]
        | inr e ↦ rw e (refl, refused r e)
      ]

  pub perform-IsFetch : (call : Call) → Always (perform call) (IsFetch call)
  unfolding perform recent_activity balance healthz merchant_profile
  perform-IsFetch (activity limit) = get_json-IsFetch (activity limit)
  perform-IsFetch funds = get_json-IsFetch funds
  perform-IsFetch health = get_json-IsFetch health
  perform-IsFetch profile = get_json-IsFetch profile

-- However the token API answers, each of the console's calls sends exactly one request, whose signature
-- passes the check of the path without its query, and returns the JSON of a reply in the range of
-- success. It throws a SyntaxError if that reply is no JSON, an Error with the path and the status of
-- any other reply, or what the request was rejected with.
pub run-perform-IsFetch :
    (c : Codec) (k : Crypto) (env : Env) (stamp : Stamp) (call : Call) {S : Type 0}
    (service : S → Request → Reply × S) (s : S)
    → let r = run service (perform c k env stamp call) s in
      IsFetch c k env stamp call r.trace r.outcome
run-perform-IsFetch c k env stamp call service s =
    run-Always service (IsFetch c k env stamp call) (perform c k env stamp call) s
      (perform-IsFetch c k env stamp call)
