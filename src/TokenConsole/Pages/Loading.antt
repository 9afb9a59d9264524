-- ===== src/TokenConsole/Pages/Loading.antt =====
-- What a page has sent and shows once it is loaded.
use mathlib.Core.List.{append-nil}
use x402_token_market.Base.{
  ◌≡◌, ◌≢◌, ◌↔◌, refl, ap, sym, eq_iff, Option-cases, ◌∙◌, inl, inr, Bool, true, false, Bool-cases,
  String, Option, none, some, List, [], ◌∷◌, ◌++◌, ◌⊎◌, ◌||◌, any, filter, All, arith,
}
use x402_token_market.Env.{Env}
use x402_token_market.Json.{Json, null, bool, num, str, arr, obj, nil, Items, elems, get, object}
use x402_token_market.Json.Codec.{Codec}
use x402_token_market.Net.{
  Request, Reply, Thrown, Outcome, done, failed, Event, run, Io, ret, ◌>>=◌, try, unless_null,
}
use x402_token_market.Net.Laws.{
  Always, run-Always, Always-mono, Always-try, Always-bind, After, Handled,
}
use x402_token_market.Route.{message}
use x402_token_market.Sign.{Crypto, Stamp}
use x402_token_market.TokenConsole.{
  MerchantConfig, recent_activity, balance, healthz, get_merchant_config_from_api,
}
use x402_token_market.TokenConsole.Profile.{Configured, config-Configured}
use x402_token_market.TokenConsole.Fetches.{
  Call, IsFetch, perform, activity, funds, health, perform-IsFetch,
}
use x402_token_market.TokenConsole.Pages.{
  both, is_healthy, Loaded, nothing_loaded, all_loaded, backend_ok, load_figures, load_dashboard,
  is_null, is_x402_payment, is_purchase, is_given, payments_in, payments_of, settled, load_protocol,
  read_rows, load_tokens,
}
use x402_token_market.TokenConsole.Pages.Together.{IsBoth, both-IsBoth}

abbrev pub shown_health : Outcome Json → Outcome Bool
shown_health (done h) = done (is_healthy h)
shown_health (failed e) = done false

-- What a page shows of the outcome of its two requests.
abbrev pub shown : (Json × Json → Loaded) → Outcome (Json × Json) → Loaded
shown page (done v) = page v
shown page (failed e) = record { funds = none; events = none; backend_error = some (message e) }

-- The dashboard shows both replies.
abbrev pub figures_shown : Json × Json → Loaded
figures_shown (b, l) = record { funds = some b; events = some l; backend_error = none }

-- The tokens page keeps the balance where the activity is null.
abbrev pub rows_shown : Json × Json → Loaded
rows_shown (b, null) = record { funds = some b; events = none; backend_error = some "items" }
rows_shown (b, l) = record { funds = some b; events = some l; backend_error = none }

-- The list of items of a value, where it has one and none of them is null.
pub data Listed (json : Json) (its : List Json) : Type 0 where
  listed :
      (vs : Items)
      → get "items" json ≡ some (arr vs)
      → elems vs ≡ its
      → All (λ v. v ≢ null) its
      → Listed json its

-- What the protocol page shows: nothing where the call fails, the payments among the items of a reply, or an
-- exception for a reply without such items.
pub data Filtered : Outcome Json → Outcome (List Json) → Type 0 where
  none_read : (e : Thrown) → Filtered (failed e) (done [])
  payments :
      (json : Json) (its : List Json)
      → Listed json its
      → Filtered (done json) (done (filter is_x402_payment its))
  crashed :
      (json : Json) (e : Thrown)
      → ¬ ((its : List Json) × Listed json its)
      → Filtered (done json) (failed e)

no_nulls : (vs : List Json) → any is_null vs ≡ false → All (λ v. v ≢ null) vs
no_nulls [] h = tt
no_nulls (null ∷ vs) h = absurd (ground arith)
no_nulls (bool b ∷ vs) h = (λ e. cc, no_nulls vs h)
no_nulls (num n ∷ vs) h = (λ e. cc, no_nulls vs h)
no_nulls (str s ∷ vs) h = (λ e. cc, no_nulls vs h)
no_nulls (arr us ∷ vs) h = (λ e. cc, no_nulls vs h)
no_nulls (obj r ∷ vs) h = (λ e. cc, no_nulls vs h)

some_null : (vs : List Json) → any is_null vs ≡ true → ¬ All (λ v. v ≢ null) vs
some_null [] h full = absurd (ground arith)
some_null (null ∷ vs) h full = full.0 refl
some_null (bool b ∷ vs) h full = some_null vs h full.1
some_null (num n ∷ vs) h full = some_null vs h full.1
some_null (str s ∷ vs) h full = some_null vs h full.1
some_null (arr us ∷ vs) h full = some_null vs h full.1
some_null (obj r ∷ vs) h full = some_null vs h full.1

-- Items that are not a list, or that hold a null, are not listed.
unlisted :
    (json : Json) (its : List Json) (o : Option Json)
    → get "items" json ≡ o
    → ((vs : Items) → o ≡ some (arr vs) → ¬ All (λ v. v ≢ null) (elems vs))
    → ¬ Listed json its
unlisted json its o e bad (listed vs same items full) = bad vs (sym e ∙ same) (rw items full)

arr_injective : {a b : Items} → some (arr a) ≡ some (arr b) → a ≡ b
arr_injective e = cc

payments_in-Filtered :
    (json : Json) (o : Option Json) → get "items" json ≡ o → Filtered (done json) (payments_in o)
payments_in-Filtered json (some (arr vs)) e = elim (Bool-cases (any is_null (elems vs))) [
  | inl h ↦ rw h (
      crashed json _ (λ (its, l).
        unlisted json its _ e
          (λ us same full. some_null (elems vs) h (rw (arr_injective same) full)) l))
  | inr h ↦ rw h (payments json (elems vs) (listed vs e refl (no_nulls (elems vs) h)))
]
payments_in-Filtered json none e =
    crashed json _ (λ (its, l). unlisted json its none e (λ us same full. cc) l)
payments_in-Filtered json (some null) e =
    crashed json _ (λ (its, l). unlisted json its (some null) e (λ us same full. cc) l)
payments_in-Filtered json (some (bool b)) e =
    crashed json _ (λ (its, l). unlisted json its (some (bool b)) e (λ us same full. cc) l)
payments_in-Filtered json (some (num n)) e =
    crashed json _ (λ (its, l). unlisted json its (some (num n)) e (λ us same full. cc) l)
payments_in-Filtered json (some (str s)) e =
    crashed json _ (λ (its, l). unlisted json its (some (str s)) e (λ us same full. cc) l)
payments_in-Filtered json (some (obj r)) e =
    crashed json _ (λ (its, l). unlisted json its (some (obj r)) e (λ us same full. cc) l)

payments_of-Filtered : (json : Json) → Filtered (done json) (payments_of json)
unfolding payments_of
payments_of-Filtered json = payments_in-Filtered json (get "items" json) refl

Always-settled :
    {A : Type 0} (P : List Event → Outcome A → Type 0) (o : Outcome A)
    → P [] o
    → Always (settled o) P
Always-settled P (done a) h = h
Always-settled P (failed e) h = h

module _ (c : Codec) (k : Crypto) (env : Env) (stamp : Stamp) where
  -- The page has sent one signed request, and shows what came of it.
  pub record HasAsked {A : Type 0} (call : Call) (view : Outcome Json → Outcome A) (t : List Event)
      (o : Outcome A) : Type 0 where
    pub reply : Outcome Json
    pub asked : IsFetch c k env stamp call t reply
    pub view_of : o ≡ view reply

  -- The page has sent two signed requests, for the balance and the activity, and shows what came of both.
  pub record HasLoaded (limit : String) (page : Json × Json → Loaded) (t : List Event)
      (o : Outcome Loaded) : Type 0 where
    pub replies : Outcome (Json × Json)
    pub asked :
        IsBoth (IsFetch c k env stamp funds) (IsFetch c k env stamp (activity limit)) t replies
    pub view_of : o ≡ done (shown page replies)

  fetched : (call : Call) → Always (perform c k env stamp call) (IsFetch c k env stamp call)
  fetched = perform-IsFetch c k env stamp

  pair_fetched :
      (limit : String)
      → Always
          (both (balance c k env stamp) (recent_activity c k env stamp limit))
          (IsBoth (IsFetch c k env stamp funds) (IsFetch c k env stamp (activity limit)))
  unfolding perform
  pair_fetched limit =
      both-IsBoth (IsFetch c k env stamp funds) (IsFetch c k env stamp (activity limit))
        (balance c k env stamp) (recent_activity c k env stamp limit) (fetched funds)
        (fetched (activity limit))

  backend_ok-HasAsked : Always (backend_ok c k env stamp) (HasAsked health shown_health)
  unfolding backend_ok perform
  backend_ok-HasAsked =
      Always-try P (healthz c k env stamp >>= read_status) ret (λ e. ret false)
        (Always-bind (Handled ret (λ e. ret false) P) (healthz c k env stamp) read_status
          (Always-mono _ _ (healthz c k env stamp) keep (fetched health)))
    where
      P : List Event → Outcome Bool → Type 0
      P = HasAsked health shown_health

      read_status : Json → Io Bool
      read_status h = unless_null h "status" (ret (is_healthy h))

      keep :
          (t : List Event) (o : Outcome Json)
          → IsFetch c k env stamp health t o
          → After read_status (Handled ret (λ e. ret false) P) t o
      keep t (failed e) h = rw append-nil (record { reply = failed e; asked = h; view_of = refl })
      keep t (done null) h =
          rw (append-nil, append-nil) (record { reply = done null; asked = h; view_of = refl })
      keep t (done (bool b)) h =
          rw (append-nil, append-nil) (record { reply = done (bool b); asked = h; view_of = refl })
      keep t (done (num n)) h =
          rw (append-nil, append-nil) (record { reply = done (num n); asked = h; view_of = refl })
      keep t (done (str s)) h =
          rw (append-nil, append-nil) (record { reply = done (str s); asked = h; view_of = refl })
      keep t (done (arr vs)) h =
          rw (append-nil, append-nil) (record { reply = done (arr vs); asked = h; view_of = refl })
      keep t (done (obj r)) h =
          rw (append-nil, append-nil) (record { reply = done (obj r); asked = h; view_of = refl })

  -- The protocol page has sent one signed request, and shows what can be made of it.
  pub record HasFiltered (t : List Event) (o : Outcome (List Json)) : Type 0 where
    pub reply : Outcome Json
    pub asked : IsFetch c k env stamp (activity "10") t reply
    pub filtered : Filtered reply o

  load_protocol-HasFiltered : Always (load_protocol c k env stamp) HasFiltered
  unfolding load_protocol perform
  load_protocol-HasFiltered =
      Always-try HasFiltered (recent_activity c k env stamp "10") (λ l. settled (payments_of l)) _
        (Always-mono _ _ (recent_activity c k env stamp "10") keep (fetched (activity "10")))
    where
      keep :
          (t : List Event) (o : Outcome Json)
          → IsFetch c k env stamp (activity "10") t o
          → Handled
              (λ l. settled (payments_of l))
              (λ e. settled (payments_of (object (("items", arr nil) ∷ []))))
              HasFiltered
              t
              o
      keep t (failed e) h =
          unfold payments_of in
          rw append-nil (record { reply = failed e; asked = h; filtered = none_read e })
      keep t (done l) h =
          Always-settled (λ u o. HasFiltered (t ++ u) o) (payments_of l)
            (rw append-nil
              (record { reply = done l; asked = h; filtered = payments_of-Filtered l }))

  -- A page that goes on from both replies without a request.
  loaded :
      (limit : String) (page : Json × Json → Loaded) (next : Json × Json → Io Loaded)
      → ((v : Json × Json) → next v ≡ ret (page v))
      → Always
          (try
            (both (balance c k env stamp) (recent_activity c k env stamp limit))
            next
            (λ e. ret (nothing_loaded (message e))))
          (HasLoaded limit page)
  loaded limit page next e =
      Always-try (HasLoaded limit page)
        (both (balance c k env stamp) (recent_activity c k env stamp limit)) next
        (λ e. ret (nothing_loaded (message e)))
        (Always-mono _ _ (both (balance c k env stamp) (recent_activity c k env stamp limit)) keep
          (pair_fetched limit))
    where
      keep :
          (t : List Event) (o : Outcome (Json × Json))
          → IsBoth (IsFetch c k env stamp funds) (IsFetch c k env stamp (activity limit)) t o
          → Handled next (λ e. ret (nothing_loaded (message e))) (HasLoaded limit page) t o
      keep t (failed f) h = rw append-nil (record { replies = failed f; asked = h; view_of = refl })
      keep t (done v) h =
          rw (e v) (rw append-nil (record { replies = done v; asked = h; view_of = refl }))

  read_rows_lem : (v : Json × Json) → read_rows c k env stamp v ≡ ret (rows_shown v)
  read_rows_lem (b, null) = refl
  read_rows_lem (b, bool x) = refl
  read_rows_lem (b, num n) = refl
  read_rows_lem (b, str s) = refl
  read_rows_lem (b, arr vs) = refl
  read_rows_lem (b, obj r) = refl

  load_figures-HasLoaded : Always (load_figures c k env stamp) (HasLoaded "20" figures_shown)
  unfolding load_figures
  load_figures-HasLoaded = loaded "20" figures_shown (λ v. ret (all_loaded v)) (λ v. refl)

  -- The dashboard has asked for the merchant, which throws nothing, and then for its figures.
  abbrev pub IsDashboard : List Event → Outcome (MerchantConfig × Loaded) → Type 0
  IsDashboard = IsBoth (Configured c k env stamp) (HasLoaded "20" figures_shown)

  load_dashboard-IsDashboard : Always (load_dashboard c k env stamp) IsDashboard
  unfolding load_dashboard
  load_dashboard-IsDashboard =
      Always-bind IsDashboard (get_merchant_config_from_api c k env stamp) _ (
        Always-mono _ _ (get_merchant_config_from_api c k env stamp) keep
          (config-Configured c k env stamp))
    where
      keep :
          (t : List Event) (o : Outcome MerchantConfig)
          → Configured c k env stamp t o
          → After (λ m. load_figures c k env stamp >>= λ l. ret (m, l)) IsDashboard t o
      keep t (failed e) h = elim h [ ]
      keep t (done m) h =
          Always-bind (λ u o. IsDashboard (t ++ u) o) (load_figures c k env stamp) (λ l. ret (m, l))
            (Always-mono _ _ (load_figures c k env stamp) more load_figures-HasLoaded)
        where
          more :
              (u : List Event) (o : Outcome Loaded)
              → HasLoaded "20" figures_shown u o
              → After (λ l. ret (m, l)) (λ v o'. IsDashboard (t ++ v) o') u o
          more u (done l) q = rw append-nil (record {
            first_trace = t;
            second_trace = u;
            first_outcome = done m;
            second_outcome = done l;
            first = h;
            second = q;
            sent = refl;
            came = refl;
          })
          more u (failed e) q = record {
            first_trace = t;
            second_trace = u;
            first_outcome = done m;
            second_outcome = failed e;
            first = h;
            second = q;
            sent = refl;
            came = refl;
          }

  load_tokens-HasLoaded : Always (load_tokens c k env stamp) (HasLoaded "50" rows_shown)
  unfolding load_tokens
  load_tokens-HasLoaded = loaded "50" rows_shown (read_rows c k env stamp) read_rows_lem

-- A value whose status is the text `ok`.
pub is_healthy_iff : (h : Json) → (is_healthy h ≡ true) ↔ (get "status" h ≡ some (str "ok"))
is_healthy_iff h = elim (Option-cases (get "status" h)) [
  | inl e ↦ (λ g. absurd (ground (arith, e)), λ g. cc)
  | inr (v, e) ↦ go v e
]
  where
    go :
        (v : Json)
        → get "status" h ≡ some v
        → (is_healthy h ≡ true) ↔ (get "status" h ≡ some (str "ok"))
    go (str s) e =
        (λ g. e ∙ ap (λ x. some (str x)) ((eq_iff s "ok").0 (rw e at g)), λ g. rw (g) refl)
    go null e = (λ g. absurd (ground (arith, e)), λ g. cc)
    go (bool b) e = (λ g. absurd (ground (arith, e)), λ g. cc)
    go (num n) e = (λ g. absurd (ground (arith, e)), λ g. cc)
    go (arr vs) e = (λ g. absurd (ground (arith, e)), λ g. cc)
    go (obj r) e = (λ g. absurd (ground (arith, e)), λ g. cc)

-- A payment is an item of the path of a purchase, or one whose amount in USDC is given and not null.
pub is_x402_payment_iff :
    (it : Json)
    → (is_x402_payment it ≡ true) ↔ (
        (get "path" it ≡ some (str "api/v1/token-purchase"))
        ⊎ ((v : Json) × (get "amount_usdc" it ≡ some v) × (v ≢ null)))
is_x402_payment_iff it = (
  λ h. elim (Bool-cases (is_purchase (get "path" it))) [
    | inl e ↦ inl (purchase_path (get "path" it) e)
    | inr e ↦ inr (given_amount (get "amount_usdc" it) (ground (arith, e)))
  ],
  λ h. elim h [ inl e ↦ rw e refl | inr (v, e, full) ↦ rw e (given v full) ],
)
  where
    purchase_path :
        (o : Option Json) → is_purchase o ≡ true → o ≡ some (str "api/v1/token-purchase")
    purchase_path (some (str s)) h = ap (λ x. some (str x)) ((eq_iff s "api/v1/token-purchase").0 h)
    purchase_path none h = absurd (ground arith)
    purchase_path (some null) h = absurd (ground arith)
    purchase_path (some (bool b)) h = absurd (ground arith)
    purchase_path (some (num n)) h = absurd (ground arith)
    purchase_path (some (arr vs)) h = absurd (ground arith)
    purchase_path (some (obj r)) h = absurd (ground arith)

    given_amount : (o : Option Json) → is_given o ≡ true → (v : Json) × (o ≡ some v) × (v ≢ null)
    given_amount none h = absurd (ground arith)
    given_amount (some null) h = absurd (ground arith)
    given_amount (some (bool b)) h = (_, refl, λ e. cc)
    given_amount (some (num n)) h = (_, refl, λ e. cc)
    given_amount (some (str s)) h = (_, refl, λ e. cc)
    given_amount (some (arr vs)) h = (_, refl, λ e. cc)
    given_amount (some (obj r)) h = (_, refl, λ e. cc)

    given : (v : Json) → v ≢ null → (is_purchase (get "path" it) || is_given (some v)) ≡ true
    given null full = absurd (full refl)
    given (bool b) full = ground arith
    given (num n) full = ground arith
    given (str s) full = ground arith
    given (arr vs) full = ground arith
    given (obj r) full = ground arith

-- However the token API answers: the shell and the protocol page send one signed request each. The shell
-- throws nothing and shows the backend as healthy exactly if its status is ok. The protocol page shows the
-- payments among the items of the reply, or nothing if the call fails, and throws exactly for a reply
-- without a list of items or with one that is null. The tokens page sends two requests, and so does the
-- dashboard after that for the merchant; both show the balance and the activity if both could be
-- read, and else the reason, and throw nothing.
pub run-pages :
    (c : Codec) (k : Crypto) (env : Env) (stamp : Stamp) {S : Type 0}
    (service : S → Request → Reply × S) (s : S)
    → (let r = run service (backend_ok c k env stamp) s in
        HasAsked c k env stamp health shown_health r.trace r.outcome)
      × (let r = run service (load_protocol c k env stamp) s in
          HasFiltered c k env stamp r.trace r.outcome)
      × (let r = run service (load_dashboard c k env stamp) s in
          IsDashboard c k env stamp r.trace r.outcome)
      × (let r = run service (load_tokens c k env stamp) s in
          HasLoaded c k env stamp "50" rows_shown r.trace r.outcome)
run-pages c k env stamp service s = (
  run-Always service _ (backend_ok c k env stamp) s (backend_ok-HasAsked c k env stamp),
  run-Always service _ (load_protocol c k env stamp) s (load_protocol-HasFiltered c k env stamp),
  run-Always service _ (load_dashboard c k env stamp) s (load_dashboard-IsDashboard c k env stamp),
  run-Always service _ (load_tokens c k env stamp) s (load_tokens-HasLoaded c k env stamp),
)
