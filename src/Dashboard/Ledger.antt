-- ===== src/Dashboard/Ledger.antt =====
-- What the top-up history shows, against the ledger's reply.
use x402_token_market.Base.{
  ◌≡◌, ◌≢◌, refl, true, String, none, some, List, [], ◌∷◌, inl, inr, Bool-cases, false,
  if◌then◌else◌, Option-cases, filter, All, sym, ◌∙◌,
}
use x402_token_market.Env.{Env}
use x402_token_market.Json.{
  Json, null, bool, num, str, arr, obj, Items, is_truthy, elems, get, coalesce,
}
use x402_token_market.Json.Codec.{Codec}
use x402_token_market.Net.{
  Request, Response, Thrown, error, Reply, response, rejected, Io, ret, throw, call, Outcome, done,
  Event, run, is_ok, ◌>>=◌, try, read_json,
}
use x402_token_market.Net.Laws.{
  Always, run-Always, Yields, Yields-bind, Yields-self, IsPure, Yields-read_json,
}
use x402_token_market.Route.{HttpResult}
use x402_token_market.Sign.{Crypto, Stamp}
use x402_token_market.Topup.{sliced}
use x402_token_market.Topup.Stages.{Anything, Yields-sliced}
use x402_token_market.Dashboard.{
  tx_hash, is_credit, credits, records, shown, sample_history, ledger_history, read_history,
  topup_history, agent_get, credit_history,
}

-- The entries kept are the credits, and no entry is null.
abbrev Kept : List Json → List Json → Type 0
Kept vs es = (es ≡ filter is_credit vs) × All (λ v. v ≢ null) vs

kept :
    (v : Json) (r : List Json)
    → v ≢ null
    → Yields (Kept r) (credits r)
    → Yields (Kept (v ∷ r)) (credits r >>= λ rest. ret (if is_credit v then v ∷ rest else rest))
kept v r full h = Yields-bind _ _ (credits r) _ h (λ es same. (rw (same.0) refl, (full, same.1)))

-- Filtering gives the entries that are credits, or throws.
Yields-credits : (vs : List Json) → Yields (Kept vs) (credits vs)
unfolding credits
Yields-credits [] = (refl, tt)
Yields-credits (null ∷ r) = tt
Yields-credits (bool b ∷ r) = kept (bool b) r (λ e. cc) (Yields-credits r)
Yields-credits (num n ∷ r) = kept (num n) r (λ e. cc) (Yields-credits r)
Yields-credits (str s ∷ r) = kept (str s) r (λ e. cc) (Yields-credits r)
Yields-credits (arr vs ∷ r) = kept (arr vs) r (λ e. cc) (Yields-credits r)
Yields-credits (obj f ∷ r) = kept (obj f) r (λ e. cc) (Yields-credits r)

Yields-tx_hash : (c : Codec) (now : String) (e : Json) → Yields Anything (tx_hash c now e)
Yields-tx_hash c now e = elim (Bool-cases (is_truthy (get "trace_id" e))) [
  | inl h ↦ rw h (
      Yields-bind Anything Anything (sliced c 8 "" (get "trace_id" e)) _
        (Yields-sliced c 8 "" (get "trace_id" e)) (λ t _. tt))
  | inr h ↦ rw h tt
]

Yields-records : (c : Codec) (now : String) (es : List Json) → Yields Anything (records c now es)
unfolding records
Yields-records c now [] = tt
Yields-records c now (e ∷ es) =
    Yields-bind Anything Anything (tx_hash c now e) _ (Yields-tx_hash c now e) (λ tx _.
      Yields-bind Anything Anything (records c now es) _ (Yields-records c now es) (λ rs _. tt))

IsPure-of_Yields : {A : Type 0} (P : A → Type 0) (m : Io A) → Yields P m → IsPure m
IsPure-of_Yields P (ret a) y = tt
IsPure-of_Yields P (throw e) y = tt
IsPure-of_Yields P (call r k) y = elim y [ ]

records_self :
    (c : Codec) (now : String) (es : List Json)
    → Yields (λ rs. records c now es ≡ ret rs) (records c now es)
records_self c now es =
    Yields-self (records c now es) (IsPure-of_Yields Anything _ (Yields-records c now es))

-- Filtering takes a list without null entries to its credits.
credits-filter : (vs : List Json) → All (λ v. v ≢ null) vs → credits vs ≡ ret (filter is_credit vs)
unfolding credits
credits-filter [] h = refl
credits-filter (null ∷ r) h = absurd (h.0 refl)
credits-filter (bool b ∷ r) h = rw (credits-filter r h.1) refl
credits-filter (num n ∷ r) h = rw (credits-filter r h.1) refl
credits-filter (str s ∷ r) h = rw (credits-filter r h.1) refl
credits-filter (arr vs ∷ r) h = rw (credits-filter r h.1) refl
credits-filter (obj f ∷ r) h = rw (credits-filter r h.1) refl

module _ (c : Codec) (now : String) where
  -- A reply that can be shown: in the range of success, JSON with a list of items, none of them null and one
  -- at least a credit, of which records can be made.
  pub record Showable (r : Response) (json : Json) (vs : Items) (rs : List Json) : Type 0 where
    pub ok : is_ok r ≡ true
    pub parsed : c.parse r.text ≡ some json
    pub listed : get "items" json ≡ some (arr vs)
    pub whole : All (λ v. v ≢ null) (elems vs)
    pub credited : filter is_credit (elems vs) ≢ []
    pub recorded : records c now (filter is_credit (elems vs)) ≡ ret rs

  abbrev pub answer_for : Json → List Json → HttpResult
  answer_for json rs = shown rs (coalesce (get "is_mock" json) (bool false))

  -- The answer is the records of every credit of the ledger where the reply can be shown, and the sample
  -- where it cannot.
  pub data Shown (r : Response) : HttpResult → Type 0 where
    sample :
        ¬ ((json : Json) × (vs : Items) × (rs : List Json) × Showable r json vs rs)
        → Shown r sample_history
    ledger :
        (json : Json) (vs : Items) (rs : List Json)
        → Showable r json vs rs
        → Shown r (answer_for json rs)

  history_of_credits :
      (json : Json) (es : List Json) (rs : List Json)
      → es ≢ []
      → records c now es ≡ ret rs
      → credit_history c now json es ≡ ret (answer_for json rs)
  history_of_credits json [] rs full made = absurd (full refl)
  history_of_credits json (e ∷ es) rs full made = rw made refl

  ledger_history_shown :
      (json : Json) (vs : Items) (rs : List Json)
      → get "items" json ≡ some (arr vs)
      → All (λ v. v ≢ null) (elems vs)
      → filter is_credit (elems vs) ≢ []
      → records c now (filter is_credit (elems vs)) ≡ ret rs
      → ledger_history c now json ≡ ret (answer_for json rs)
  unfolding ledger_history
  ledger_history_shown json vs rs listed whole credited recorded =
      rw (listed, ledger_history, credits-filter (elems vs) whole)
        (history_of_credits json (filter is_credit (elems vs)) rs credited recorded)

  read_history_shown :
      (r : Response) (json : Json) (vs : Items) (rs : List Json)
      → Showable r json vs rs
      → read_history c now r ≡ ret (answer_for json rs)
  read_history_shown r json vs rs h =
      rw (h.ok, h.parsed) (ledger_history_shown json vs rs h.listed h.whole h.credited h.recorded)

  -- A reply without a credit cannot be shown.
  no_credit :
      (r : Response) (json : Json) (vs : Items)
      → c.parse r.text ≡ some json
      → get "items" json ≡ some (arr vs)
      → filter is_credit (elems vs) ≡ []
      → ¬ ((json : Json) × (vs : Items) × (rs : List Json) × Showable r json vs rs)
  no_credit r json vs parsed have none_left (json', vs', rs, h) =
      let same : json' ≡ json = some_injective (sym h.parsed ∙ parsed) in
      let listed : get "items" json ≡ some (arr vs') = rw⁻¹ same h.listed in
      let items : vs' ≡ vs = arr_injective (some_injective (sym listed ∙ have)) in
      h.credited (rw items none_left)
    where
      some_injective : {a b : Json} → some a ≡ some b → a ≡ b
      some_injective e = cc

      arr_injective : {a b : Items} → arr a ≡ arr b → a ≡ b
      arr_injective e = cc

  credit_history-Shown :
      (r : Response) (json : Json) (vs : Items)
      → is_ok r ≡ true
      → c.parse r.text ≡ some json
      → get "items" json ≡ some (arr vs)
      → (es : List Json) → Kept (elems vs) es
      → Yields (Shown r) (credit_history c now json es)
  credit_history-Shown r json vs ok parsed have [] (same, whole) =
      sample (no_credit r json vs parsed have (sym same))
  credit_history-Shown r json vs ok parsed have (e ∷ es) (same, whole) =
      Yields-bind _ (Shown r) (records c now (e ∷ es)) _ (records_self c now (e ∷ es)) (λ rs made.
        ledger json vs rs (record {
          ok = ok;
          parsed = parsed;
          listed = have;
          whole = whole;
          credited = λ empty. cc;
          recorded = rw⁻¹ same made;
        }))

  ledger_history-Shown :
      (r : Response) (json : Json)
      → is_ok r ≡ true
      → c.parse r.text ≡ some json
      → Yields (Shown r) (ledger_history c now json)
  unfolding ledger_history
  ledger_history-Shown r json ok parsed = elim (Option-cases (get "items" json)) [
    | inl e ↦ rw (e, ledger_history) tt
    | inr (v, e) ↦ rw (e, ledger_history) (entries v e)
  ]
    where
      entries :
          (v : Json)
          → get "items" json ≡ some v
          → Yields (Shown r) (elim v [
            | arr vs ↦ credits (elems vs) >>= credit_history c now json
            | _ ↦ throw (error "TypeError" "json.items.filter is not a function" none)
          ])
      entries (arr vs) e =
          Yields-bind _ (Shown r) (credits (elems vs)) _ (Yields-credits (elems vs))
            (λ es same. credit_history-Shown r json vs ok parsed e es same)
      entries null e = tt
      entries (bool b) e = tt
      entries (num n) e = tt
      entries (str s) e = tt
      entries (obj f) e = tt

  read_history-Shown : (r : Response) → Yields (Shown r) (read_history c now r)
  read_history-Shown r = elim (Bool-cases (is_ok r)) [
    | inl e ↦ rw e (
        Yields-bind _ (Shown r) (read_json c r) _ (Yields-read_json c r)
          (λ json parsed. ledger_history-Shown r json e parsed))
    | inr e ↦ rw e (sample (λ (json, vs, rs, h). false_true (sym e ∙ h.ok)))
  ]
    where
      false_true : false ≡ true → ⊥
      false_true e = cc

  -- Where reading the reply throws, it cannot be shown.
  not_read :
      (r : Response) (e : Thrown)
      → throw e ≡ read_history c now r
      → ¬ ((json : Json) × (vs : Items) × (rs : List Json) × Showable r json vs rs)
  not_read r e same (json, vs, rs, h) = apart (same ∙ read_history_shown r json vs rs h)
    where
      apart : {v : HttpResult} → throw e ≡ ret v → ⊥
      apart e = cc

-- The answer of the route to each reply, and to a rejection.
module _ (c : Codec) (k : Crypto) (env : Env) (stamp : Stamp) (now : String) where
  pub data History : List Event → Outcome HttpResult → Type 0 where
    unreachable :
        (e : Thrown)
        → History
            ((agent_get c k env stamp "/v1/recent-activity" "?limit=30", rejected e) ∷ [])
            (done sample_history)
    read :
        (r : Response) (v : HttpResult)
        → Shown c now r v
        → History
            ((agent_get c k env stamp "/v1/recent-activity" "?limit=30", response r) ∷ [])
            (done v)

  topup_history-History : Always (topup_history c k env stamp now) History
  unfolding topup_history
  topup_history-History (rejected e) = unreachable e
  topup_history-History (response r) = go (read_history c now r) refl (read_history-Shown c now r)
    where
      go :
          (m : Io HttpResult)
          → m ≡ read_history c now r
          → Yields (Shown c now r) m
          → Always (try m ret (λ _. ret sample_history)) (λ t o.
            History ((agent_get c k env stamp "/v1/recent-activity" "?limit=30", response r) ∷ t) o)
      go (ret v) same y = read r v y
      go (throw e) same y = read r sample_history (sample (not_read c now r e same))
      go (call q n) same y = elim y [ ]

-- However the ledger answers, the top-up history sends one request, throws nothing, and shows the records of
-- all entries of the reply that are credits and of nothing else, exactly where the reply is in the range of
-- success and is JSON with a list of items, none null and one a credit, of which records can be made; and
-- else the sample.
pub run-topup_history-History :
    (c : Codec) (k : Crypto) (env : Env) (stamp : Stamp) (now : String) {S : Type 0}
    (service : S → Request → Reply × S) (s : S)
    → let r = run service (topup_history c k env stamp now) s in
      History c k env stamp now r.trace r.outcome
run-topup_history-History c k env stamp now service s =
    run-Always service (History c k env stamp now) (topup_history c k env stamp now) s
      (topup_history-History c k env stamp now)
