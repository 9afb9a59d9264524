-- ===== src/WeaConsole/View.antt =====
-- What the parts of wea/console/src/app/page.tsx show: Header, PulseStrip, WalletCard, LeftColumn,
-- ResultPanel, RightColumn and CallCard. Icons, colours and fixed texts are left out. A cut at a number of
-- characters counts code points, which are the source's units in the texts of a call.
use mathlib.Core.Option
use Prim.Native.Char.{code}
use Prim.Native.String.{String, [], ◌∷◌}
use x402_token_market.Base.{
  ℕ, zero, suc, ◌-◌, ◌==◌, Bool, true, false, not, ◌&&◌, ◌||◌, Option, none, some, List, show, ◌⊕◌,
  or_else, take_text, text_length, starts_with, str_eq, join, map, if◌then◌else◌,
}
use x402_token_market.WeaConsole.{
  CallRecord, Counters, Account, Metrics, ScenarioStep, ScenarioResult, Scenario, trigger_payment,
  direct_verify, WeaPage,
}

abbrev pub drop_text : ℕ → String → String
drop_text zero s = s
drop_text (suc n) [] = ""
drop_text (suc n) (c ∷ s) = drop_text n s

-- `s.slice(-n)`
abbrev pub last_text : ℕ → String → String
last_text n s = drop_text (text_length s - n) s

-- `s.includes(part)`
abbrev pub includes : String → String → Bool
includes [] part = str_eq part ""
includes (c ∷ s) part = starts_with (c ∷ s) part || includes s part

-- `s && …` of a text that may be missing.
abbrev pub nonempty : Option String → Option String
nonempty none = none
nonempty (some s) = if str_eq s "" then none else some s

abbrev pub dash : String
dash = "—"

abbrev pub facilitator_label : Bool → String
facilitator_label wea_ok = if wea_ok then "facilitator live" else "facilitator unreachable"

abbrev pub role_text : Option Metrics → String
role_text m = or_else (Option.map (λ n. n.role) m) dash

abbrev pub count_text : (Counters → ℕ) → Option Metrics → String
count_text field m = or_else (Option.map (λ n. show (field n.counters)) m) dash

-- The text after a beginning, where it is one.
unfoldable pub after_prefix : String → String → Option String
after_prefix [] s = some s
after_prefix (c ∷ p) [] = none
after_prefix (c ∷ p) (d ∷ s) =
    let rest = after_prefix p s in if code c == code d then rest else none

-- The text that `^https?:\/\/` leaves.
abbrev pub or_insecure : Option String → String → Option String
or_insecure (some rest) s = some rest
or_insecure none s = after_prefix "http://" s

unfoldable pub after_scheme : String → Option String
unfolding after_prefix
after_scheme s = or_insecure (after_prefix "https://" s) s

-- `.replace(/^https?:\/\//, "")`
unfoldable pub strip_scheme : String → String
unfolding after_scheme
strip_scheme s = or_else (after_scheme s) s

-- The five figures of PulseStrip.
unfoldable pub pulse : Option Metrics → List String
unfolding strip_scheme
pulse m = List.◌∷◌ (count_text (λ c. c.verify_ok) m) (
    List.◌∷◌ (count_text (λ c. c.verify_fail) m) (
      List.◌∷◌ (count_text (λ c. c.settle_ok) m) (
        List.◌∷◌ (count_text (λ c. c.settle_fail) m) (
          List.◌∷◌
            (or_else
              (nonempty
                (some (strip_scheme (or_else (Option.map (λ n. n.config.network_devnet) m) ""))))
              dash)
            List.[]))))

pub record WalletView : Type 0 where
  pub pubkey : String
  pub explorer : Option String
  pub usdc : String

abbrev pub account_link : String → Option String
account_link pubkey =
    if not (str_eq pubkey "") && not (str_eq pubkey dash)
    then some ("https://explorer.solana.com/address/" ⊕ pubkey ⊕ "?cluster=devnet")
    else none

abbrev account_usdc : Option Account → Option String
account_usdc none = none
account_usdc (some r) = r.usdc

-- A row of WalletCard.
abbrev pub wallet_row : Option Account → WalletView
wallet_row a =
    let pubkey = or_else (Option.map (λ r. r.pubkey) a) dash in
    record { pubkey = pubkey; explorer = account_link pubkey; usdc = or_else (account_usdc a) dash }

abbrev pub mint_text : Option Metrics → String
mint_text m = or_else (Option.map (λ n. take_text 10 n.config.usdc_mint) m) dash ⊕ "…"

abbrev pub mint_link : Option Metrics → String
mint_link m =
    "https://explorer.solana.com/address/"
    ⊕ or_else (Option.map (λ n. n.config.usdc_mint) m) ""
    ⊕ "?cluster=devnet"

-- The buttons of LeftColumn.
pub record ButtonView : Type 0 where
  pub spinning : Bool
  pub disabled : Bool

abbrev same_scenario : Scenario → Scenario → Bool
same_scenario trigger_payment trigger_payment = true
same_scenario direct_verify direct_verify = true
same_scenario _ _ = false

abbrev pub button : Option Scenario → Scenario → ButtonView
button none s = record { spinning = false; disabled = false }
button (some r) s = record { spinning = same_scenario r s; disabled = true }

-- `[…].filter(Boolean).join(" · ")`
abbrev pub kept_parts : List (Option String) → List String
kept_parts List.[] = List.[]
kept_parts (List.◌∷◌ none rest) = kept_parts rest
kept_parts (List.◌∷◌ (some s) rest) = List.◌∷◌ s (kept_parts rest)

unfoldable pub step_details : ScenarioStep → String
step_details s = join " · " (
    kept_parts (
      List.◌∷◌ (Option.map (λ n. "HTTP " ⊕ show n) s.http) (
        List.◌∷◌ (Option.map (λ n. show n ⊕ " ms") s.took_ms) (
          List.◌∷◌ (Option.map (λ t. "payer " ⊕ take_text 8 t ⊕ "…") (nonempty s.payer)) (
            List.◌∷◌ (Option.map (λ t. "nonce " ⊕ take_text 12 t ⊕ "…") (nonempty s.nonce))
              List.[])))))

pub record ResultView : Type 0 where
  pub label : String
  pub expected : Option String
  pub error : Option String
  pub marks : List String
  pub details : List String

abbrev pub result_panel : ScenarioResult → ResultView
result_panel r = record {
  label = if r.ok then "Success" else "Failed";
  expected = nonempty r.expected;
  error = nonempty r.error;
  marks = map (λ s. if s.is_ok then "✓" else "!") r.steps;
  details = map step_details r.steps;
}

slash : ℕ → Bool
slash n = n == 47

-- `[^/]+` takes all up to the first slash.
unfoldable pub after_host : String → String
unfolding slash
after_host [] = ""
after_host (c ∷ s) = let rest = after_host s in if slash (code c) then c ∷ s else rest

-- At least one character that is no slash follows the scheme.
unfoldable pub strip_host : String → String → String
unfolding slash after_host
strip_host whole [] = whole
strip_host whole (c ∷ s) = if slash (code c) then whole else after_host s

abbrev pub strip_from : Option String → String → String
strip_from none s = s
strip_from (some rest) s = strip_host s rest

-- `.replace(/^https?:\/\/[^/]+/, "")`
unfoldable pub strip_origin : String → String
unfolding strip_host after_scheme
strip_origin s = strip_from (after_scheme s) s

-- A card of RightColumn, without the amount and the time of day.
pub record CallView : Type 0 where
  pub verdict : String
  pub took : String
  pub is_verified : Bool
  pub network : String
  pub payer : String
  pub pay_to : String
  pub nonce : Option String
  pub resource : String
  pub error : Option String
  pub explorer : Option String

-- `${s.slice(0, 6)}…${s.slice(-6)}`
abbrev pub shortened : String → String
shortened s = take_text 6 s ⊕ "…" ⊕ last_text 6 s

abbrev pub transaction_link : Bool → String → String
transaction_link is_devnet hash =
    "https://explorer.solana.com/tx/"
    ⊕ hash
    ⊕ "?cluster="
    ⊕ (if is_devnet then "devnet" else "mainnet-beta")

abbrev pub call_card : Bool → CallRecord → CallView
call_card is_devnet c = record {
  verdict = if c.ok then "ok" else "fail";
  took = show c.took_ms ⊕ " ms";
  is_verified = c.had_user_verification;
  network = c.network;
  payer = or_else (Option.map shortened (nonempty c.payer)) dash;
  pay_to = shortened c.pay_to;
  nonce = Option.map (λ n. take_text 16 n ⊕ "…") (nonempty c.nonce);
  resource = strip_origin c.resource;
  error = if c.ok then none else nonempty c.error_reason;
  explorer = Option.map (transaction_link is_devnet) (nonempty c.tx_hash);
}

-- `(network ?? "").includes("devnet")`
abbrev pub is_devnet : Option Metrics → Bool
is_devnet m = includes (or_else (Option.map (λ n. n.config.network_devnet) m) "") "devnet"

-- RightColumn
unfoldable pub cards : WeaPage → List CallView
cards p = map (call_card (is_devnet p.feed.metrics)) p.feed.entries
