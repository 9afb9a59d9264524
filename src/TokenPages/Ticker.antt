-- ===== src/TokenPages/Ticker.antt =====
-- The ticker of recent activity, netstars/token/console/src/components/LiveActivityTicker.tsx, and the
-- protocol page that shows one, netstars/token/console/src/app/(console)/protocol/page.tsx.
use x402_token_market.Base.{
  ℕ, ◌*◌, ◌≡◌, refl, leb, Bool, true, false, ◌||◌, String, Option, none, some, List, [], ◌∷◌,
  filter, str_eq, ◌⊕◌, if◌then◌else◌,
}
use x402_token_market.Feed.{Read, unreachable, refused, unreadable, received}

pub data Kind : Type 0 where
  credit debit error : Kind

pub record ActivityEvent : Type 0 where
  pub id : String
  pub ts : String
  pub kind : Kind
  pub icon : String
  pub description : String
  pub path : String
  pub amount_jpy : Option ℕ
  pub amount_usdc : Option ℕ
  pub amount_token : ℕ
  pub trace_id : String

pub data Icon : Type 0 where
  brain card warning key : Icon

abbrev icon_of_kind : Kind → Icon
icon_of_kind credit = card
icon_of_kind error = warning
icon_of_kind debit = brain

-- `iconFor`
abbrev pub icon_for : Kind → String → Icon
icon_for kind hint =
    if str_eq hint "🧠"
    then brain
    else if str_eq hint "💳"
    then card
    else if str_eq hint "⚠"
    then warning
    else if str_eq hint "🔑"
    then key
    else icon_of_kind kind

-- `colorFor`
abbrev pub color_for : Kind → String
color_for credit = "text-semantic-success"
color_for error = "text-semantic-danger"
color_for debit = "text-brand-primary"

-- The amount of an entry, with `format_tokens` of lib/utils.ts.
abbrev pub amount_text : (ℕ → String) → ActivityEvent → String
amount_text format_tokens e = of_kind e.kind
  where
    of_kind : Kind → String
    of_kind credit = "+" ⊕ format_tokens e.amount_token
    of_kind error = "—"
    of_kind debit = "−" ⊕ format_tokens e.amount_token

-- `Math.min(idx, 5) * 20`
abbrev pub delay_ms : ℕ → ℕ
delay_ms idx = (if leb idx 5 then idx else 5) * 20

-- `data.items ?? []`
abbrev pub items_or_none : Option (List ActivityEvent) → List ActivityEvent
items_or_none none = []
items_or_none (some l) = l

-- A poll: what fails is swallowed.
unfoldable pub poll : Read (Option (List ActivityEvent)) → List ActivityEvent → List ActivityEvent
poll unreachable events = events
poll refused events = events
poll unreadable events = events
poll (received l) events = items_or_none l

-- The polls, the last first.
unfoldable pub after_polls :
    List (Read (Option (List ActivityEvent))) → List ActivityEvent → List ActivityEvent
unfolding poll
after_polls [] events = events
after_polls (r ∷ rs) events = poll r (after_polls rs events)

abbrev is_some : Option ℕ → Bool
is_some none = false
is_some (some n) = true

-- `it.path === "api/v1/token-purchase" || it.amount_usdc != null`
abbrev pub is_x402 : ActivityEvent → Bool
is_x402 e = str_eq e.path "api/v1/token-purchase" || is_some e.amount_usdc

-- The rows that the protocol page hands to its ticker; the call fails where there are none.
abbrev pub payments : Option (List ActivityEvent) → List ActivityEvent
payments none = []
payments (some items) = filter is_x402 items

-- `ProtocolPage`: the rows of its ticker after polls.
unfoldable pub protocol_ticker :
    Option (List ActivityEvent) → List (Read (Option (List ActivityEvent))) → List ActivityEvent
unfolding after_polls
protocol_ticker initial polls = after_polls polls (payments initial)

-- The rows of the last poll that was read, or those before the polls.
abbrev pub last_read :
    List (Read (Option (List ActivityEvent))) → List ActivityEvent → List ActivityEvent
last_read [] events = events
last_read (received l ∷ rs) events = items_or_none l
last_read (_ ∷ rs) events = last_read rs events

after_polls_lem :
    (rs : List (Read (Option (List ActivityEvent)))) (events : List ActivityEvent)
    → after_polls rs events ≡ last_read rs events
unfolding after_polls
after_polls_lem [] events = refl
after_polls_lem (unreachable ∷ rs) events = after_polls_lem rs events
after_polls_lem (refused ∷ rs) events = after_polls_lem rs events
after_polls_lem (unreadable ∷ rs) events = after_polls_lem rs events
after_polls_lem (received l ∷ rs) events = refl

-- The ticker of the protocol page shows the x402 payments of the first activity as long as no poll could be
-- read, and from then on all the activity of the last poll that could, of whatever kind.
pub protocol_ticker_lem :
    (initial : Option (List ActivityEvent)) (polls : List (Read (Option (List ActivityEvent))))
    → protocol_ticker initial polls ≡ last_read polls (payments initial)
unfolding protocol_ticker
protocol_ticker_lem initial polls = after_polls_lem polls (payments initial)
