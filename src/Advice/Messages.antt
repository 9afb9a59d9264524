-- ===== src/Advice/Messages.antt =====
-- The messages of a request for advice, as far as they are kept.
use x402_token_market.Base.{
  ◌-◌, Bool, true, false, String, Option, none, some, List, [], ◌∷◌, str_eq, length, drop,
  filter_map, trim, take_text, last?, if◌then◌else◌,
}
use x402_token_market.Json.{Json, null, str, arr, elems, get}
use x402_token_market.Net.{error, Io, ret, throw}
use x402_token_market.Netstars.{Role, user, assistant, ChatMessage}

unfoldable pub read_role : Option Json → Option Role
read_role (some (str s)) =
    if str_eq s "user" then some user else if str_eq s "assistant" then some assistant else none
read_role _ = none

-- `typeof content !== "string"`, `trim` and `slice`
unfoldable pub read_content : Option Json → Option String
read_content (some (str s)) = if str_eq (trim s) "" then none else some (take_text 1200 (trim s))
read_content _ = none

-- One turn, or nothing where it has no role or no content.
unfoldable pub normalize_message : Json → Option ChatMessage
normalize_message m = elim (read_role (get "role" m)) [
  | none ↦ none
  | some role ↦ elim (read_content (get "content" m)) [
    | none ↦ none
    | some content ↦ some (record { role = role; content = content })
  ]
]

-- `input.slice(-10)`
abbrev pub last_ten : List Json → List Json
last_ten xs = drop (length xs - 10) xs

-- `normalizeMessages`
unfoldable pub normalize_messages : Option Json → List ChatMessage
normalize_messages (some (arr vs)) = filter_map normalize_message (last_ten (elems vs))
normalize_messages _ = []

-- `(body.userPrompt ?? "").trim()`: what is no text has no `trim`.
abbrev pub user_prompt : Option Json → Io String
user_prompt none = ret ""
user_prompt (some null) = ret ""
user_prompt (some (str s)) = ret (trim s)
user_prompt (some v) = throw (error "TypeError" "trim is not a function" none)

-- `messages`: the history, or else the prompt alone.
unfoldable pub turns : List ChatMessage → String → List ChatMessage
turns [] prompt = if str_eq prompt "" then [] else record { role = user; content = prompt } ∷ []
turns (m ∷ ms) prompt = m ∷ ms

abbrev pub is_user : Role → Bool
is_user user = true
is_user assistant = false

-- `messages.length === 0 || messages[messages.length - 1]?.role !== "user"`, negated.
abbrev pub ends_with_user : List ChatMessage → Bool
ends_with_user ms = elim (last? ms) [ none ↦ false | some m ↦ is_user m.role ]
