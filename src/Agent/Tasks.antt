-- ===== src/Agent/Tasks.antt =====
-- The three tasks, and which of them a request asks for.
use x402_token_market.Base.{
  false, String, Option, none, some, List, [], ◌∷◌, any, str_eq, if◌then◌else◌,
}
use x402_token_market.Json.{Json, num, str, arr, whole, items, object, get, is_truthy}
use x402_token_market.Json.Codec.{Codec, to_text}
use x402_token_market.Route.{defined}

-- `SYSTEM_PROMPT`
abbrev pub system_prompt : String
system_prompt =
    "You are a cross-border e-commerce operations agent specializing in Japan and Southeast Asia markets. Provide concise, professional advice in English. Limit responses to 300 words."

abbrev pub pricing : String
pricing =
    "Analyze this pricing scenario: a competitor SKU (similar health supplement) is priced at ¥3,800 in Japan, our production cost is ¥1,200, and our current selling price is ¥4,200. Provide specific pricing adjustment recommendations with reasoning."

abbrev pub copy : String
copy =
    "Generate both English (under 50 words) and Japanese (under 80 characters) product descriptions for a new 'Organic Maca Capsules' product. Highlight: energy boost, improved sleep quality, and natural certification."

abbrev pub logistics : String
logistics =
    "Compare DHL Express, Japan EMS, and SAL mail for shipping a 1kg package from Shanghai to Tokyo. Break down delivery time and cost for each option, then recommend the best choice for different priority scenarios (speed vs cost)."

-- What `TASKS[key]` can be: the prompt of a task, or what every object inherits, a function or the
-- prototype itself.
pub data Prompt : Type 0 where
  written : String → Prompt
  function prototype : Prompt

-- The functions that every object has.
abbrev pub inherited : List String
inherited =
    "constructor" ∷ "toString" ∷ "toLocaleString" ∷ "valueOf" ∷ "hasOwnProperty" ∷ "isPrototypeOf"
    ∷ "propertyIsEnumerable" ∷ "__defineGetter__" ∷ "__defineSetter__" ∷ "__lookupGetter__"
    ∷ "__lookupSetter__" ∷ []

-- `TASKS[key]`
unfoldable pub tasks : String → Option Prompt
tasks key =
    if str_eq key "pricing"
    then some (written pricing)
    else if str_eq key "copy"
    then some (written copy)
    else if str_eq key "logistics"
    then some (written logistics)
    else if any (str_eq key) inherited
    then some function
    else if str_eq key "__proto__"
    then some prototype
    else none

abbrev pub default_task : Json × Prompt
default_task = (str "pricing", written pricing)

-- `if (body.task && TASKS[body.task]) taskId = body.task`
unfoldable pub pick_task : Codec → Option Json → Json × Prompt
pick_task c none = default_task
pick_task c (some task) = elim (tasks (to_text c (some task))) [
  | none ↦ default_task
  | some prompt ↦ if is_truthy (some task) then ((task, prompt)) else default_task
]

-- `taskId` with its prompt, from the text of a request; a body that cannot be read keeps the default.
unfoldable pub read_task : Codec → String → Json × Prompt
read_task c text = elim (c.parse text) [
  | none ↦ default_task
  | some body ↦ pick_task c (get "task" body)
]

-- The content of a message, as `JSON.stringify` writes it: a function is left out.
abbrev pub content_json : Prompt → Option Json
content_json (written s) = some (str s)
content_json function = none
content_json prototype = some (object [])

-- `payload`
abbrev pub payload : Prompt → Json
payload prompt = object (
    ("model", str "gpt-4.1")
    ∷ ("system", str system_prompt)
    ∷ (
      "messages",
      arr (
          items (
            object (defined (("role", some (str "user")) ∷ ("content", content_json prompt) ∷ []))
            ∷ [])),
    )
    ∷ ("max_tokens", whole 600)
    ∷ ("temperature", num (record { negative = false; top = 7; under = 9 }))
    ∷ [])
