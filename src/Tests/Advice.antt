-- ===== src/Tests/Advice.antt =====
-- The adviser at concrete requests.
use x402_token_market.Base.{◌≡◌, refl, length, some, [], ◌∷◌, trim, is_space}
use x402_token_market.Json.{Json, str, arr, items, object}
use x402_token_market.Advice.{normalize_messages, normalize_message, read_role, read_content}

-- A greeting, and an entry without a role.
abbrev history : Json
history = arr (
    items (
      object (("role", str "user") ∷ ("content", str " hi ") ∷ [])
      ∷ object (("content", str "lost") ∷ [])
      ∷ []))

one_kept : length (normalize_messages (some history)) ≡ 1
unfolding normalize_messages normalize_message read_role read_content trim is_space
one_kept = refl

abbrev greeting : Json
greeting = object (("role", str "user") ∷ ("content", str "hi") ∷ [])
