-- ===== src/Advice/Turns.antt =====
-- The turns that a request for advice may send.
use x402_token_market.Base.{
  ℕ, suc, zero, ◌-◌, ◌≤◌, ◌≡◌, ◌≢◌, ◌↔◌, ◌∙◌, refl, ap, false, String, Option, none, some, inl, inr,
  Bool-cases, Option-cases, All, All-filter_map, length, length-filter_map, length-drop,
  text_length, take_text, trim, str_eq, eq_iff, arith,
}
use x402_token_market.Json.{Json, null, bool, num, str, arr, obj, elems, get}
use x402_token_market.Netstars.{Role, user, assistant, ChatMessage, role_text}
use x402_token_market.Advice.{
  read_role, read_content, normalize_message, normalize_messages, last_ten,
}

-- A turn has a content of at most 1200 characters.
abbrev pub IsTurn : ChatMessage → Type 0
IsTurn m = (m.content ≢ "") × (text_length m.content ≤ 1200)

text_length-take_text : (n : ℕ) (s : String) → text_length (take_text n s) ≤ n
text_length-take_text zero s = omega arith
text_length-take_text (suc n) String.[] = omega arith
text_length-take_text (suc n) (String.◌∷◌ c s) = omega (arith, text_length-take_text n s)

take_text-ne-empty : (n : ℕ) (s : String) → s ≢ "" → take_text (suc n) s ≢ ""
take_text-ne-empty n String.[] h = absurd (h refl)
take_text-ne-empty n (String.◌∷◌ c s) h = λ e. absurd (omega (arith, ap text_length e))

not_empty : (s : String) → str_eq s "" ≡ false → s ≢ ""
not_empty s h e = ground (arith, eq_iff s "")

read_content_kept :
    (t s : String)
    → str_eq (trim t) "" ≡ false
    → read_content (some (str t)) ≡ some s
    → s ≡ take_text 1200 (trim t)
unfolding read_content
read_content_kept t s h e = ground arith

read_content_bounds :
    (v : Option Json) (s : String) → read_content v ≡ some s → (s ≢ "") × (text_length s ≤ 1200)
unfolding read_content
read_content_bounds (some (str t)) s e = elim (Bool-cases (str_eq (trim t) "")) [
  | inl h ↦ absurd (ground (arith, h))
  | inr h ↦
      rw (read_content_kept t s h e) (
        take_text-ne-empty 1199 (trim t) (not_empty (trim t) h),
        text_length-take_text 1200 (trim t),
      )
]
read_content_bounds none s e = cc
read_content_bounds (some null) s e = cc
read_content_bounds (some (bool b)) s e = cc
read_content_bounds (some (num n)) s e = cc
read_content_bounds (some (arr vs)) s e = cc
read_content_bounds (some (obj r)) s e = cc

normalize_message-IsTurn : (v : Json) (m : ChatMessage) → normalize_message v ≡ some m → IsTurn m
unfolding normalize_message
normalize_message-IsTurn v m e = elim (Option-cases (read_role (get "role" v))) [
  | inl h ↦ absurd (ground (arith, h))
  | inr (role, h) ↦ elim (Option-cases (read_content (get "content" v))) [
    | inl g ↦ absurd (ground (arith, h, g))
    | inr (s, g) ↦
        let bounds = read_content_bounds (get "content" v) s g in
        let same : s ≡ m.content = ground (arith, h, g) in rw⁻¹ same bounds
  ]
]

-- At most the last ten entries of a history are kept, and each that is kept has a content that is
-- not empty and has at most 1200 characters.
pub normalize_messages_bounds :
    (v : Option Json) → (length (normalize_messages v) ≤ 10) × All IsTurn (normalize_messages v)
unfolding normalize_messages
normalize_messages_bounds (some (arr vs)) = (
  omega (
    arith,
    length-filter_map normalize_message (last_ten (elems vs)),
    length-drop (length (elems vs) - 10) (elems vs),
  ),
  All-filter_map IsTurn normalize_message normalize_message-IsTurn (last_ten (elems vs)),
)
normalize_messages_bounds none = (omega arith, tt)
normalize_messages_bounds (some null) = (omega arith, tt)
normalize_messages_bounds (some (bool b)) = (omega arith, tt)
normalize_messages_bounds (some (num n)) = (omega arith, tt)
normalize_messages_bounds (some (str s)) = (omega arith, tt)
normalize_messages_bounds (some (obj r)) = (omega arith, tt)

read_role_sound : (o : Option Json) (r : Role) → read_role o ≡ some r → o ≡ some (str (role_text r))
unfolding read_role
read_role_sound (some (str s)) user e = elim (Bool-cases (str_eq s "user")) [
  | inl h ↦ ap (λ x. some (str x)) ((eq_iff s "user").0 h)
  | inr h ↦ absurd (ground (arith, h))
]
read_role_sound (some (str s)) assistant e = elim (Bool-cases (str_eq s "assistant")) [
  | inl h ↦ ap (λ x. some (str x)) ((eq_iff s "assistant").0 h)
  | inr h ↦ absurd (ground (arith, h))
]
read_role_sound none r e = cc
read_role_sound (some null) r e = cc
read_role_sound (some (bool b)) r e = cc
read_role_sound (some (num n)) r e = cc
read_role_sound (some (arr vs)) r e = cc
read_role_sound (some (obj f)) r e = cc

read_role_complete : (r : Role) → read_role (some (str (role_text r))) ≡ some r
unfolding read_role
read_role_complete user = refl
read_role_complete assistant = refl

-- A content that is kept: the first 1200 characters of a text, without the spaces around it.
abbrev pub Shortened : Option Json → String → Type 0
Shortened o s = (t : String) × (o ≡ some (str t)) × (trim t ≢ "") × (s ≡ take_text 1200 (trim t))

read_content_sound : (o : Option Json) (s : String) → read_content o ≡ some s → Shortened o s
unfolding read_content
read_content_sound (some (str t)) s e = elim (Bool-cases (str_eq (trim t) "")) [
  | inl h ↦ absurd (ground (arith, h))
  | inr h ↦ (t, refl, not_empty (trim t) h, read_content_kept t s h e)
]
read_content_sound none s e = cc
read_content_sound (some null) s e = cc
read_content_sound (some (bool b)) s e = cc
read_content_sound (some (num n)) s e = cc
read_content_sound (some (arr vs)) s e = cc
read_content_sound (some (obj r)) s e = cc

read_content_complete :
    (t : String) → trim t ≢ "" → read_content (some (str t)) ≡ some (take_text 1200 (trim t))
unfolding read_content
read_content_complete t full = elim (Bool-cases (str_eq (trim t) "")) [
  | inl h ↦ absurd (full ((eq_iff (trim t) "").0 h))
  | inr h ↦ rw h refl
]

-- An entry of a history is kept as a turn exactly if its role is one of the two and its content is a text
-- that is not blank, of which the first 1200 characters are kept.
pub normalize_message_iff :
    (v : Json) (m : ChatMessage)
    → (normalize_message v ≡ some m)
      ↔ ((get "role" v ≡ some (str (role_text m.role))) × Shortened (get "content" v) m.content)
unfolding normalize_message
normalize_message_iff v m = (forth, back)
  where
    forth :
        normalize_message v ≡ some m
        → (get "role" v ≡ some (str (role_text m.role))) × Shortened (get "content" v) m.content
    forth e = elim (Option-cases (read_role (get "role" v))) [
      | inl h ↦ absurd (ground (arith, h))
      | inr (role, h) ↦ elim (Option-cases (read_content (get "content" v))) [
        | inl g ↦ absurd (ground (arith, h, g))
        | inr (s, g) ↦
            let content : s ≡ m.content = ground (arith, h, g) in
            let same : role ≡ m.role = ground (arith, h, g) in
            (
              read_role_sound (get "role" v) m.role (h ∙ ap some same),
              read_content_sound (get "content" v) m.content (g ∙ ap some content),
            )
      ]
    ]

    back :
        (get "role" v ≡ some (str (role_text m.role))) × Shortened (get "content" v) m.content
        → normalize_message v ≡ some m
    back (role, (t, text, full, content)) =
        let r : read_role (get "role" v) ≡ some m.role = rw role (read_role_complete m.role) in
        let s : read_content (get "content" v) ≡ some m.content =
          rw (text, content) (read_content_complete t full) in
        rw (normalize_message, r, s) refl
