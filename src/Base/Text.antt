-- ===== src/Base/Text.antt =====
-- Text as the source walks it: code points, numbers in decimal, and truncation.
use Prim.Native.Nat.{ℕ, zero, suc, ◌-◌, ◌/◌, ◌%◌}
use Prim.Native.Char.{Char, code}
use Prim.Native.String
use Prim.Native.String.{String, [], ◌∷◌, count}
use mathlib.Core.Path.{◌≡◌, refl}
use mathlib.Core.List.{List}
use mathlib.Core.Bool.{Bool, ◌&&◌, ◌||◌}
use text.Mathlib.Text.{◌==◌ as str_eq}
use x402_token_market.Base.Tests.{ltb, leb, ◌==◌, if◌then◌else◌}

infixr 66 ◌⊕◌
-- The concatenation of a template string.
abbrev pub ◌⊕◌ : String → String → String
s ⊕ t = String.◌++◌ s t

-- `s.slice(0, n)`. The source counts UTF-16 units; this counts code points.
abbrev pub take_text : ℕ → String → String
take_text zero s = ""
take_text (suc n) [] = ""
take_text (suc n) (c ∷ s) = c ∷ take_text n s

-- The characters that pass a test.
abbrev pub keep : (ℕ → Bool) → String → String
keep p [] = ""
keep p (c ∷ s) = let rest = keep p s in if p (code c) then c ∷ rest else rest

unfoldable pub letter_at : String → ℕ → Char
letter_at [] i = "?"
letter_at (c ∷ s) zero = c
letter_at (c ∷ s) (suc i) = letter_at s i

upper_char : Char → Char
unfolding letter_at
upper_char c =
    if leb b'a' (code c) && leb (code c) b'z'
    then letter_at "ABCDEFGHIJKLMNOPQRSTUVWXYZ" (code c - b'a')
    else c

lower_char : Char → Char
unfolding letter_at
lower_char c =
    if leb b'A' (code c) && leb (code c) b'Z'
    then letter_at "abcdefghijklmnopqrstuvwxyz" (code c - b'A')
    else c

-- `s.toUpperCase()` of ASCII text.
unfoldable pub to_upper : String → String
unfolding upper_char
to_upper [] = ""
to_upper (c ∷ s) = upper_char c ∷ to_upper s

-- `s.toLowerCase()` of ASCII text.
unfoldable pub to_lower : String → String
unfolding lower_char
to_lower [] = ""
to_lower (c ∷ s) = lower_char c ∷ to_lower s

-- A character that `trim` takes away.
unfoldable pub is_space : ℕ → Bool
is_space n =
    (leb 9 n && leb n 13)
    || (n == 32)
    || (n == 160)
    || (n == 5760)
    || (leb 8192 n && leb n 8202)
    || (n == 8232)
    || (n == 8233)
    || (n == 8239)
    || (n == 8287)
    || (n == 12288)
    || (n == 65279)

unfoldable pub trim_start : String → String
trim_start [] = ""
trim_start (c ∷ s) = let rest = trim_start s in if is_space (code c) then rest else c ∷ s

unfoldable pub trim_end : String → String
trim_end [] = ""
trim_end (c ∷ s) =
    let rest = trim_end s in if is_space (code c) && (str_eq rest "") then "" else c ∷ rest

-- `s.trim()`
unfoldable pub trim : String → String
unfolding trim_start trim_end
trim s = trim_end (trim_start s)

-- The number of characters. The source counts UTF-16 units.
abbrev pub text_length : String → ℕ
text_length [] = 0
text_length (c ∷ s) = suc (text_length s)

-- `xs.join(separator)`
unfoldable pub join : String → List String → String
join by List.[] = ""
join by (List.◌∷◌ s List.[]) = s
join by (List.◌∷◌ s rest) = s ⊕ by ⊕ join by rest

abbrev pub digit : ℕ → String
digit zero = "0"
digit (suc zero) = "1"
digit (suc (suc zero)) = "2"
digit (suc (suc (suc zero))) = "3"
digit (suc (suc (suc (suc zero)))) = "4"
digit (suc (suc (suc (suc (suc zero))))) = "5"
digit (suc (suc (suc (suc (suc (suc zero)))))) = "6"
digit (suc (suc (suc (suc (suc (suc (suc zero))))))) = "7"
digit (suc (suc (suc (suc (suc (suc (suc (suc zero)))))))) = "8"
digit _ = "9"

unfoldable pub show_from : ℕ → ℕ → String
show_from zero n = ""
show_from (suc fuel) n =
    let front = show_from fuel (n / 10) in if ltb n 10 then digit n else front ⊕ digit (n % 10)

-- `String(n)` of an integer, in decimal. A number has at most as many digits as its value, plus one.
unfoldable pub show : ℕ → String
unfolding show_from
show n = show_from (suc n) n

show_1402 : show 1402 ≡ "1402"
unfolding show
show_1402 = refl

upper_post : to_upper "post" ≡ "POST"
unfolding to_upper
upper_post = refl

trim_example : trim "  a b \n" ≡ "a b"
unfolding trim is_space
trim_example = refl

lower_example : to_lower "zh-CN" ≡ "zh-cn"
unfolding to_lower
lower_example = refl
