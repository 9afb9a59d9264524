-- ===== src/Mock/Random.antt =====
-- The generator mulberry32 on 32-bit words, and what is drawn from it. Its state is the seed as the
-- source counts it up, without a wrap; every draw reads it modulo 2 ^ 32.
use Prim.Native.Nat.{bit_xor, bit_or}
use Prim.Native.Char.{Char}
use native.Mathlib.Nat.{mul-lt-mul_of_pos_right}
use x402_token_market.Base.{
  ℕ, zero, suc, ◌+◌, ◌-◌, ◌*◌, ◌/◌, ◌%◌, ◌≤◌, ◌<◌, ◌≡◌, String, letter_at, text_length, ◌⊕◌, refl,
  arith,
}
use text.Mathlib.TextLemmas.{nil-append, cons-append}

-- `x >>> 0`
abbrev pub uint32 : ℕ → ℕ
uint32 n = n % 4_294_967_296

-- `Math.imul`
abbrev pub imul : ℕ → ℕ → ℕ
imul a b = uint32 (a * b)

-- `x >>> 15`, `x >>> 7` and `x >>> 14`
abbrev shift_15 : ℕ → ℕ
shift_15 n = n / 32_768

abbrev shift_7 : ℕ → ℕ
shift_7 n = n / 128

abbrev shift_14 : ℕ → ℕ
shift_14 n = n / 16_384

-- The scrambling of a word, in the source's three steps.
abbrev first_step : ℕ → ℕ
first_step t = imul (bit_xor t (shift_15 t)) (bit_or t 1)

abbrev second_step : ℕ → ℕ
second_step t = bit_xor t (uint32 (t + imul (bit_xor t (shift_7 t)) (bit_or t 61)))

abbrev pub scramble : ℕ → ℕ
scramble t = let u = second_step (first_step t) in uint32 (bit_xor u (shift_14 u))

-- What is drawn, with the state that follows.
abbrev pub Drawn : Type 0 → Type 0
Drawn A = A × ℕ

-- `rnd()`, as a number of 2 ^ 32nds
unfoldable pub rnd : ℕ → Drawn ℕ
rnd seed = (scramble (uint32 (seed + 1_831_565_813)), seed + 1_831_565_813)

-- `between(lo, hi)`
unfoldable pub between : (lo hi : ℕ) → ℕ → Drawn ℕ
between lo hi seed = let (r, next) = rnd seed in (lo + r * (hi - lo + 1) / 4_294_967_296, next)

-- A digit of `Math.floor(rnd() * 16).toString(16)`
abbrev hex_digit : ℕ → Char
hex_digit n = letter_at "0123456789abcdef" n

-- `randHex`
unfoldable pub rand_hex : ℕ → ℕ → Drawn String
rand_hex zero seed = ("", seed)
rand_hex (suc n) seed =
    let (d, next) = rnd seed in
    let (rest, last) = rand_hex n next in
    (String.◌∷◌ (hex_digit (d * 16 / 4_294_967_296)) rest, last)

-- The trace of a call, `00-<32 digits>-<16 digits>-01`.
unfoldable pub trace_id : ℕ → Drawn String
trace_id seed =
    let (call, next) = rand_hex 32 seed in
    let (span, last) = rand_hex 16 next in ("00-" ⊕ call ⊕ "-" ⊕ span ⊕ "-01", last)

-- `Math.round(a / b)`
abbrev pub round_div : ℕ → ℕ → ℕ
round_div a b = (2 * a + b) / (2 * b)

-- A draw is below 1.
pub rnd-lt : (seed : ℕ) → (rnd seed).0 < 4_294_967_296
unfolding rnd
rnd-lt seed = omega arith

-- `between` stays in its bounds.
pub between_bounds :
    (lo hi seed : ℕ) → lo ≤ hi → (lo ≤ (between lo hi seed).0) × ((between lo hi seed).0 ≤ hi)
unfolding between
between_bounds lo hi seed h = (
  omega arith,
  omega (arith, mul-lt-mul_of_pos_right {k = hi - lo + 1} (rnd-lt seed) (omega arith)),
)

pub text_length-append : (s t : String) → text_length (s ⊕ t) ≡ text_length s + text_length t
text_length-append String.[] t = rw (nil-append t) (omega arith)
text_length-append (String.◌∷◌ c s) t =
    rw (cons-append c s t) (omega (arith, text_length-append s t))

pub text_length-rand_hex : (n seed : ℕ) → text_length (rand_hex n seed).0 ≡ n
unfolding rand_hex
text_length-rand_hex zero seed = refl
text_length-rand_hex (suc n) seed = omega (arith, text_length-rand_hex n (rnd seed).1)

pub text_length-trace_id : (seed : ℕ) → text_length (trace_id seed).0 ≡ 55
unfolding trace_id
text_length-trace_id seed =
    let call = (rand_hex 32 seed).0 in
    let next = (rand_hex 32 seed).1 in
    let span = (rand_hex 16 next).0 in
    omega (
      arith,
      text_length-append "00-" (call ⊕ "-" ⊕ span ⊕ "-01"),
      text_length-append call ("-" ⊕ span ⊕ "-01"),
      text_length-append "-" (span ⊕ "-01"),
      text_length-append span "-01",
      text_length-rand_hex 32 seed,
      text_length-rand_hex 16 next,
    )
