-- ===== src/TokenPages/Legend.antt =====
-- The legend of netstars/token/console/src/components/ModelPieChart.tsx. The set of hidden models is kept as
-- the list of its elements in the order in which they were added.
use x402_token_market.Base.{
  ℕ, ◌+◌, ◌≡◌, refl, Bool, true, false, not, ◌||◌, Bool-cases, inl, inr, String, List, [], ◌∷◌,
  ◌++◌, filter, any, map, str_eq, eq_iff, eq_refl, if◌then◌else◌,
}
use x402_token_market.Mock.Platform.{ModelBreakdownItem}

-- `hidden.has(model)`
abbrev pub has : String → List String → Bool
has model hidden = any (λ m. str_eq m model) hidden

-- `handleToggle`
unfoldable pub toggle : String → List String → List String
toggle model hidden =
    if has model hidden then filter (λ m. not (str_eq m model)) hidden else hidden ++ model ∷ []

-- The slices of the chart.
unfoldable pub visible : List String → List ModelBreakdownItem → List ModelBreakdownItem
visible hidden items = filter (λ d. not (has d.model hidden)) items

-- `data.reduce((a, d) => a + d.tokenCount, 0)`
abbrev pub total_tokens_from : ℕ → List ModelBreakdownItem → ℕ
total_tokens_from a [] = a
total_tokens_from a (d ∷ items) = total_tokens_from (a + d.token_count) items

abbrev pub total_tokens : List ModelBreakdownItem → ℕ
total_tokens items = total_tokens_from 0 items

-- An entry of the legend: `aria-pressed`.
abbrev pub pressed : List String → ModelBreakdownItem → Bool
pressed hidden item = not (has item.model hidden)

-- Clicks on entries of the legend, the first one first.
abbrev pub clicks : List String → List String → List String
clicks [] hidden = hidden
clicks (m ∷ ms) hidden = clicks ms (toggle m hidden)

-- Whether a model was clicked an odd number of times.
abbrev pub is_odd : String → List String → Bool
is_odd model [] = false
is_odd model (m ∷ ms) = if str_eq m model then not (is_odd model ms) else is_odd model ms

has-append : (x : String) (xs ys : List String) → has x (xs ++ ys) ≡ (has x xs || has x ys)
has-append x [] ys = refl
has-append x (m ∷ xs) ys = elim (Bool-cases (str_eq m x)) [
  | inl e ↦ rw e refl
  | inr e ↦ rw e (has-append x xs ys)
]

has_removed :
    (x : String) (hidden : List String) → has x (filter (λ m. not (str_eq m x)) hidden) ≡ false
has_removed x [] = refl
has_removed x (m ∷ hidden) = elim (Bool-cases (str_eq m x)) [
  | inl e ↦ rw e (has_removed x hidden)
  | inr e ↦ rw (e, has_removed x hidden, e) refl
]

-- The removal of another model does not matter.
has_kept :
    (x y : String) (hidden : List String)
    → str_eq x y ≡ false
    → has y (filter (λ m. not (str_eq m x)) hidden) ≡ has y hidden
has_kept x y [] h = refl
has_kept x y (m ∷ hidden) h = elim (Bool-cases (str_eq m x)) [
  | inl e ↦ let same : m ≡ x = (eq_iff m x).0 e in rw (e, has_kept x y hidden h) (rw (same, h) refl)
  | inr e ↦ rw (e, has_kept x y hidden h) refl
]

-- Negated where a test holds.
abbrev pub flipped : Bool → Bool → Bool
flipped b h = if b then not h else h

toggle_same : (x : String) (hidden : List String) → has x (toggle x hidden) ≡ not (has x hidden)
unfolding toggle
toggle_same x hidden = elim (Bool-cases (has x hidden)) [
  | inl e ↦ rw (e, has_removed x hidden) refl
  | inr e ↦ rw (e, has-append x hidden (x ∷ []), e, eq_refl x) refl
]

toggle_other :
    (m x : String) (hidden : List String)
    → str_eq m x ≡ false
    → has x (toggle m hidden) ≡ has x hidden
unfolding toggle
toggle_other m x hidden h = elim (Bool-cases (has m hidden)) [
  | inl e ↦ rw (e, has_kept m x hidden h) refl
  | inr e ↦ rw (e, has-append x hidden (m ∷ []), h) (or_false (has x hidden))
]
  where
    or_false : (b : Bool) → (b || (false || false)) ≡ b
    or_false true = refl
    or_false false = refl

toggle-has :
    (m x : String) (hidden : List String)
    → has x (toggle m hidden) ≡ flipped (str_eq m x) (has x hidden)
toggle-has m x hidden = elim (Bool-cases (str_eq m x)) [
  | inl e ↦ let same : m ≡ x = (eq_iff m x).0 e in rw (e, same) (toggle_same x hidden)
  | inr e ↦ rw e (toggle_other m x hidden e)
]

clicks-has :
    (ms : List String) (x : String) (hidden : List String)
    → has x (clicks ms hidden) ≡ flipped (is_odd x ms) (has x hidden)
clicks-has [] x hidden = refl
clicks-has (m ∷ ms) x hidden =
    rw (clicks-has ms x (toggle m hidden), toggle-has m x hidden)
      (go (str_eq m x) (is_odd x ms) (has x hidden))
  where
    go : (b odd h : Bool) → flipped odd (flipped b h) ≡ flipped (if b then not odd else odd) h
    go true true true = refl
    go true true false = refl
    go true false h = refl
    go false odd h = refl

filter_cong :
    (p q : ModelBreakdownItem → Bool) (items : List ModelBreakdownItem)
    → ((d : ModelBreakdownItem) → p d ≡ q d)
    → filter p items ≡ filter q items
filter_cong p q [] h = refl
filter_cong p q (d ∷ items) h = rw (h d, filter_cong p q items h) refl

-- After any clicks on the legend, the chart shows the models that were clicked an even number of times, in
-- the order of the rows, and the legend shows exactly those as pressed, whatever order the clicks
-- on different models came in.
pub clicks_lem :
    (ms : List String) (items : List ModelBreakdownItem)
    → (visible (clicks ms []) items ≡ filter (λ d. not (is_odd d.model ms)) items)
      × (map (pressed (clicks ms [])) items ≡ map (λ d. not (is_odd d.model ms)) items)
unfolding visible
clicks_lem ms items = (filter_cong _ _ items each, pressed_cong items)
  where
    each : (d : ModelBreakdownItem) → not (has d.model (clicks ms [])) ≡ not (is_odd d.model ms)
    each d = rw (clicks-has ms d.model []) (go (is_odd d.model ms))
      where
        go : (b : Bool) → not (flipped b false) ≡ not b
        go true = refl
        go false = refl

    pressed_cong :
        (rows : List ModelBreakdownItem)
        → map (pressed (clicks ms [])) rows ≡ map (λ d. not (is_odd d.model ms)) rows
    pressed_cong [] = refl
    pressed_cong (d ∷ rows) = rw (each d, pressed_cong rows) refl
