-- ===== src/Navigation.antt =====
-- Which entry of a side bar is marked as the page that is shown:
-- netstars/token/console/src/components/Sidebar.tsx, and
-- haba/src/components/enterprise/EnterpriseSidebar.tsx of the shop.
use Prim.Native.Char.{code}
use x402_token_market.Base.{
  ℕ, suc, ◌≤◌, ◌≡◌, refl, ◌==◌, Bool, true, false, not, ◌&&◌, Bool-cases, inl, inr, String, List,
  [], ◌∷◌, ◌++◌, all, if◌then◌else◌, arith,
}

-- `pathname.startsWith(href)`
abbrev pub begins_with : String → String → Bool
begins_with String.[] path = true
begins_with (String.◌∷◌ c href) String.[] = false
begins_with (String.◌∷◌ c href) (String.◌∷◌ d path) = (code c == code d) && begins_with href path

-- `PRIMARY` and `SECONDARY`, by their addresses.
abbrev pub primary : List String
primary =
    "/dashboard" ∷ "/usage" ∷ "/tokens" ∷ "/api-keys" ∷ "/models" ∷ "/revenue" ∷ "/merchants"
    ∷ "/billing" ∷ "/invoices" ∷ "/protocol" ∷ []

abbrev pub secondary : List String
secondary = "/settings" ∷ "/audit" ∷ []

-- `NAV_ITEMS` of the shop
abbrev pub nav_items : List String
nav_items = "/dashboard" ∷ "/budget" ∷ "/topup" ∷ []

-- How many entries are marked.
abbrev pub marked : List String → String → ℕ
marked [] path = 0
marked (href ∷ hrefs) path =
    if begins_with href path then suc (marked hrefs path) else marked hrefs path

-- One of two texts is a beginning of the other.
abbrev overlap : String → String → Bool
overlap String.[] t = true
overlap (String.◌∷◌ c s) String.[] = true
overlap (String.◌∷◌ c s) (String.◌∷◌ d t) = (code c == code d) && overlap s t

apart : List String → Bool
apart [] = true
apart (s ∷ ss) = all (λ t. not (overlap s t)) ss && apart ss

begins-overlap :
    (s t path : String) → begins_with s path ≡ true → begins_with t path ≡ true → overlap s t ≡ true
begins-overlap String.[] t path h g = refl
begins-overlap (String.◌∷◌ c s) String.[] path h g = refl
begins-overlap (String.◌∷◌ c s) (String.◌∷◌ d t) String.[] h g = absurd (cc)
begins-overlap (String.◌∷◌ c s) (String.◌∷◌ d t) (String.◌∷◌ e path) h g =
    let rest : overlap s t ≡ true =
      begins-overlap s t path (ground (arith, h)) (ground (arith, g)) in
    let first : (code c == code d) ≡ true = ground (arith, h, g) in rw (first, rest) refl

none_marked :
    (s path : String) (ss : List String)
    → begins_with s path ≡ true
    → all (λ t. not (overlap s t)) ss ≡ true
    → marked ss path ≡ 0
none_marked s path [] h g = refl
none_marked s path (t ∷ ss) h g = elim (Bool-cases (begins_with t path)) [
  | inl e ↦ absurd (ground (arith, g, begins-overlap s t path h e))
  | inr e ↦ rw e (none_marked s path ss h (ground (arith, g)))
]

marked_once : (ss : List String) (path : String) → apart ss ≡ true → marked ss path ≤ 1
unfolding apart
marked_once [] path h = omega arith
marked_once (s ∷ ss) path h = elim (Bool-cases (begins_with s path)) [
  | inl e ↦ rw e (omega (arith, none_marked s path ss e (ground (arith, h))))
  | inr e ↦ rw e (marked_once ss path (ground (arith, h)))
]

-- Whatever page is shown, at most one entry of either side bar is marked as that page.
pub marked_lem :
    (path : String) → (marked (primary ++ secondary) path ≤ 1) × (marked nav_items path ≤ 1)
unfolding apart
marked_lem path = (marked_once (primary ++ secondary) path refl, marked_once nav_items path refl)
