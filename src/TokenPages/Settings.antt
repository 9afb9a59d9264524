-- ===== src/TokenPages/Settings.antt =====
-- The tabs of netstars/token/console/src/app/(console)/settings/page.tsx.
use x402_token_market.Base.{
  ◌≡◌, refl, String, Option, none, some, List, [], ◌∷◌, find, or_else, str_eq,
}

pub data Tab : Type 0 where
  account team webhooks integrations security : Tab

abbrev pub tab_id : Tab → String
tab_id account = "account"
tab_id team = "team"
tab_id webhooks = "webhooks"
tab_id integrations = "integrations"
tab_id security = "security"

-- `TABS`
abbrev pub tabs : List Tab
tabs = account ∷ team ∷ webhooks ∷ integrations ∷ security ∷ []

-- `TABS.find((t) => t.id === sp.tab)?.id ?? "account"`
unfoldable pub active_tab : Option String → Tab
active_tab none = account
active_tab (some s) = or_else (find (λ t. str_eq (tab_id t) s) tabs) account

abbrev pub tab_link : Tab → String
tab_link t = tab_id t

-- Each tab's link leads to that tab.
pub active_tab-tab_id : (t : Tab) → active_tab (some (tab_id t)) ≡ t
unfolding active_tab
active_tab-tab_id account = refl
active_tab-tab_id team = refl
active_tab-tab_id webhooks = refl
active_tab-tab_id integrations = refl
active_tab-tab_id security = refl
