-- ===== src/TokenPages/Audit.antt =====
-- The filters of the audit log, netstars/token/console/src/app/(console)/audit/page.tsx.
use x402_token_market.Base.{
  ℕ, ◌≡◌, refl, sym, ap, ◌∙◌, Bool, true, ◌&&◌, ◌||◌, Bool-cases, inl, inr, String, Option, none,
  some, List, [], ◌∷◌, filter, str_eq, take_text, ◌⊕◌, if◌then◌else◌,
}
use x402_token_market.Mock.{Calendar, AuditRow}
use x402_token_market.Mock.Keys.{get_audit_mock}

-- The parameters of the query.
pub record Query : Type 0 where
  pub trace : Option String
  pub actor : Option String
  pub action : Option String

-- `if (wanted) rows = rows.filter((r) => r.field === wanted)`
unfoldable pub filter_by : (AuditRow → String) → Option String → List AuditRow → List AuditRow
filter_by field none rows = rows
filter_by field (some wanted) rows =
    if str_eq wanted "" then rows else filter (λ r. str_eq (field r) wanted) rows

-- The rows of the table.
unfoldable pub shown_rows : Query → List AuditRow → List AuditRow
unfolding filter_by
shown_rows q rows = filter_by (λ r. r.action) q.action (filter_by (λ r. r.actor) q.actor rows)

-- `AuditPage`, on the sample log.
unfoldable pub audit_page : Calendar → ℕ → ℕ → Query → List AuditRow
unfolding shown_rows
audit_page cal now seed q = shown_rows q (get_audit_mock cal 60 now seed).0

-- The chip that names the trace of the query.
abbrev pub trace_chip : Query → Option String
trace_chip q = chip q.trace
  where
    chip : Option String → Option String
    chip none = none
    chip (some t) = if str_eq t "" then none else some ("trace: " ⊕ take_text 16 t ⊕ "…")

-- A row is wanted by a parameter that is missing or empty, or that is its field.
abbrev pub is_wanted : Option String → String → Bool
is_wanted none field = true
is_wanted (some wanted) field = str_eq wanted "" || str_eq field wanted

filter-true :
    (rows : List AuditRow) (p : AuditRow → Bool)
    → ((r : AuditRow) → p r ≡ true)
    → filter p rows ≡ rows
filter-true [] p h = refl
filter-true (r ∷ rows) p h = rw (h r, filter-true rows p h) refl

filter_by_lem :
    (field : AuditRow → String) (wanted : Option String) (rows : List AuditRow)
    → filter_by field wanted rows ≡ filter (λ r. is_wanted wanted (field r)) rows
unfolding filter_by
filter_by_lem field none rows = sym (filter-true rows _ (λ r. refl))
filter_by_lem field (some w) rows = elim (Bool-cases (str_eq w "")) [
  | inl e ↦ rw e (sym (filter-true rows _ (λ r. refl)))
  | inr e ↦ rw e refl
]

filter-filter :
    (p q : AuditRow → Bool) (rows : List AuditRow)
    → filter q (filter p rows) ≡ filter (λ r. p r && q r) rows
filter-filter p q [] = refl
filter-filter p q (r ∷ rows) = elim (Bool-cases (p r)) [
  | inl e ↦ rw (e, filter-filter p q rows) refl
  | inr e ↦ rw (e, filter-filter p q rows) refl
]

-- The audit page shows, in the order of the log, exactly the rows whose actor and action are those of
-- the query, where it has them; the trace of the query takes no row away and moves none.
pub audit_page_lem :
    (cal : Calendar) (now seed : ℕ) (q : Query)
    → audit_page cal now seed q
      ≡ filter
          (λ r. is_wanted q.actor r.actor && is_wanted q.action r.action)
          (get_audit_mock cal 60 now seed).0
unfolding audit_page shown_rows
audit_page_lem cal now seed q =
    let rows = (get_audit_mock cal 60 now seed).0 in
    filter_by_lem (λ r. r.action) q.action (filter_by (λ r. r.actor) q.actor rows)
    ∙ ap (filter (λ r. is_wanted q.action r.action)) (filter_by_lem (λ r. r.actor) q.actor rows)
    ∙ filter-filter (λ r. is_wanted q.actor r.actor) (λ r. is_wanted q.action r.action) rows
