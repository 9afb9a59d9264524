-- ===== src/Mock/Keys/Logs.antt =====
-- What the sample logs hold, whatever is drawn.
use x402_token_market.Base.{
  ℕ, zero, suc, ◌-◌, ◌*◌, ◌%◌, ◌≤◌, ◌≡◌, refl, ap, ◌⊎◌, inl, inr, ltb, String, none, some, List, [],
  ◌∷◌, ◌⊕◌, length, Bool-cases, if◌then◌else◌, text_length, take_text, arith,
}
use x402_token_market.Mock.{
  rnd, between, between_bounds, rand_hex, text_length-rand_hex, text_length-trace_id,
  text_length-append, Calendar, KeyCallRow, succeed, timeout, error, AuditRow,
}
use x402_token_market.Mock.Keys.{
  call_row, call_rows, get_key_calls_mock, audit_action, audit_row, audit_rows, get_audit_mock,
}

-- The tokens and the cost are there exactly for a call that succeeded.
pub data IsCallRow (r : KeyCallRow) : Type 0 where
  answered :
      (n cost : ℕ)
      → r.status ≡ succeed
      → r.tokens ≡ some n
      → r.cost_jpy ≡ some cost
      → 2_500 ≤ n
      → n ≤ 4_800
      → 280 ≤ cost
      → cost ≤ 520
      → IsCallRow r
  dropped :
      (r.status ≡ timeout) ⊎ (r.status ≡ error) → r.tokens ≡ none → r.cost_jpy ≡ none → IsCallRow r

-- Rows that go back in time from `t`, each at least `lo` and at most `hi` milliseconds before the last.
pub data IsLog {A : Type 0} (ts : A → String) (cal : Calendar) (lo hi : ℕ) (P : ℕ → A → Type 0)
    : ℕ → ℕ → List A → Type 0 where
  ends : {i t : ℕ} → IsLog ts cal lo hi P i t []
  goes_on :
      {i t : ℕ} (gap : ℕ) {a : A} {rest : List A}
      → P i a
      → ts a ≡ cal.iso t
      → lo ≤ gap
      → gap ≤ hi
      → IsLog ts cal lo hi P (suc i) (t - gap) rest
      → IsLog ts cal lo hi P i t (a ∷ rest)

abbrev pub IsTraced : ℕ → KeyCallRow → Type 0
IsTraced i r = IsCallRow r × (text_length r.trace_id ≡ 55)

call_row-IsTraced :
    (cal : Calendar) (i t seed : ℕ)
    → IsTraced i (call_row cal t seed).0 × ((call_row cal t seed).0.ts ≡ cal.iso t)
unfolding call_row
call_row-IsTraced cal i t seed = elim (Bool-cases (ltb (12 * 4_294_967_296) (100 * (rnd seed).0))) [
  | inl e ↦
      let (low, high) = between_bounds 2_500 4_800 (rnd seed).1 (omega arith) in
      let (least, most) =
        between_bounds 280 520 (between 2_500 4_800 (rnd seed).1).1 (omega arith) in
      rw e ((answered _ _ refl refl refl low high least most, text_length-trace_id _), refl)
  | inr e ↦ rw e ((dropped (failure (rnd (rnd seed).1).0) refl refl, text_length-trace_id _), refl)
]
  where
    failure :
        (f : ℕ)
        → ((if ltb 4_294_967_296 (2 * f) then timeout else error) ≡ timeout)
          ⊎ ((if ltb 4_294_967_296 (2 * f) then timeout else error) ≡ error)
    failure f = elim (Bool-cases (ltb 4_294_967_296 (2 * f))) [
      | inl e ↦ rw e (inl refl)
      | inr e ↦ rw e (inr refl)
    ]

call_rows-IsLog :
    (cal : Calendar) (n i t seed : ℕ)
    → IsLog (λ r. r.ts) cal 2_000 18_000 IsTraced i t (call_rows cal n t seed).0
      × (length (call_rows cal n t seed).0 ≡ n)
unfolding call_rows
call_rows-IsLog cal zero i t seed = (ends, refl)
call_rows-IsLog cal (suc n) i t seed =
    let next = (call_row cal t seed).1 in
    let (traced, at) = call_row-IsTraced cal i t seed in
    let (low, high) = between_bounds 2_000 18_000 next (omega arith) in
    let (log, count) =
      call_rows-IsLog cal n (suc i) (t - (between 2_000 18_000 next).0)
        (between 2_000 18_000 next).1 in
    (goes_on (between 2_000 18_000 next).0 traced at low high log, ap suc count)

-- The entries take turns over the six actions.
pub record IsAudit (i : ℕ) (r : AuditRow) : Type 0 where
  pub actor : r.actor ≡ (audit_action (i % 6)).actor
  pub action : r.action ≡ (audit_action (i % 6)).action
  pub resource : text_length r.resource_id ≡ 14
  pub trace : text_length r.trace_id ≡ 55

three_letters : (k : ℕ) → text_length (take_text 3 (audit_action k).resource_type) ≡ 3
three_letters zero = refl
three_letters (suc zero) = refl
three_letters (suc (suc zero)) = refl
three_letters (suc (suc (suc zero))) = refl
three_letters (suc (suc (suc (suc zero)))) = refl
three_letters (suc (suc (suc (suc (suc k))))) = refl

audit_row-IsAudit :
    (i : ℕ) (ts : String) (seed : ℕ)
    → IsAudit i (audit_row (audit_action (i % 6)) ts seed).0
      × ((audit_row (audit_action (i % 6)) ts seed).0.ts ≡ ts)
unfolding audit_row
audit_row-IsAudit i ts seed =
    let kind = take_text 3 (audit_action (i % 6)).resource_type in
    (
      record {
        actor = refl;
        action = refl;
        resource = omega (
          arith,
          text_length-append kind ("_" ⊕ (rand_hex 10 seed).0),
          text_length-append "_" (rand_hex 10 seed).0,
          three_letters (i % 6),
          text_length-rand_hex 10 seed,
        );
        trace = text_length-trace_id (rand_hex 10 seed).1;
      },
      refl,
    )

audit_rows-IsLog :
    (cal : Calendar) (n i t seed : ℕ)
    → IsLog (λ r. r.ts) cal 60_000 600_000 IsAudit i t (audit_rows cal n i t seed).0
      × (length (audit_rows cal n i t seed).0 ≡ n)
unfolding audit_rows
audit_rows-IsLog cal zero i t seed = (ends, refl)
audit_rows-IsLog cal (suc n) i t seed =
    let next = (audit_row (audit_action (i % 6)) (cal.iso t) seed).1 in
    let (entry, at) = audit_row-IsAudit i (cal.iso t) seed in
    let (low, high) = between_bounds 60_000 600_000 next (omega arith) in
    let (log, count) =
      audit_rows-IsLog cal n (suc i) (t - (between 60_000 600_000 next).0)
        (between 60_000 600_000 next).1 in
    (goes_on (between 60_000 600_000 next).0 entry at low high log, ap suc count)

-- At every time and for every seed, the calls of a key are twelve, from half a minute ago back in steps
-- of 2 to 18 seconds, each with a trace of 55 characters, and with tokens and a cost in their bounds
-- exactly if it succeeded. The audit log has as many entries as are asked for, from now back in steps of
-- 1 to 10 minutes, which take turns over the six actions, with identifiers of 14 and 55 characters.
pub sample_logs :
    (cal : Calendar) (limit now seed : ℕ)
    → (let rows = (get_key_calls_mock cal now seed).0 in
        IsLog (λ r. r.ts) cal 2_000 18_000 IsTraced 0 (now - 30_000) rows × (length rows ≡ 12))
      × (let rows = (get_audit_mock cal limit now seed).0 in
          IsLog (λ r. r.ts) cal 60_000 600_000 IsAudit 0 now rows × (length rows ≡ limit))
unfolding get_key_calls_mock get_audit_mock
sample_logs cal limit now seed =
    (call_rows-IsLog cal 12 0 (now - 30_000) seed, audit_rows-IsLog cal limit 0 now seed)
