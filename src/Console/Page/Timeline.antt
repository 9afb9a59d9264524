-- ===== src/Console/Page/Timeline.antt =====
-- EventCard of netstars/x402/console/src/app/page.tsx: the timeline of an order.
use mathlib.Core.Option
use x402_token_market.Base.{
  ℕ, zero, suc, ◌+◌, ◌-◌, ◌*◌, ◌≤◌, ◌≡◌, refl, ◌∙◌, leb, ◌==◌, Bool, true, false, not, ◌||◌, String,
  Option, none, some, List, [], ◌∷◌, ◌++◌, map, length, take_text, text_length, str_eq, or_else,
  ◌⊕◌, if◌then◌else◌, arith,
}
use x402_token_market.WeaConsole.View.{last_text, drop_text, includes, transaction_link, nonempty}

pub record Proof : Type 0 where
  pub verified : Option Bool
  pub reason : Option String
  pub payer : Option String
  pub had_user_verification : Bool

-- The fields that the timeline reads.
pub record Event : Type 0 where
  pub order_id : String
  pub resource : String
  pub network : String
  pub status : String
  pub status_reason : Option String
  pub tx_hash : Option String
  pub nonce : String
  pub confirmed_at : Option String
  pub proofs : Option (List Proof)

pub data Tone : Type 0 where
  amber emerald rose slate : Tone

-- Which step of the protocol an entry stands for.
pub data Stage : Type 0 where
  challenge proof settlement waiting : Stage

pub record Entry : Type 0 where
  pub stage : Stage
  pub tone : Tone
  pub label : String
  pub extra : String

-- `truncate`
abbrev pub truncate : String → ℕ → String
truncate s n = if leb (text_length s) n then s else take_text (n - 1) s ⊕ "…"

abbrev pub challenge_entry : Event → Entry
challenge_entry e = record {
  stage = challenge;
  tone = amber;
  label = "① 402 challenge issued";
  extra = "resource " ⊕ truncate e.resource 36 ⊕ " · nonce " ⊕ take_text 12 e.nonce ⊕ "…";
}

-- `${p.payer?.slice(0, 8)}…${p.payer?.slice(-6)}`, where a payer may be missing.
abbrev pub payer_text : Option String → String
payer_text none = "undefined…undefined"
payer_text (some p) = take_text 8 p ⊕ "…" ⊕ last_text 6 p

abbrev pub proof_entry : Proof → Entry
proof_entry p =
    let good = or_else p.verified false in
    record {
      stage = proof;
      tone = if good then emerald else rose;
      label = if good then "② proof verified · payer " ⊕ payer_text p.payer else "② proof REJECTED";
      extra = or_else p.reason (
          if p.had_user_verification
          then "carries WebAuthn attestation"
          else "no user-verification attached");
    }

-- `ev.confirmed_at?.slice(11, 19) ?? ""`
abbrev pub confirmed_text : Option String → String
confirmed_text none = ""
confirmed_text (some t) = take_text 8 (drop_text 11 t)

abbrev pub settled_entry : Event → String → Entry
settled_entry e hash = record {
  stage = settlement;
  tone = emerald;
  label = "③ Solana settled";
  extra =
      "tx " ⊕ take_text 10 hash ⊕ "…" ⊕ last_text 8 hash ⊕ " · " ⊕ confirmed_text e.confirmed_at;
}

abbrev pub failed_entry : String → Entry
failed_entry why = record {
  stage = settlement;
  tone = rose;
  label = "③ Settlement failed";
  extra = why;
}

-- The entries for a hash, and for a reason without one.
abbrev pub settlement_entries : Event → Option String → Option String → List Entry
settlement_entries e (some hash) why = settled_entry e hash ∷ []
settlement_entries e none (some why) = failed_entry why ∷ []
settlement_entries e none none = []

abbrev pub waiting_entries : List Proof → List Entry
waiting_entries [] =
    record {
      stage = waiting;
      tone = slate;
      label = "② Waiting for X-PAYMENT retry…";
      extra = "Client has not yet submitted proof";
    }
    ∷ []
waiting_entries (p ∷ ps) = []

-- The timeline, and the link to the transaction.
unfoldable pub timeline : Event → List Entry
timeline e =
    let proofs = or_else e.proofs [] in
    challenge_entry e ∷ map proof_entry proofs
    ++ settlement_entries e (nonempty e.tx_hash) (nonempty e.status_reason)
    ++ waiting_entries proofs

abbrev pub is_failed : String → Bool
is_failed status = str_eq status "failed" || str_eq status "expired" || str_eq status "canceled"

abbrev pub card_tone : Event → Tone
card_tone e =
    if str_eq e.status "confirmed" then emerald else if is_failed e.status then rose else amber

-- The network is the configured one, and the order's own where the configuration is not known.
unfoldable pub explorer_link : Option String → Event → Option String
explorer_link network e =
    Option.map (transaction_link (includes (or_else network e.network) "devnet"))
      (nonempty e.tx_hash)

-- How many entries pass a test.
abbrev pub count : (Entry → Bool) → List Entry → ℕ
count p [] = 0
count p (x ∷ xs) = if p x then suc (count p xs) else count p xs

abbrev pub is_proof : Entry → Bool
is_proof x = of_stage x.stage
  where
    of_stage : Stage → Bool
    of_stage proof = true
    of_stage _ = false

abbrev pub is_waiting : Entry → Bool
is_waiting x = of_stage x.stage
  where
    of_stage : Stage → Bool
    of_stage waiting = true
    of_stage _ = false

abbrev green : Tone → Bool
green emerald = true
green _ = false

abbrev pub is_settled : Entry → Bool
is_settled x = of_stage x.stage
  where
    of_stage : Stage → Bool
    of_stage settlement = green x.tone
    of_stage _ = false

abbrev pub is_broken : Entry → Bool
is_broken x = of_stage x.stage
  where
    of_stage : Stage → Bool
    of_stage settlement = not (green x.tone)
    of_stage _ = false

count-append :
    (p : Entry → Bool) (xs ys : List Entry) → count p (xs ++ ys) ≡ count p xs + count p ys
count-append p [] ys = omega arith
count-append p (x ∷ xs) ys = ground (arith, count-append p xs ys)

count_proofs :
    (p : Entry → Bool) (n : ℕ) (ps : List Proof)
    → ((q : Proof) → p (proof_entry q) ≡ (n == 1))
    → n ≤ 1
    → count p (map proof_entry ps) ≡ n * length ps
count_proofs p n [] h l = omega arith
count_proofs p zero (q ∷ ps) h l = rw (h q) (count_proofs p zero ps h l ∙ omega arith)
count_proofs p (suc zero) (q ∷ ps) h l = rw (h q) (omega (arith, count_proofs p 1 ps h l))
count_proofs p (suc (suc n)) (q ∷ ps) h l = absurd (omega (arith, l))

abbrev pub size {ℓ} : {A : Type ℓ} → Option A → ℕ
size none = 0
size (some a) = 1

-- What the parts of a timeline hold.
parts :
    (p : Entry → Bool) (n : ℕ) (e : Event) (o why : Option String) (ps : List Proof)
    → ((q : Proof) → p (proof_entry q) ≡ (n == 1))
    → n ≤ 1
    → count p (map proof_entry ps ++ settlement_entries e o why ++ waiting_entries ps)
      ≡ n * length ps + count p (settlement_entries e o why) + count p (waiting_entries ps)
parts p n e o why ps h l = omega (
  arith,
  count-append p (map proof_entry ps) (settlement_entries e o why),
  count-append p (map proof_entry ps ++ settlement_entries e o why) (waiting_entries ps),
  count_proofs p n ps h l,
)

-- The settled, failed and waiting entries after the proofs.
tail_counts :
    (e : Event) (o why : Option String) (ps : List Proof)
    → let xs = map proof_entry ps ++ settlement_entries e o why ++ waiting_entries ps in
      (count is_proof xs ≡ length ps)
      × (count is_settled xs ≡ size o)
      × (count is_settled xs + count is_broken xs ≤ 1)
      × (count is_waiting xs ≡ (if length ps == 0 then 1 else 0))
tail_counts e o why ps =
    let proofs = parts is_proof 1 e o why ps (λ q. refl) (omega arith) in
    let settled = parts is_settled 0 e o why ps (λ q. refl) (omega arith) in
    let broken = parts is_broken 0 e o why ps (λ q. refl) (omega arith) in
    let waits = parts is_waiting 0 e o why ps (λ q. refl) (omega arith) in
    (
      omega (
        arith,
        proofs,
        none_settlement is_proof o why (λ h. refl) (λ w. refl),
        none_waiting is_proof ps refl,
      ),
      omega (arith, settled, one_settled o why, none_waiting is_settled ps refl),
      omega (
        arith,
        settled,
        broken,
        one_settlement o why,
        none_waiting is_settled ps refl,
        none_waiting is_broken ps refl,
      ),
      waits
          ∙ omega (arith, none_settlement is_waiting o why (λ h. refl) (λ w. refl))
          ∙ one_waiting ps,
    )
  where
    none_settlement :
        (p : Entry → Bool) (o why : Option String)
        → ((h : String) → p (settled_entry e h) ≡ false)
        → ((w : String) → p (failed_entry w) ≡ false)
        → count p (settlement_entries e o why) ≡ 0
    none_settlement p none none h w = refl
    none_settlement p none (some why) h w = rw (w why) refl
    none_settlement p (some hash) why h w = rw (h hash) refl

    none_waiting :
        (p : Entry → Bool) (ps : List Proof)
        → count p (waiting_entries []) ≡ 0
        → count p (waiting_entries ps) ≡ 0
    none_waiting p [] h = h
    none_waiting p (q ∷ ps) h = refl

    one_settled : (o why : Option String) → count is_settled (settlement_entries e o why) ≡ size o
    one_settled none none = refl
    one_settled none (some w) = refl
    one_settled (some h) why = refl

    one_settlement :
        (o why : Option String)
        → count is_settled (settlement_entries e o why)
            + count is_broken (settlement_entries e o why)
          ≤ 1
    one_settlement none none = omega arith
    one_settlement none (some w) = omega arith
    one_settlement (some h) why = omega arith

    one_waiting :
        (ps : List Proof)
        → count is_waiting (waiting_entries ps) ≡ (if length ps == 0 then 1 else 0)
    one_waiting [] = refl
    one_waiting (q ∷ ps) = ground arith

-- The timeline of an order has an entry for each proof, waits for a payment exactly if there is none, never
-- says both that it was settled and that the settlement failed, and says that it was settled exactly if
-- the card links to the transaction, on whatever network.
pub timeline_lem :
    (network : Option String) (e : Event)
    → (count is_proof (timeline e) ≡ length (or_else e.proofs []))
      × (count is_settled (timeline e) ≡ size (explorer_link network e))
      × (count is_settled (timeline e) + count is_broken (timeline e) ≤ 1)
      × (count is_waiting (timeline e) ≡ (if length (or_else e.proofs []) == 0 then 1 else 0))
unfolding timeline explorer_link
timeline_lem network e =
    let (proofs, settled, one, waits) =
      tail_counts e (nonempty e.tx_hash) (nonempty e.status_reason) (or_else e.proofs []) in
    (proofs, settled ∙ size-map (nonempty e.tx_hash), one, waits)
  where
    size-map :
        (o : Option String)
        → size o
          ≡ size (Option.map (transaction_link (includes (or_else network e.network) "devnet")) o)
    size-map none = refl
    size-map (some h) = refl
