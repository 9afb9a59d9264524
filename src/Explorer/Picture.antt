-- ===== src/Explorer/Picture.antt =====
-- What the picture of the explorer makes of the steps.
use x402_token_market.Base.{
  ℕ, zero, suc, ◌+◌, ◌-◌, ◌<◌, ◌≡◌, refl, ap, Bool, true, false, List, [], ◌∷◌, ◌++◌, length,
  if◌then◌else◌, arith,
}
use x402_token_market.Explorer.{
  Step, Look, plain, current, past, ahead, look, looks_from, looks, Explorer, opened, Reaches,
  recipe, token_purchase,
}
use x402_token_market.Explorer.Timeline.{IsShown, Reaches-IsShown}

abbrev pub copies : ℕ → Look → List Look
copies zero x = []
copies (suc n) x = x ∷ copies n x

look_past : (active i : ℕ) → i < active → look false active i ≡ past
unfolding look
look_past active i h = ground arith

look_ahead : (active i : ℕ) → active < i → look false active i ≡ ahead
unfolding look
look_ahead active i h = ground arith

look_current : (active i : ℕ) → active ≡ i → look false active i ≡ current
unfolding look
look_current active i h = ground arith

looks_ahead :
    (active i : ℕ) (ss : List Step)
    → active < i
    → looks_from false active i ss ≡ copies (length ss) ahead
unfolding looks_from
looks_ahead active i [] h = refl
looks_ahead active i (s ∷ ss) h =
    rw (look_ahead active i h, looks_ahead active (suc i) ss (omega arith)) refl

looks_moving :
    (active k i : ℕ) (ss : List Step)
    → active ≡ i + k
    → k < length ss
    → looks_from false active i ss ≡ copies k past ++ current ∷ copies (length ss - suc k) ahead
unfolding looks_from
looks_moving active k i [] e h = absurd (omega arith)
looks_moving active zero i (s ∷ ss) e h =
    let rest : length (s ∷ ss) - 1 ≡ length ss = omega arith in
    rw (rest, look_current active i (omega arith), looks_ahead active (suc i) ss (omega arith)) refl
looks_moving active (suc k) i (s ∷ ss) e h =
    let rest : length (s ∷ ss) - suc (suc k) ≡ length ss - suc k = omega arith in
    rw
      (
        rest,
        look_past active i (omega arith),
        looks_moving active k (suc i) ss (omega arith) (omega arith),
      )
      refl

looks_still :
    (active i : ℕ) (ss : List Step) → looks_from true active i ss ≡ copies (length ss) plain
unfolding looks_from look
looks_still active i [] = refl
looks_still active i (s ∷ ss) = ap (λ l. plain ∷ l) (looks_still active (suc i) ss)

-- Along every order of events, with reduced motion the picture shows all eight steps alike, and else it shows
-- the steps before that of the caption as past, that step alone as the current one and the later ones dimmed.
pub Reaches-looks :
    {b : Bool} {e : Explorer}
    → Reaches (opened b) e
    → looks e ≡ (
        if e.reduced_motion
        then copies 8 plain
        else copies e.active_step past ++ current ∷ copies (7 - e.active_step) ahead)
unfolding looks
Reaches-looks {b} {e} r = let v = Reaches-IsShown r in rw v.purchase (go e.reduced_motion)
  where
    go :
        (reduced : Bool)
        → looks_from reduced e.active_step 0 (recipe token_purchase).steps ≡ (
            if reduced
            then copies 8 plain
            else copies e.active_step past ++ current ∷ copies (7 - e.active_step) ahead)
    go true = looks_still e.active_step 0 (recipe token_purchase).steps
    go false =
        let rest : 8 - suc e.active_step ≡ 7 - e.active_step = omega arith in
        rw⁻¹ rest (
          looks_moving e.active_step e.active_step 0 (recipe token_purchase).steps (omega arith)
            (Reaches-IsShown r).inside)

-- Along every order of clicks, choices, ticks and changes of the preference, the explorer shows the recipe that
-- is available, with a caption for one of its eight steps that bears the number after its index; its timer
-- is set, to the time of the chosen speed, exactly while it plays with motion. With reduced motion it shows
-- the last step and all arrows alike; else the arrows before that of the caption are past, that one alone
-- is the current one, and the later ones are dimmed.
pub explorer_lem :
    {b : Bool} {e : Explorer}
    → Reaches (opened b) e
    → IsShown e
      × (looks e ≡ (
          if e.reduced_motion
          then copies 8 plain
          else copies e.active_step past ++ current ∷ copies (7 - e.active_step) ahead))
explorer_lem r = (Reaches-IsShown r, Reaches-looks r)
