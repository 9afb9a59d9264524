-- ===== src/Explorer/Timeline.antt =====
-- What the explorer shows along every order of clicks, ticks and changes of the preference.
use x402_token_market.Base.{
  ℕ, zero, suc, ◌+◌, ◌%◌, ◌<◌, ◌≡◌, refl, Bool, true, false, not, ◌&&◌, Option, none, some,
  if◌then◌else◌, arith,
}
use x402_token_market.Explorer.{
  Explorer, Step, RecipeId, Speed, token_purchase, ai_call, failed_payment, refund, duration_ms,
  tick_effect, step_at, purchase_steps, opened, fire, toggle_playing, restart, choose_speed,
  choose_recipe, prefer, active, Change, toggled, restarted, sped, chosen, preferred, fired,
  Reaches, here, next,
}

-- The timer that belongs to a state of the hooks.
abbrev pub due : Explorer → Option ℕ
due e = if not e.reduced_motion && e.playing then some (duration_ms e.speed) else none

-- The recipe is the one that is available, the caption shows its step with the number after the index,
-- the timer is set exactly while it plays, and with reduced motion the last step is shown.
pub record IsShown (e : Explorer) : Type 0 where
  pub purchase : e.recipe_id ≡ token_purchase
  pub inside : e.active_step < 8
  pub caption : (s : Step) × (active e ≡ some s) × (s.n ≡ e.active_step + 1)
  pub timed : e.timer ≡ due e
  pub final : e.active_step ≡ (if e.reduced_motion then 7 else e.active_step)

caption_at : (i : ℕ) → i < 8 → (s : Step) × (step_at purchase_steps i ≡ some s) × (s.n ≡ i + 1)
caption_at zero h = (_, refl, refl)
caption_at (suc zero) h = (_, refl, refl)
caption_at (suc (suc zero)) h = (_, refl, refl)
caption_at (suc (suc (suc zero))) h = (_, refl, refl)
caption_at (suc (suc (suc (suc zero)))) h = (_, refl, refl)
caption_at (suc (suc (suc (suc (suc zero))))) h = (_, refl, refl)
caption_at (suc (suc (suc (suc (suc (suc zero)))))) h = (_, refl, refl)
caption_at (suc (suc (suc (suc (suc (suc (suc zero))))))) h = (_, refl, refl)
caption_at (suc (suc (suc (suc (suc (suc (suc (suc i)))))))) h = absurd (omega arith)

-- The effect on hooks that show the purchase at one of its steps.
tick_effect-IsShown :
    (reduced playing : Bool) (speed : Speed) (i : ℕ) (timer : Option ℕ)
    → i < 8
    → IsShown (
        tick_effect (record {
          reduced_motion = reduced;
          recipe_id = token_purchase;
          playing = playing;
          speed = speed;
          active_step = i;
          timer = timer;
        }))
unfolding tick_effect
tick_effect-IsShown true playing speed i timer h = record {
  purchase = refl;
  inside = omega arith;
  caption = caption_at 7 (omega arith);
  timed = refl;
  final = refl;
}
tick_effect-IsShown false true speed i timer h = record {
  purchase = refl;
  inside = h;
  caption = caption_at i h;
  timed = refl;
  final = refl;
}
tick_effect-IsShown false false speed i timer h = record {
  purchase = refl;
  inside = h;
  caption = caption_at i h;
  timed = refl;
  final = refl;
}

-- The same for hooks that are known to show the purchase.
shows : (e : Explorer) → e.recipe_id ≡ token_purchase → e.active_step < 8 → IsShown (tick_effect e)
shows e p h = rw p (tick_effect-IsShown e.reduced_motion e.playing e.speed e.active_step e.timer h)

either-IsShown : (b : Bool) (e f : Explorer) → IsShown e → IsShown f → IsShown (if b then e else f)
either-IsShown true e f v w = v
either-IsShown false e f v w = w

fire-IsShown : (e : Explorer) → IsShown e → IsShown (fire e)
unfolding fire
fire-IsShown e v = rw v.purchase (tick_effect-IsShown _ _ _ _ _ (omega arith))

choose_recipe-IsShown : (r : RecipeId) (e : Explorer) → IsShown e → IsShown (choose_recipe r e)
unfolding choose_recipe
choose_recipe-IsShown token_purchase e v = shows _ refl (omega arith)
choose_recipe-IsShown ai_call e v = v
choose_recipe-IsShown failed_payment e v = v
choose_recipe-IsShown refund e v = v

Change-IsShown : {e f : Explorer} → Change e f → IsShown e → IsShown f
unfolding toggle_playing restart choose_speed prefer
Change-IsShown (toggled e) v = either-IsShown e.reduced_motion e _ v (shows _ v.purchase v.inside)
Change-IsShown (restarted e) v =
    either-IsShown e.reduced_motion e _ v (shows _ v.purchase (omega arith))
Change-IsShown (sped s e) v = either-IsShown e.reduced_motion e _ v (shows _ v.purchase v.inside)
Change-IsShown (chosen r e) v = choose_recipe-IsShown r e v
Change-IsShown (preferred b e) v = shows _ v.purchase v.inside
Change-IsShown (fired ms e t) v = fire-IsShown e v

opened-IsShown : (b : Bool) → IsShown (opened b)
opened-IsShown true = record {
  purchase = refl;
  inside = omega arith;
  caption = (_, refl, refl);
  timed = refl;
  final = refl;
}
opened-IsShown false = record {
  purchase = refl;
  inside = omega arith;
  caption = (_, refl, refl);
  timed = refl;
  final = refl;
}

-- Along every order of clicks, choices, ticks and changes of the preference, the explorer shows the recipe
-- that is available, with a caption for one of its eight steps that bears the number after its index; its
-- timer is set, to the time of the chosen speed, exactly while it plays with motion; and with reduced motion
-- it shows the last step.
pub Reaches-IsShown : {b : Bool} {e : Explorer} → Reaches (opened b) e → IsShown e
Reaches-IsShown {b} here = opened-IsShown b
Reaches-IsShown (next r c) = Change-IsShown c (Reaches-IsShown r)

-- The timer goes off `k` times.
abbrev pub fires : ℕ → Explorer → Explorer
fires zero e = e
fires (suc k) e = fires k (fire e)

-- One tick while it plays with motion.
fire_playing :
    (speed : Speed) (i : ℕ) (timer : Option ℕ)
    → fire (record (opened true) { speed = speed; active_step = i; timer = timer })
      ≡ record (opened true) {
        speed = speed;
        active_step = (i + 1) % 8;
        timer = some (duration_ms speed);
      }
unfolding fire tick_effect
fire_playing speed i timer = refl

fires_from :
    (k : ℕ) (speed : Speed) (i : ℕ)
    → i < 8
    → fires k
        (record (opened true) { speed = speed; active_step = i; timer = some (duration_ms speed) })
      ≡ record (opened true) {
        speed = speed;
        active_step = (i + k) % 8;
        timer = some (duration_ms speed);
      }
fires_from zero speed i h = let e : i ≡ (i + 0) % 8 = omega arith in rw⁻¹ e refl
fires_from (suc k) speed i h =
    let e : ((i + 1) % 8 + k) % 8 ≡ (i + suc k) % 8 = omega arith in
    rw (fire_playing speed i (some (duration_ms speed)))
      (rw⁻¹ e (fires_from k speed ((i + 1) % 8) (omega arith)))

-- While the explorer plays with motion and nothing else happens, the timer goes off again and again: it shows
-- each step in turn and, after the eighth, the first again, and changes nothing else.
pub fires_lem :
    {b : Bool} {e : Explorer} (k : ℕ)
    → Reaches (opened b) e
    → e.reduced_motion ≡ false
    → e.playing ≡ true
    → fires k e ≡ record e { active_step = (e.active_step + k) % 8 }
fires_lem {b} {e} k r h p =
    let v = Reaches-IsShown r in
    let t : e.timer ≡ some (duration_ms e.speed) = ground (arith, v.timed) in
    rw (v.purchase, t, h, p) (fires_from k e.speed e.active_step v.inside)
