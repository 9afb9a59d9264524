-- ===== src/Explorer.antt =====
-- The protocol explorer, netstars/token/console/src/components/ProtocolExplorer.tsx: its hooks, its
-- controls, the timer that moves to the next step, and what the picture makes of the steps. The effect
-- runs after each render in which one of its dependencies has changed.
mod Recipes
pub mod Timeline
pub mod Picture
unfoldable pub use Recipes.*
use x402_token_market.Base.{
  ℕ, suc, ◌+◌, ◌-◌, ◌%◌, ◌==◌, ◌≡◌, ltb, Bool, true, false, not, ◌&&◌, ◌||◌, String, Option, none,
  some, List, [], ◌∷◌, length, drop, if◌then◌else◌,
}

-- The hooks of the component, and the time that its timer was set to, where one is set.
pub record Explorer : Type 0 where
  pub reduced_motion : Bool
  pub recipe_id : RecipeId
  pub playing : Bool
  pub speed : Speed
  pub active_step : ℕ
  pub timer : Option ℕ

abbrev pub steps_count : RecipeId → ℕ
steps_count r = length (recipe r).steps

-- The effect. For a recipe without steps the source sets the step to -1 in place of 0.
unfoldable pub tick_effect : Explorer → Explorer
tick_effect e =
    if e.reduced_motion
    then record e { active_step = steps_count e.recipe_id - 1; timer = none }
    else if not e.playing || (steps_count e.recipe_id == 0)
    then record e { timer = none }
    else record e { timer = some (duration_ms e.speed) }

abbrev pub opened : Bool → Explorer
opened initial_playing = record {
  reduced_motion = false;
  recipe_id = token_purchase;
  playing = initial_playing;
  speed = normal;
  active_step = 0;
  timer = if initial_playing then some 900 else none;
}

-- The timer goes off. `(s + 1) % stepsCount` of a recipe without steps is no number, but sets no timer.
unfoldable pub fire : Explorer → Explorer
fire e = tick_effect (record e {
  active_step =
      if steps_count e.recipe_id == 0 then 0 else (e.active_step + 1) % steps_count e.recipe_id;
})

-- A button and the choice of a speed are disabled while motion is reduced.
abbrev pub enabled : Explorer → Explorer → Explorer
enabled e next = if e.reduced_motion then e else next

unfoldable pub toggle_playing : Explorer → Explorer
toggle_playing e = enabled e (tick_effect (record e { playing = not e.playing }))

unfoldable pub restart : Explorer → Explorer
restart e = enabled e (tick_effect (record e { active_step = 0; playing = true }))

unfoldable pub choose_speed : Speed → Explorer → Explorer
choose_speed s e = enabled e (tick_effect (record e { speed = s }))

unfoldable pub choose_recipe : RecipeId → Explorer → Explorer
choose_recipe r e =
    if (recipe r).available then tick_effect (record e { recipe_id = r; active_step = 0 }) else e

-- The browser tells whether motion is to be reduced.
unfoldable pub prefer : Bool → Explorer → Explorer
prefer b e = tick_effect (record e { reduced_motion = b })

-- `recipe.steps[activeStep]`
abbrev pub step_at : List Step → ℕ → Option Step
step_at [] i = none
step_at (s ∷ ss) ℕ.zero = some s
step_at (s ∷ ss) (suc i) = step_at ss i

abbrev pub active : Explorer → Option Step
active e = step_at (recipe e.recipe_id).steps e.active_step

-- What can happen to the component, in any order.
pub data Change : Explorer → Explorer → Type 0 where
  toggled : (e : Explorer) → Change e (toggle_playing e)
  restarted : (e : Explorer) → Change e (restart e)
  sped : (s : Speed) (e : Explorer) → Change e (choose_speed s e)
  chosen : (r : RecipeId) (e : Explorer) → Change e (choose_recipe r e)
  preferred : (b : Bool) (e : Explorer) → Change e (prefer b e)
  fired : (ms : ℕ) (e : Explorer) → e.timer ≡ some ms → Change e (fire e)

pub data Reaches (e : Explorer) : Explorer → Type 0 where
  here : Reaches e e
  next : {f g : Explorer} → Reaches e f → Change f g → Reaches e g

-- How the picture shows a step.
pub data Look : Type 0 where
  plain current past ahead : Look

unfoldable pub look : Bool → ℕ → ℕ → Look
look reduced active i =
    if reduced then plain else if i == active then current else if ltb i active then past else ahead

-- `steps.map((s, i) => …)`, from the index `i` on.
unfoldable pub looks_from : Bool → ℕ → ℕ → List Step → List Look
looks_from reduced active i [] = []
looks_from reduced active i (s ∷ ss) = look reduced active i ∷ looks_from reduced active (suc i) ss

unfoldable pub looks : Explorer → List Look
looks e = looks_from e.reduced_motion e.active_step 0 (recipe e.recipe_id).steps

-- `opacity`, in hundredths.
abbrev pub opacity : Look → ℕ
opacity ahead = 32
opacity _ = 100

-- `stroke`
abbrev pub stroke : Look → String
stroke current = "#2563EB"
stroke past = "#94A3B8"
stroke _ = "#CBD5E1"

abbrev pub label_fill : Look → String
label_fill current = "#2563EB"
label_fill _ = "#475569"

-- `x2 > x1`: the arrowhead points to the right.
abbrev pub points_right : Step → Bool
points_right s = ltb (lane_x s.source) (lane_x s.target)
