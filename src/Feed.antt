-- ===== src/Feed.antt =====
-- What the two consoles poll: pollOnce of wea/console/src/app/page.tsx and of
-- netstars/x402/console/src/app/page.tsx, for a log of any kind and metrics of any kind. The two replies to
-- one poll take effect together, and polls in the order in which their replies arrive.
pub mod Arrivals
use x402_token_market.Base.{Bool, true, false, ◌&&◌, Option, none, some, List, []}

-- What becomes of a request: no reply, a status out of range, a body that cannot be read, or
-- a value. A log that is null cannot be read, since its list is looked up; null metrics can.
pub data Read {ℓ} (A : Type ℓ) : Type ℓ where
  unreachable refused unreadable : Read A
  received : A → Read A

-- The hooks that a poll sets.
pub record Feed {ℓ} (A M : Type ℓ) : Type ℓ where
  pub entries : List A
  pub metrics : Option M
  pub live : Bool

-- The two replies to a poll, of the log and of the metrics. The list of a log may be missing.
pub record Poll {ℓ} (A M : Type ℓ) : Type ℓ where
  pub log : Read (Option (List A))
  pub numbers : Read (Option M)

abbrev pub no_feed {ℓ} : {A M : Type ℓ} → Feed A M
no_feed = record { entries = []; metrics = none; live = true }

-- `arrange(j.items ?? [])`
abbrev pub arranged {ℓ} : {A : Type ℓ} → (List A → List A) → Option (List A) → List A
arranged arrange none = arrange []
arranged arrange (some l) = arrange l

abbrev pub is_unreachable {ℓ} : {A : Type ℓ} → Read A → Bool
is_unreachable unreachable = true
is_unreachable _ = false

module _ {ℓ} {A M : Type ℓ} where
  -- The `catch`.
  unfoldable pub lost : Feed A M → Feed A M
  lost f = record f { live = false }

  -- `if (mRes.ok) setMetrics(await mRes.json())`, and the verdict, where the log was in range or not.
  unfoldable pub take_metrics : Bool → Read (Option M) → Feed A M → Feed A M
  unfolding lost
  take_metrics log_ok unreachable f = lost f
  take_metrics log_ok refused f = record f { live = false }
  take_metrics log_ok unreadable f = lost f
  take_metrics log_ok (received m) f = record f { metrics = m; live = log_ok && true }

  unfoldable pub take_log :
      (List A → List A) → Read (Option (List A)) → Read (Option M) → Feed A M → Feed A M
  unfolding lost take_metrics
  take_log arrange unreachable m f = lost f
  take_log arrange refused m f = take_metrics false m f
  take_log arrange unreadable m f = lost f
  take_log arrange (received l) m f =
      take_metrics true m (record f { entries = arranged arrange l })

  -- `pollOnce`: `Promise.all` fails if either request has no reply, and then neither reply is read.
  unfoldable pub poll_once : (List A → List A) → Poll A M → Feed A M → Feed A M
  unfolding lost take_log
  poll_once arrange p f = elim (is_unreachable p.log) [
    | true ↦ lost f
    | false ↦ elim (is_unreachable p.numbers) [
      | true ↦ lost f
      | false ↦ take_log arrange p.log p.numbers f
    ]
  ]
