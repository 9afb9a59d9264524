-- ===== src/Feed/Arrivals.antt =====
-- What a feed shows after any polls, told from the polls alone.
use x402_token_market.Base.{◌≡◌, refl, Bool, true, false, Option, none, some, List, [], ◌∷◌}
use x402_token_market.Feed.{
  Read, unreachable, refused, unreadable, received, Feed, Poll, no_feed, arranged, poll_once,
}

-- The newer of two, where there is one.
abbrev pub or_older {ℓ} : {B : Type ℓ} → Option B → Option B → Option B
or_older none older = older
or_older (some b) older = some b

-- The log that is shown: none is an empty one.
abbrev pub log_shown {ℓ} : {A : Type ℓ} → (List A → List A) → Option (Option (List A)) → List A
log_shown arrange none = []
log_shown arrange (some l) = arranged arrange l

-- The metrics that are shown: null metrics are none.
abbrev pub metrics_shown {ℓ} : {M : Type ℓ} → Option (Option M) → Option M
metrics_shown none = none
metrics_shown (some m) = m

module _ {ℓ} {A M : Type ℓ} where
  -- Both requests were replied to in range, with bodies that can be read.
  abbrev pub is_whole : Read (Option (List A)) → Read (Option M) → Bool
  is_whole (received l) (received m) = true
  is_whole _ _ = false

  -- The log is read where the metrics have been replied to in any way.
  abbrev pub log_of : Read (Option (List A)) → Read (Option M) → Option (Option (List A))
  log_of (received l) unreachable = none
  log_of (received l) _ = some l
  log_of _ _ = none

  -- The metrics are read where the log was read or was out of range.
  abbrev pub metrics_of : Read (Option (List A)) → Read (Option M) → Option (Option M)
  metrics_of (received l) (received m) = some m
  metrics_of refused (received m) = some m
  metrics_of _ _ = none

  -- The polls, the last first.
  abbrev pub fed : (List A → List A) → List (Poll A M) → Feed A M
  fed arrange [] = no_feed
  fed arrange (p ∷ ps) = poll_once arrange p (fed arrange ps)

  abbrev pub last_log : List (Poll A M) → Option (Option (List A))
  last_log [] = none
  last_log (p ∷ ps) = or_older (log_of p.log p.numbers) (last_log ps)

  abbrev pub last_metrics : List (Poll A M) → Option (Option M)
  last_metrics [] = none
  last_metrics (p ∷ ps) = or_older (metrics_of p.log p.numbers) (last_metrics ps)

  abbrev pub last_live : List (Poll A M) → Bool
  last_live [] = true
  last_live (p ∷ ps) = is_whole p.log p.numbers

  poll_once_lem :
      (arrange : List A → List A) (l : Read (Option (List A))) (m : Read (Option M))
      (older : Option (Option (List A))) (numbers : Option (Option M)) (live : Bool)
      → poll_once arrange
          (record { log = l; numbers = m })
          (record {
            entries = log_shown arrange older;
            metrics = metrics_shown numbers;
            live = live;
          })
        ≡ record {
          entries = log_shown arrange (or_older (log_of l m) older);
          metrics = metrics_shown (or_older (metrics_of l m) numbers);
          live = is_whole l m;
        }
  unfolding poll_once
  poll_once_lem arrange unreachable m older numbers live = refl
  poll_once_lem arrange refused unreachable older numbers live = refl
  poll_once_lem arrange refused refused older numbers live = refl
  poll_once_lem arrange refused unreadable older numbers live = refl
  poll_once_lem arrange refused (received m) older numbers live = refl
  poll_once_lem arrange unreadable unreachable older numbers live = refl
  poll_once_lem arrange unreadable refused older numbers live = refl
  poll_once_lem arrange unreadable unreadable older numbers live = refl
  poll_once_lem arrange unreadable (received m) older numbers live = refl
  poll_once_lem arrange (received l) unreachable older numbers live = refl
  poll_once_lem arrange (received l) refused older numbers live = refl
  poll_once_lem arrange (received l) unreadable older numbers live = refl
  poll_once_lem arrange (received l) (received m) older numbers live = refl

  -- After any polls, a console shows the log of the last poll whose log could be read, arranged, and the
  -- metrics of the last whose metrics could, whatever failed since; and it says that the service is live
  -- exactly if the last poll was whole, or there was none.
  pub fed_lem :
      (arrange : List A → List A) (ps : List (Poll A M))
      → fed arrange ps ≡ record {
        entries = log_shown arrange (last_log ps);
        metrics = metrics_shown (last_metrics ps);
        live = last_live ps;
      }
  fed_lem arrange [] = refl
  fed_lem arrange (p ∷ ps) =
      rw (fed_lem arrange ps)
        (poll_once_lem arrange p.log p.numbers (last_log ps) (last_metrics ps) _)
