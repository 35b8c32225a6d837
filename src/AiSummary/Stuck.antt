-- ===== src/AiSummary/Stuck.antt =====
-- useAiSummary.js: an edit while a summary is being generated.
use lawn_eve_intel_dashboard.Common.{ℕ, ◌≡◌, refl, Bool, true, none, some}
use lawn_eve_intel_dashboard.AiSummary.{
  State, Outcome, answered, failed, abort_error, mem, reset, settle, Possible, Reach, is_inert,
}
use lawn_eve_intel_dashboard.AiSummary.Runs.{Reach-Inv}

-- What can happen while no new summary is asked for.
pub data Waits (s : State) : State → Type 0 where
  here : Waits s s
  edited : {t : State} → Waits s t → Waits s (reset t)
  ended :
      {t : State} (k : ℕ) (o : Outcome)
      → Waits s t
      → mem k t.pending ≡ true
      → Possible k o t.aborted
      → Waits s (settle k o t)

settle_idle :
    (k : ℕ) (o : Outcome) (t : State)
    → t.active ≡ none
    → t.generating ≡ true
    → ((settle k o t).active ≡ none) × ((settle k o t).generating ≡ true)
unfolding settle
settle_idle k (answered text) t e g = rw e (refl, g)
settle_idle k (failed message) t e g = rw e (refl, g)
settle_idle k abort_error t e g = rw e (refl, g)

Waits_idle :
    {s t : State}
    → Waits s t
    → s.active ≡ none
    → s.generating ≡ true
    → (t.active ≡ none) × (t.generating ≡ true)
unfolding reset
Waits_idle here e g = (e, g)
Waits_idle (edited w) e g = (refl, (Waits_idle w e g).1)
Waits_idle (ended {t} k o w m p) e g =
    let (idle, on) = Waits_idle w e g in settle_idle k o t idle on

-- If the scanned text is edited while a summary is being generated, then whatever requests end and
-- however the text is edited afterwards, the button stays disabled, so that no new summary can be
-- asked for by it.
pub reset_stuck :
    (s t : State) (k : ℕ) (disabled : Bool)
    → Reach s
    → s.active ≡ some k
    → Waits (reset s) t
    → is_inert t disabled ≡ true
unfolding reset is_inert
reset_stuck s t k disabled r e w =
    let (there, live, on) = (Reach-Inv r).current k e in rw (Waits_idle w refl on).1 refl
