-- ===== src/AiSummary.antt =====
-- frontend/src/utils/useAiSummary.js: the AI summary of a scan and its requests in flight, and the
-- button of frontend/src/components/common/AiSummary.jsx. Requests are numbered in the order of
-- their AbortControllers; the browser's part is which outcomes a request can have.
mod Tests
pub mod Runs
pub mod Stuck
use lawn_eve_intel_dashboard.Common.{
  ℕ, suc, String, ◌≡◌, Bool, true, false, not, ◌||◌, Option, none, some, List, [], ◌∷◌, ◌==◌,
  if◌then◌else◌, filter, any,
}

-- The state of the hook (`summary`, `generating`, `error`, `abortRef.current`), the number of the
-- next controller, the calls of `generate` that have not ended, and the aborted signals.
pub record State : Type 0 where
  pub summary : Option String
  pub generating : Bool
  pub error : Option String
  pub active : Option ℕ
  pub next : ℕ
  pub pending : List ℕ
  pub aborted : List ℕ

pub data Outcome : Type 0 where
  answered : Option String → Outcome
  failed : String → Outcome
  abort_error : Outcome

pub init : State
init = record {
  summary = none;
  generating = false;
  error = none;
  active = none;
  next = 0;
  pending = [];
  aborted = [];
}

abbrev pub mem : ℕ → List ℕ → Bool
mem k = any (λ i. i == k)

-- `abortRef.current.abort()`, where there is a controller.
abbrev pub abort_signal : Option ℕ → List ℕ → List ℕ
abort_signal none ks = ks
abort_signal (some k) ks = k ∷ ks

-- The effect on `resetKey`.
unfoldable pub reset : State → State
reset s = record s {
  summary = none;
  error = none;
  active = none;
  aborted = abort_signal s.active s.aborted;
}

-- `generate`, up to its first `await`.
unfoldable pub generate : State → State
generate s = record s {
  summary = none;
  generating = true;
  error = none;
  active = some s.next;
  next = suc s.next;
  pending = s.next ∷ s.pending;
  aborted = abort_signal s.active s.aborted;
}

abbrev pub is_current : ℕ → Option ℕ → Bool
is_current k none = false
is_current k (some j) = j == k

-- The `try` and `catch` of `generate`, once the request has its outcome.
abbrev pub receive : Outcome → State → State
receive (answered text) s = record s { summary = text }
receive (failed message) s = record s { error = some message }
receive abort_error s = s

-- The `finally`.
abbrev pub finish : ℕ → State → State
finish k s = if is_current k s.active then record s { generating = false; active = none } else s

-- The end of the call of `generate` whose controller is `k`.
unfoldable pub settle : ℕ → Outcome → State → State
settle k o s = finish k (receive o (record s { pending = filter (λ i. not (i == k)) s.pending }))

-- A fetch whose signal was aborted rejects with an AbortError, and no other one does.
abbrev pub Possible : ℕ → Outcome → List ℕ → Type 0
Possible k (answered text) aborted = mem k aborted ≡ false
Possible k (failed message) aborted = mem k aborted ≡ false
Possible k abort_error aborted = mem k aborted ≡ true

-- What can happen next: the scanned text is edited, a summary is asked for, a request ends.
pub data Step (s : State) : State → Type 0 where
  edits : Step s (reset s)
  asks : Step s (generate s)
  ends :
      (k : ℕ) (o : Outcome)
      → mem k s.pending ≡ true
      → Possible k o s.aborted
      → Step s (settle k o s)

pub data Reach : State → Type 0 where
  start : Reach init
  after : {s t : State} → Reach s → Step s t → Reach t

-- `AiSummaryButton` cannot be pressed.
unfoldable pub is_inert : State → Bool → Bool
is_inert s disabled = s.generating || disabled
