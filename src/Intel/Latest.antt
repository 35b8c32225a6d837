-- ===== src/Intel/Latest.antt =====
-- IntelChannelParser.jsx, applyEntries: what the board shows of a system after a paste.
use lawn_eve_intel_dashboard.Common.{
  String, ◌≡◌, refl, inl, inr, Bool, false, ◌&&◌, Option, some, List, [], ◌∷◌, arith, eq_iff,
  eq_refl, str_eq, if◌then◌else◌, Bool-cases, none, ◌++◌, append-nil, append_assoc, ◌≤◌, ◌<◌, leb,
  filter, All, All-append,
}
use lawn_eve_intel_dashboard.Common.Text.{Text}
use lawn_eve_intel_dashboard.Common.Named.{named, named-put_named}
use lawn_eve_intel_dashboard.Intel.{
  Report, Board, fire, is_alarming, supersedes, apply_entry, apply_entries,
}

abbrev pub on : String → Report → Bool
on s e = str_eq e.system s

-- The reports on one system, as the board takes them in one by one.
newest_on : String → List Report → Option Report → Option Report
unfolding supersedes
newest_on s [] best = best
newest_on s (e ∷ es) best = newest_on s es (if on s e && supersedes e best then some e else best)

fire-board : (borders : List Text) (e : Report) (b : Board) → (fire borders e b).board ≡ b.board
unfolding fire is_alarming
fire-board borders e b = ground arith

named-apply_entry_here :
    (borders : List Text) (e : Report) (b : Board)
    → named e.system (apply_entry borders e b).board
      ≡ (if supersedes e (named e.system b.board) then some e else named e.system b.board)
unfolding apply_entry
named-apply_entry_here borders e b = elim (Bool-cases (supersedes e (named e.system b.board))) [
  | inl newer ↦
      rw (newer, fire-board borders e _, named-put_named e.system e.system e b.board)
        (ground (arith, eq_refl e.system))
  | inr older ↦ rw older refl
]

named-apply_entry_elsewhere :
    (borders : List Text) (s : String) (e : Report) (b : Board)
    → str_eq e.system s ≡ false
    → named s (apply_entry borders e b).board ≡ named s b.board
unfolding apply_entry
named-apply_entry_elsewhere borders s e b other =
    elim (Bool-cases (supersedes e (named e.system b.board))) [
      | inl newer ↦
          rw (newer, fire-board borders e _, named-put_named e.system s e b.board, other) refl
      | inr older ↦ rw older refl
    ]

named-apply_entry :
    (borders : List Text) (s : String) (e : Report) (b : Board)
    → named s (apply_entry borders e b).board
      ≡ (if on s e && supersedes e (named s b.board) then some e else named s b.board)
named-apply_entry borders s e b = elim (Bool-cases (str_eq e.system s)) [
  | inl same ↦
      rw (← (eq_iff e.system s).0 same, eq_refl e.system) (named-apply_entry_here borders e b)
  | inr other ↦ rw other (named-apply_entry_elsewhere borders s e b other)
]

-- The alerts, and the reports on other systems, change nothing of what is shown.
apply_entries-newest_on :
    (borders : List Text) (s : String) (es : List Report) (b : Board)
    → named s (apply_entries borders es b).board ≡ newest_on s es (named s b.board)
unfolding apply_entries newest_on
apply_entries-newest_on borders s [] b = refl
apply_entries-newest_on borders s (e ∷ es) b =
    rw
      (
        apply_entries-newest_on borders s es (apply_entry borders e b),
        named-apply_entry borders s e b,
      )
      refl

-- Of the reports `cs`, in their order, the one that is kept: no other has a later time, and those
-- that follow it have an earlier one.
pub data NewestOf : List Report → Option Report → Type 0 where
  nothing : NewestOf [] none
  newest :
      (xs : List Report) (r : Report) (ys : List Report)
      → All (λ x. x.timestamp ≤ r.timestamp) xs
      → All (λ y. y.timestamp < r.timestamp) ys
      → NewestOf (xs ++ (r ∷ ys)) (some r)

All-before :
    (r e : Report) (ys : List Report)
    → r.timestamp ≤ e.timestamp
    → All (λ y. y.timestamp < r.timestamp) ys
    → All (λ y. y.timestamp ≤ e.timestamp) ys
All-before r e [] h k = tt
All-before r e (y ∷ ys) h k = (omega arith, All-before r e ys h k.1)

All-until :
    (r e : Report) (xs : List Report)
    → r.timestamp ≤ e.timestamp
    → All (λ x. x.timestamp ≤ r.timestamp) xs
    → All (λ x. x.timestamp ≤ e.timestamp) xs
All-until r e [] h k = tt
All-until r e (x ∷ xs) h k = (omega arith, All-until r e xs h k.1)

NewestOf-snoc :
    (cs : List Report) (o : Option Report) (e : Report)
    → NewestOf cs o
    → NewestOf (cs ++ (e ∷ [])) (if supersedes e o then some e else o)
unfolding supersedes
NewestOf-snoc _ _ e nothing = newest [] e [] tt tt
NewestOf-snoc _ _ e (newest xs r ys h k) = elim (Bool-cases (leb r.timestamp e.timestamp)) [
  | inl later ↦ rw later (
      newest (xs ++ (r ∷ ys)) e []
        (All-append (λ x. x.timestamp ≤ e.timestamp) xs (r ∷ ys) (All-until r e xs (ground arith) h)
          (ground arith, All-before r e ys (ground arith) k))
        tt)
  | inr older ↦
      rw (older, append_assoc xs (r ∷ ys) (e ∷ []))
        (newest xs r (ys ++ (e ∷ [])) h
          (All-append (λ y. y.timestamp < r.timestamp) ys (e ∷ []) k (ground arith, tt)))
]

newest_on-NewestOf :
    (s : String) (cs es : List Report) (best : Option Report)
    → NewestOf cs best
    → NewestOf (cs ++ filter (on s) es) (newest_on s es best)
unfolding newest_on
newest_on-NewestOf s cs [] best h = rw (append-nil cs) h
newest_on-NewestOf s cs (e ∷ es) best h = elim (Bool-cases (on s e)) [
  | inl hit ↦
      rw (hit, ← append_assoc cs (e ∷ []) (filter (on s) es))
        (newest_on-NewestOf s (cs ++ (e ∷ [])) es _ (NewestOf-snoc cs best e h))
  | inr miss ↦ rw miss (newest_on-NewestOf s cs es best h)
]

-- What is shown of a system, as a list.
abbrev pub shown_before : Option Report → List Report
shown_before none = []
shown_before (some r) = r ∷ []

shown_before-NewestOf : (o : Option Report) → NewestOf (shown_before o) o
shown_before-NewestOf none = nothing
shown_before-NewestOf (some r) = newest [] r [] tt tt

-- Of the report that the board showed of a system and those of a paste on it, in their order, it
-- shows one after which none has its time or a later one, and before which none has a later time;
-- it shows none only if there are none.
pub apply_entries-NewestOf :
    (borders : List Text) (s : String) (es : List Report) (b : Board)
    → NewestOf
        (shown_before (named s b.board) ++ filter (on s) es)
        (named s (apply_entries borders es b).board)
apply_entries-NewestOf borders s es b = rw (apply_entries-newest_on borders s es b) (
    newest_on-NewestOf s (shown_before (named s b.board)) es (named s b.board)
      (shown_before-NewestOf (named s b.board)))
