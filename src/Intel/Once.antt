-- ===== src/Intel/Once.antt =====
-- IntelChannelParser.jsx: the alerts of a session, that is of the pastes, the rows removed and the
-- clearings that the board goes through.
use lawn_eve_intel_dashboard.Common.{
  String, ◌≡◌, refl, ap, inl, inr, true, false, not, ◌&&◌, List, [], ◌∷◌, map, arith, Bool-cases,
  All,
}
use lawn_eve_intel_dashboard.Common.Text.{Text}
use lawn_eve_intel_dashboard.Config.Sets.{has}
use lawn_eve_intel_dashboard.Common.Named.{named, put_named}
use lawn_eve_intel_dashboard.Intel.{
  supersedes, Report, Board, key_of, same_alert, no_board, is_alarming, fire, apply_entry,
  apply_entries, remove_row, clear_board,
}

pub data Step (borders : List Text) : Board → Board → Type 0 where
  paste : (es : List Report) (b : Board) → Step borders b (apply_entries borders es b)
  remove : (s : String) (b : Board) → Step borders b (remove_row s b)
  clear : (b : Board) → Step borders b (clear_board b)

pub data Session (borders : List Text) : Board → Type 0 where
  opened : Session borders no_board
  then : {b c : Board} → Session borders b → Step borders b c → Session borders c

-- No two alerts are about the same system at the same time.
pub Distinct : List Report → Type 0
Distinct [] = Unit
Distinct (e ∷ es) = (has same_alert (key_of e) (map key_of es) ≡ false) × Distinct es

-- Since the last clearing: what was notified is what was fired, each alert once, each of hostile
-- intel in primary or border space.
pub record IsOnce (borders : List Text) (b : Board) : Type 0 where
  pub recorded : b.notified ≡ map key_of b.fired
  pub distinct : Distinct b.fired
  pub alarming : All (λ e. is_alarming borders e ≡ true) b.fired

fresh :
    (borders : List Text) (e : Report) (b : Board)
    → (is_alarming borders e && not (has same_alert (key_of e) b.notified)) ≡ true
    → (has same_alert (key_of e) b.notified ≡ false) × (is_alarming borders e ≡ true)
fresh borders e b h = (ground arith, ground arith)

fire-IsOnce :
    (borders : List Text) (e : Report) (b : Board)
    → IsOnce borders b
    → IsOnce borders (fire borders e b)
unfolding fire Distinct
fire-IsOnce borders e b once =
    elim (Bool-cases (is_alarming borders e && not (has same_alert (key_of e) b.notified))) [
      | inl new ↦
          let h = fresh borders e b new in
          rw new (record {
            recorded = ap (λ ks. key_of e ∷ ks) once.recorded;
            distinct = (rw (← once.recorded) h.0, once.distinct);
            alarming = (h.1, once.alarming);
          })
      | inr old ↦ rw old once
    ]

apply_entry-IsOnce :
    (borders : List Text) (e : Report) (b : Board)
    → IsOnce borders b
    → IsOnce borders (apply_entry borders e b)
unfolding apply_entry
apply_entry-IsOnce borders e b once = elim (Bool-cases (supersedes e (named e.system b.board))) [
  | inl newer ↦ rw newer (
      fire-IsOnce borders e (record b { board = put_named e.system e b.board })
        (record { recorded = once.recorded; distinct = once.distinct; alarming = once.alarming }))
  | inr older ↦ rw older once
]

apply_entries-IsOnce :
    (borders : List Text) (es : List Report) (b : Board)
    → IsOnce borders b
    → IsOnce borders (apply_entries borders es b)
unfolding apply_entries
apply_entries-IsOnce borders [] b once = once
apply_entries-IsOnce borders (e ∷ es) b once =
    apply_entries-IsOnce borders es (apply_entry borders e b) (apply_entry-IsOnce borders e b once)

no_board-IsOnce : (borders : List Text) → IsOnce borders no_board
unfolding Distinct
no_board-IsOnce borders = record { recorded = refl; distinct = tt; alarming = tt }

step-IsOnce :
    (borders : List Text) {b c : Board} → Step borders b c → IsOnce borders b → IsOnce borders c
unfolding remove_row clear_board
step-IsOnce borders (Step.paste es b) once = apply_entries-IsOnce borders es b once
step-IsOnce borders (Step.remove s b) once = record {
  recorded = once.recorded;
  distinct = once.distinct;
  alarming = once.alarming;
}
step-IsOnce borders (Step.clear b) once = no_board-IsOnce borders

-- Whatever is pasted, removed and cleared, and in whatever order, while the list of border systems
-- stays the same: since the last clearing no two
-- alerts were fired about the same system at the same time, and each was about hostile intel, that
-- is a report with neutrals that is not a clear, in primary or border space.
pub Session-IsOnce : (borders : List Text) (b : Board) → Session borders b → IsOnce borders b
Session-IsOnce borders b Session.opened = no_board-IsOnce borders
Session-IsOnce borders b (Session.then s step) =
    step-IsOnce borders step (Session-IsOnce borders _ s)
