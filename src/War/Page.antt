-- ===== src/War/Page.antt =====
-- WarPage.jsx: the requests of the page and what they leave in its state.
use lawn_eve_intel_dashboard.Common.{
  ℕ, String, Bool, false, Option, none, some, List, [], ◌∷◌, ◌++◌, ◌==◌, if◌then◌else◌, or_else,
  first_some,
}
use lawn_eve_intel_dashboard.Common.Text.{Text, codes, show}

-- What the requests of `load` give; a request that fails or is refused gives none.
pub record Loaded (J : Type 0) : Type 0 where
  pub summary : Option J
  pub battles : Option (List J)
  pub leaderboard : Option J
  pub participant : Option J
  pub unclassified : Option (List J)
  pub status : Option J
  pub roster : Option J

-- `roster_busy` is the entity whose side is being changed.
pub record WarState (J : Type 0) : Type 0 where
  pub wars : List Text
  pub war_key : Option Text
  pub shown : Option (Loaded J)
  pub battles : List J
  pub unclassified : List J
  pub kills : List J
  pub loading : Bool
  pub error : Option String
  pub roster_busy : Option ℕ
  pub roster_error : Option Text
  pub sso_enabled : Bool
  pub password : Text
  pub stored_password : Option Text

abbrev pub first_key : List Text → Option Text
first_key [] = none
first_key (k ∷ ks) = some k

-- How a change of the roster ends: not at all, refused with a status and the error of its body, or
-- done, with what the page loads after it.
pub data Edit (J : Type 0) : Type 0 where
  unreachable : Edit J
  refused : ℕ → Option Text → Edit J
  done : Loaded J → Edit J

abbrev pub assign_refusal : ℕ → Option Text → Text
assign_refusal status e =
    if status == 401
    then codes "Not authorized — log in with EVE or enter the fleet password"
    else or_else e (codes "Error " ++ show status)

abbrev pub undo_refusal : ℕ → Text
undo_refusal status =
    if status == 401 then codes "Not authorized" else codes "Error " ++ show status

module _ {J : Type 0} where
  -- The list of wars, by their keys: an error status gives an empty one, and no list is a failure.
  unfoldable pub wars_arrived : Option (List Text) → WarState J → WarState J
  wars_arrived none p = record p { error = some "Could not load wars"; loading = false }
  wars_arrived (some []) p = record p { wars = []; loading = false }
  wars_arrived (some (k ∷ ks)) p = record p {
    wars = k ∷ ks;
    war_key = first_some p.war_key (some k);
  }

  abbrev pub load_error : Option J → Option String
  load_error none = some "Could not load war data"
  load_error (some s) = none

  -- `load`.
  unfoldable pub load : Loaded J → WarState J → WarState J
  load l p = elim p.war_key [
    | none ↦ p
    | some k ↦ record p {
      shown = some l;
      battles = or_else l.battles [];
      unclassified = or_else l.unclassified [];
      loading = false;
      error = load_error l.summary;
    }
  ]

  -- `loadKills`.
  unfoldable pub load_kills : Option (List J) → WarState J → WarState J
  load_kills ks p = elim p.war_key [ none ↦ p | some k ↦ record p { kills = or_else ks [] } ]

  abbrev pub start_edit : ℕ → WarState J → WarState J
  start_edit entity p = record p { roster_busy = some entity; roster_error = none }

  abbrev pub fail_edit : Text → WarState J → WarState J
  fail_edit message p = record p { roster_error = some message }

  abbrev pub end_edit : WarState J → WarState J
  end_edit p = record p { roster_busy = none }

  abbrev pub keep_password : WarState J → WarState J
  keep_password p = if p.sso_enabled then p else record p { stored_password = some p.password }

  -- `assignSide`.
  unfoldable pub assign_side : ℕ → Edit J → WarState J → WarState J
  unfolding load show
  assign_side entity unreachable p =
      end_edit (fail_edit (codes "Could not reach the server") (start_edit entity p))
  assign_side entity (refused status e) p =
      end_edit (fail_edit (assign_refusal status e) (start_edit entity p))
  assign_side entity (done l) p = end_edit (load l (keep_password (start_edit entity p)))

  -- `undoOverride`.
  unfoldable pub undo_override : ℕ → Edit J → WarState J → WarState J
  unfolding load show
  undo_override entity unreachable p =
      end_edit (fail_edit (codes "Could not reach the server") (start_edit entity p))
  undo_override entity (refused status e) p =
      end_edit (fail_edit (undo_refusal status) (start_edit entity p))
  undo_override entity (done l) p = end_edit (load l (start_edit entity p))
