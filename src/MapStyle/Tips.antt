-- ===== src/MapStyle/Tips.antt =====
-- ConstellationMap.jsx: the tooltip, the order in which lines are drawn, and the editor of notes.
use lawn_eve_intel_dashboard.Common.{
  ℕ, ◌+◌, String, Bool, ◌&&◌, Option, none, some, List, leb, ◌==◌, str_eq, if◌then◌else◌, or_else,
  first_some,
}
use lawn_eve_intel_dashboard.Common.Named.{named}
use lawn_eve_intel_dashboard.Common.Sort.{sort}
use lawn_eve_intel_dashboard.Config.{Connection, Layout, MapPos}
use lawn_eve_intel_dashboard.MapStyle.{View, lies_in_lawn, sov_at, kills_at}

-- The texts of the tooltip that say whose system it is and what happens there. `holder` of a
-- neighbour is an argument, as a layout may have it.
pub record Tooltip : Type 0 where
  pub name : String
  pub holder : String
  pub adm : ℕ
  pub pvp : ℕ
  pub npc : ℕ
  pub is_neighbor : Bool
  pub is_primary : Bool
  pub is_friendly : Bool
  pub note : Option String

abbrev pub holder_of : Option String → Option String → MapPos → String
holder_of alliance drawn p = or_else alliance (
    if str_eq p.constellation "neighbor"
    then or_else (first_some drawn p.note) "Unknown"
    else "Unknown")

abbrev pub tooltip_of : View → String → Option String → Option String → MapPos → Tooltip
tooltip_of v name drawn region p =
    let sov = sov_at v (named name v.ids) in
    let act = kills_at v (named name v.ids) in
    record {
      name = name;
      holder = holder_of sov.alliance_name drawn p;
      adm = sov.adm;
      pvp = act.ship_kills + act.pod_kills;
      npc = act.npc_kills;
      is_neighbor = str_eq p.constellation "neighbor";
      is_primary = p.lawn;
      is_friendly = sov.is_friendly;
      note = first_some p.note region;
    }

-- The editor of notes, while it is open.
pub record Editor : Type 0 where
  pub system : String
  pub text : String
  pub error : Option String

-- What the map keeps of these, and how often it told the page that the notes have changed.
pub record Notes : Type 0 where
  pub tooltip : Option Tooltip
  pub editor : Option Editor
  pub changes : ℕ

abbrev pub shown_over : Option MapPos → (MapPos → Tooltip) → Notes → Notes
shown_over none tip n = n
shown_over (some p) tip n = record n { tooltip = some (tip p) }

-- `handleHover`, for a system of the layout: while a note is edited it does nothing.
unfoldable pub handle_hover : View → String → Option String → Option String → Notes → Notes
unfolding named sov_at kills_at
handle_hover v name drawn region n = elim n.editor [
  | some e ↦ n
  | none ↦ shown_over (named name v.layout) (tooltip_of v name drawn region) n
]

-- How a request about a note ends: not at all, or with a status.
pub data Answer : Type 0 where
  unreachable accepted : Answer
  status : ℕ → Answer

abbrev pub failure_text : Bool → String → Answer → String
failure_text sso failed unreachable = failed
failure_text sso failed accepted = failed
failure_text sso failed (status code) =
    if code == 401
    then (if sso
        then "Log in with EVE (Timers panel) to edit"
        else "FC password required — log in on the Timers panel")
    else failed

abbrev pub note_answered : Bool → String → Answer → Editor → Notes → Notes
note_answered sso failed accepted e n = record n { editor = none; changes = n.changes + 1 }
note_answered sso failed unreachable e n = record n {
  editor = some (record e { error = some (failure_text sso failed unreachable) });
}
note_answered sso failed (status code) e n = record n {
  editor = some (record e { error = some (failure_text sso failed (status code)) });
}

-- `handleSaveAnnotation` and `handleDeleteAnnotation`, from the answer on. The handler has the
-- editor as it was when the button was pressed.
unfoldable pub handle_save_annotation : Bool → Answer → Editor → Notes → Notes
handle_save_annotation sso a e n = note_answered sso "Save failed" a e n

unfoldable pub handle_delete_annotation : Bool → Answer → Editor → Notes → Notes
handle_delete_annotation sso a e n = note_answered sso "Delete failed" a e n

abbrev pub primary_line : Layout → Connection → ℕ
primary_line layout c =
    if lies_in_lawn (named c.from layout) && lies_in_lawn (named c.to layout) then 1 else 0

-- `sortedConnections`: on the subway map the lines between own systems are drawn last.
unfoldable pub sorted_connections : Bool → Layout → List Connection → List Connection
unfolding named sort
sorted_connections is_subway layout cs =
    if is_subway then sort (λ a b. leb (primary_line layout a) (primary_line layout b)) cs else cs
