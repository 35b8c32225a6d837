-- ===== src/Dscan/Decoy.antt =====
-- DscanParser.jsx: the columns are searched from the left, and the name column stands before the
-- type column.
use lawn_eve_intel_dashboard.Common.{◌≡◌, refl, inl, inr, true, false, List, ◌∷◌, Bool-cases}
use lawn_eve_intel_dashboard.Common.Text.{Text, is_nil, trim, split}
use lawn_eve_intel_dashboard.Dscan.{Table, Parsed, is_distance, is_sun, scan_parts, parse_parts}

-- If the first column of a line reads as a distance, or as a number, and so is passed over, and the
-- second one is neither blank nor a distance itself, but starts with "Sun", in any case, and a blank, then the line
-- changes nothing that is gathered, whatever its other columns hold: a ship whose pilot gave it such a
-- name is left out.
pub parse_parts_sun :
    (table : Table) (acc : Parsed) (line id name : Text) (rest : List Text)
    → split b'\t' line ≡ id ∷ name ∷ rest
    → is_distance (trim id) ≡ true
    → is_nil (trim name) ≡ false
    → is_distance (trim name) ≡ false
    → is_sun (trim name) ≡ true
    → parse_parts table line (split b'\t' line) acc ≡ acc
unfolding parse_parts scan_parts
parse_parts_sun table acc line id name rest cols far given near sunny =
    rw (cols, parse_parts)
      (elim (Bool-cases (is_nil (trim id))) [
        | inl blank ↦ rw (blank, given, near, sunny) refl
        | inr full ↦ rw (full, far, given, near, sunny) refl
      ])
