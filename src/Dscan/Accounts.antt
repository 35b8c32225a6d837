-- ===== src/Dscan/Accounts.antt =====
-- DscanParser.jsx: the lines of a scan against its totals.
use lawn_eve_intel_dashboard.Common.{
  ℕ, suc, ◌+◌, ◌≡◌, refl, ◌∙◌, inl, inr, Bool, true, false, none, some, List, [], ◌∷◌, arith,
  if◌then◌else◌, Bool-cases, Option-cases, length, length-append,
}
use lawn_eve_intel_dashboard.Common.Text.{Text, is_nil, trim, split}
use lawn_eve_intel_dashboard.Dscan.{
  Category, probe, Table, Entry, Parsed, Scan, is_structure, is_probe, add_entry, too_few,
  scan_parts, find_name, parse_parts, parse_lines, lines_of, scan_of, parse_dscan,
}

-- A line that is read as a probe, a sun or a container, and left out.
abbrev pub is_left_out : Table → Text → Bool
is_left_out table l =
    if too_few (split b'\t' l)
    then false
    else elim (scan_parts table (split b'\t' l)) [ none ↦ false | some (c, v) ↦ is_probe c ]

abbrev pub left_out : Table → List Text → ℕ
left_out table [] = 0
left_out table (l ∷ ls) = if is_left_out table l then suc (left_out table ls) else left_out table ls

abbrev counted : Parsed → ℕ
counted p = length p.ships + length p.structures + p.unrecognized

structure-not-probe : (c : Category) → is_structure c ≡ true → is_probe c ≡ false
structure-not-probe probe h = cc
structure-not-probe _ h = refl

add_entry-counted :
    (e : Entry) (acc : Parsed)
    → counted (add_entry e acc) + (if is_probe e.category then 1 else 0) ≡ counted acc + 1
add_entry-counted e acc = elim (Bool-cases (is_structure e.category)) [
  | inl fixed ↦
      rw (fixed, structure-not-probe e.category fixed)
        (omega (arith, length-append {0} acc.structures (e ∷ [])))
  | inr mobile ↦ elim (Bool-cases (is_probe e.category)) [
    | inl gone ↦ rw (mobile, gone) (omega arith)
    | inr kept ↦ rw (mobile, kept) (omega (arith, length-append {0} acc.ships (e ∷ [])))
  ]
]

parse_parts-counted :
    (table : Table) (l : Text) (acc : Parsed)
    → counted (parse_parts table l (split b'\t' l) acc) + (if is_left_out table l then 1 else 0)
      ≡ counted acc + 1
unfolding parse_parts
parse_parts-counted table l acc = elim (Bool-cases (too_few (split b'\t' l))) [
  | inl few ↦ rw few (omega arith)
  | inr enough ↦ elim (Option-cases (scan_parts table (split b'\t' l))) [
    | inl unknown ↦ rw (enough, unknown) (omega arith)
    | inr (found, known) ↦
        rw (enough, known)
          (add_entry-counted
            (record {
              name = find_name found.1 (split b'\t' l);
              kind = found.1;
              category = found.0;
            })
            acc)
  ]
]

parse_lines-counted :
    (table : Table) (ls : List Text) (acc : Parsed)
    → counted (parse_lines table ls acc) + left_out table ls ≡ counted acc + length ls
unfolding parse_lines
parse_lines-counted table [] acc = refl
parse_lines-counted table (l ∷ ls) acc = ground (
  arith,
  parse_lines-counted table ls (parse_parts table l (split b'\t' l) acc),
  parse_parts-counted table l acc,
)

abbrev pub nothing : Parsed
nothing = record { ships = []; structures = []; unrecognized = 0; samples = [] }

-- The result for a scan that is not blank.
pub parse_dscan-some :
    (table : Table) (raw : Text)
    → is_nil (trim raw) ≡ false
    → parse_dscan table raw
      ≡ some (scan_of (parse_lines table (lines_of raw) nothing) (length (lines_of raw)))
unfolding parse_dscan
parse_dscan-some table raw h = rw h refl

-- A scan that is not blank has a result, in which the lines of the scan are the ships, the
-- structures, the unrecognized lines and those that are left out as probes, each line once.
pub parse_dscan-total :
    (table : Table) (raw : Text)
    → is_nil (trim raw) ≡ false
    → (r : Scan) × (parse_dscan table raw ≡ some r)
      × (r.total ≡ length (lines_of raw))
      × (r.ships + length r.structures + r.unrecognized + left_out table (lines_of raw) ≡ r.total)
unfolding scan_of
parse_dscan-total table raw h = (
  _,
  parse_dscan-some table raw h,
  refl,
  parse_lines-counted table (lines_of raw) nothing ∙ omega arith,
)
