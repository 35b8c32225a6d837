-- ===== src/Parsers/Rows.antt =====
-- dscanCategories.js, shipCatRows: the rows of a scan against its ships.
use lawn_eve_intel_dashboard.Common.{
  ℕ, ◌+◌, ◌≡◌, refl, ◌∙◌, inl, inr, Option, none, some, List, [], ◌∷◌, arith, if◌then◌else◌,
  Bool-cases, length,
}
use lawn_eve_intel_dashboard.Dscan.{
  Category, super, capital, battleship, battlecruiser, doctrine, recon, support, tackle, cruiser,
  ewar, bomber, covops, destroyer, frigate, pod, structure, deployable, bubble, sov, probe,
  category_order, same_category, Entry, Group, Parsed, scan_of, group_ships,
}
use lawn_eve_intel_dashboard.Dscan.Grouping.{ships_in, count_in, group_ships-count_in}
use lawn_eve_intel_dashboard.Parsers.Texts.{group_of, rows_in, ship_cat_rows}

-- The sum of the counts.
abbrev pub row_total : List Group → ℕ
row_total [] = 0
row_total (g ∷ gs) = g.count + row_total gs

abbrev count_of : Option Group → ℕ
count_of none = 0
count_of (some g) = g.count

count_of-group_of : (c : Category) (gs : List Group) → count_of (group_of c gs) ≡ count_in c gs
unfolding group_of
count_of-group_of c [] = refl
count_of-group_of c (g ∷ gs) = elim (Bool-cases (same_category g.category c)) [
  | inl hit ↦ rw hit refl
  | inr miss ↦ rw miss (count_of-group_of c gs)
]

row_total-cons :
    (o : Option Group) (rows : List Group)
    → row_total (elim o [ none ↦ rows | some g ↦ g ∷ rows ]) ≡ count_of o + row_total rows
row_total-cons none rows = omega arith
row_total-cons (some g) rows = refl

-- The ships of the categories, summed.
ships_over : List Category → List Entry → ℕ
ships_over [] es = 0
ships_over (c ∷ cs) es = ships_in c es + ships_over cs es

rows_in-ships_over :
    (cs : List Category) (es : List Entry)
    → row_total (rows_in cs (group_ships es [])) ≡ ships_over cs es
unfolding rows_in ships_over
rows_in-ships_over [] es = refl
rows_in-ships_over (c ∷ cs) es =
    row_total-cons (group_of c (group_ships es [])) (rows_in cs (group_ships es []))
    ∙ rw
        (
          count_of-group_of c (group_ships es []),
          group_ships-count_in es c,
          rows_in-ships_over cs es,
        )
        refl

places : List Category → Category → ℕ
places [] d = 0
places (c ∷ cs) d = (if same_category d c then 1 else 0) + places cs d

ships_over-cons :
    (cs : List Category) (e : Entry) (es : List Entry)
    → ships_over cs (e ∷ es) ≡ places cs e.category + ships_over cs es
unfolding ships_over places
ships_over-cons [] e es = refl
ships_over-cons (c ∷ cs) e es = ground (arith, ships_over-cons cs e es)

ships_over-nil : (cs : List Category) → ships_over cs [] ≡ 0
unfolding ships_over
ships_over-nil [] = refl
ships_over-nil (c ∷ cs) = omega (arith, ships_over-nil cs)

one_place : (d : Category) → places category_order d ≡ 1
unfolding places
one_place super = refl
one_place capital = refl
one_place battleship = refl
one_place battlecruiser = refl
one_place doctrine = refl
one_place recon = refl
one_place support = refl
one_place tackle = refl
one_place cruiser = refl
one_place ewar = refl
one_place bomber = refl
one_place covops = refl
one_place destroyer = refl
one_place frigate = refl
one_place pod = refl
one_place structure = refl
one_place deployable = refl
one_place bubble = refl
one_place sov = refl
one_place probe = refl

ships_over-length : (es : List Entry) → ships_over category_order es ≡ length es
ships_over-length [] = ships_over-nil category_order
ships_over-length (e ∷ es) =
    ships_over-cons category_order e es
    ∙ rw (one_place e.category, ships_over-length es) (omega arith)

-- The rows that are shown and copied account for every ship of the scan, each once.
pub ship_cat_rows-total :
    (p : Parsed) (total : ℕ)
    → row_total (ship_cat_rows (some (scan_of p total))) ≡ (scan_of p total).ships
unfolding ship_cat_rows scan_of
ship_cat_rows-total p total = rows_in-ships_over category_order p.ships ∙ ships_over-length p.ships
