-- ===== src/Parsers/Texts.antt =====
-- frontend/src/utils/dscanCategories.js and parserCopy.js: the rows of a scan, and its text.
use lawn_eve_intel_dashboard.Common.{
  ℕ, String, Option, none, some, List, [], ◌∷◌, ◌++◌, map, ltb, leb, if◌then◌else◌, length,
}
use lawn_eve_intel_dashboard.Common.Text.{Text, codes, show, join}
use lawn_eve_intel_dashboard.Common.Sort.{sort}
use lawn_eve_intel_dashboard.Dscan.{
  Category, super, capital, battleship, battlecruiser, doctrine, recon, support, tackle, cruiser,
  ewar, bomber, covops, destroyer, frigate, pod, structure, deployable, bubble, sov, probe,
  category_order, same_category, Entry, Group, bump_type, Scan, Tier, clear, minimal, low, medium,
  high, critical,
}

-- `result.byCat[cat]`.
unfoldable pub group_of : Category → List Group → Option Group
group_of c [] = none
group_of c (g ∷ gs) = if same_category g.category c then some g else group_of c gs

unfoldable pub rows_in : List Category → List Group → List Group
unfolding group_of
rows_in [] gs = []
rows_in (c ∷ cs) gs = elim (group_of c gs) [ none ↦ rows_in cs gs | some g ↦ g ∷ rows_in cs gs ]

-- `shipCatRows`.
unfoldable pub ship_cat_rows : Option Scan → List Group
unfolding rows_in
ship_cat_rows none = []
ship_cat_rows (some scan) = rows_in category_order scan.by_cat

unfoldable pub count_kinds : List Entry → List (Text × ℕ) → List (Text × ℕ)
unfolding bump_type
count_kinds [] acc = acc
count_kinds (e ∷ es) acc = count_kinds es (bump_type e.kind acc)

-- `structureCounts`.
unfoldable pub structure_counts : Option Scan → List (Text × ℕ)
unfolding count_kinds
structure_counts none = []
structure_counts (some scan) = count_kinds scan.structures []

-- `n > 1 ? t + times + n : t`.
abbrev pub times_text : Text → Text × ℕ → Text
times_text times t = if ltb 1 t.1 then t.0 ++ (codes " " ++ (times ++ show t.1)) else t.0

-- `formatTypes`.
unfoldable pub format_types : Text → List (Text × ℕ) → Text
unfolding sort show
format_types times types =
    join (codes ", ") (map (times_text times) (sort (λ a b. leb b.1 a.1) types))

-- `CATEGORY_LABELS`.
abbrev pub category_label : Category → String
category_label super = "Supercapital"
category_label capital = "Capital"
category_label battleship = "Battleship"
category_label battlecruiser = "Battlecruiser"
category_label doctrine = "T3/HAC"
category_label recon = "Recon"
category_label support = "Logistics"
category_label tackle = "Tackle/Dictor"
category_label cruiser = "Cruiser"
category_label ewar = "EWAR"
category_label bomber = "Bomber"
category_label covops = "Covert Ops"
category_label destroyer = "Destroyer"
category_label frigate = "Frigate"
category_label pod = "Pod"
category_label structure = "Structure"
category_label deployable = "Deployable"
category_label bubble = "Warp Bubble"
category_label sov = "Sov Object"
category_label probe = "Probe"

abbrev pub tier_name : Tier → String
tier_name clear = "CLEAR"
tier_name minimal = "MINIMAL"
tier_name low = "LOW"
tier_name medium = "MEDIUM"
tier_name high = "HIGH"
tier_name critical = "CRITICAL"

unfoldable pub row_text : Group → Text
unfolding show format_types
row_text g =
    codes (category_label g.category)
    ++ (codes ": "
        ++ (show g.count ++ (codes "  (" ++ (format_types (codes "x") g.types ++ codes ")"))))

abbrev pub objects_text : List (Text × ℕ) → List Text
objects_text [] = []
objects_text (t ∷ ts) =
    [] ∷ (codes "Objects: " ++ join (codes ", ") (map (times_text (codes "x")) (t ∷ ts))) ∷ []

-- `buildDscanCopyText`.
unfoldable pub build_dscan_copy_text : Option Scan → Text
unfolding ship_cat_rows structure_counts row_text show
build_dscan_copy_text none = []
build_dscan_copy_text (some scan) = join (codes "\n") (
    (codes "THREAT: " ++ codes (tier_name scan.threat))
    ∷ (show scan.ships
        ++ (codes " combat ships · " ++ (show (length scan.structures) ++ codes " structures")))
    ∷ []
    ∷ (map row_text (ship_cat_rows (some scan)) ++ objects_text (structure_counts (some scan))))
