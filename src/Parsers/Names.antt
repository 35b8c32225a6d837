-- ===== src/Parsers/Names.antt =====
-- LocalScanner.jsx, parseNames: the names that a scan asks about.
use lawn_eve_intel_dashboard.Common.{
  ◌≡◌, refl, ap, ◌∙◌, inl, inr, true, false, not, ◌||◌, List, [], ◌∷◌, ◌++◌, map, arith, ◌==◌,
  if◌then◌else◌, Bool-cases, any, All, filter-All,
}
use lawn_eve_intel_dashboard.Common.Text.{Text, text_eq, text_eq→eq, is_nil, trim, split}
use lawn_eve_intel_dashboard.Config.Sets.{add, has, has-add}
use lawn_eve_intel_dashboard.Parsers.{parse_names, distinct_from, split_words, tidy}

-- No name stands there twice.
pub Distinct : List Text → Type 0
Distinct [] = Unit
Distinct (n ∷ ns) = (has text_eq n ns ≡ false) × Distinct ns

-- The parts of what is pasted: lines where there are several, words otherwise.
abbrev pub parts_of : Text → List Text
parts_of raw =
    if is_nil (trim raw)
    then []
    else if any (λ c. c == 10) raw
    then tidy (split 10 raw)
    else tidy (split_words raw)

pub record Names (parts : List Text) (names : List Text) : Type 0 where
  pub distinct : Distinct names
  pub filled : All (λ n. not (is_nil n) ≡ true) names
  pub same : (n : Text) → has text_eq n names ≡ has text_eq n parts

text_eq_comm : (s t : Text) → text_eq s t ≡ text_eq t s
unfolding text_eq
text_eq_comm [] [] = refl
text_eq_comm [] (d ∷ t) = refl
text_eq_comm (c ∷ s) [] = refl
text_eq_comm (c ∷ s) (d ∷ t) = ground (arith, text_eq_comm s t)

has-append_new :
    (a x : Text) (xs : List Text)
    → text_eq a x ≡ false
    → has text_eq x xs ≡ false
    → has text_eq x (xs ++ (a ∷ [])) ≡ false
has-append_new a x [] apart h = ground arith
has-append_new a x (y ∷ ys) apart h = ground (arith, has-append_new a x ys apart)

append-Distinct :
    (a : Text) (xs : List Text) → Distinct xs → has text_eq a xs ≡ false → Distinct (xs ++ (a ∷ []))
unfolding Distinct
append-Distinct a [] d h = (refl, tt)
append-Distinct a (x ∷ xs) d h = (
  has-append_new a x xs (ground (arith, text_eq_comm a x)) d.0,
  append-Distinct a xs d.1 (ground arith),
)

add-Distinct : (a : Text) (xs : List Text) → Distinct xs → Distinct (add text_eq a xs)
unfolding add
add-Distinct a xs d = elim (Bool-cases (has text_eq a xs)) [
  | inl old ↦ rw old d
  | inr new ↦ rw new (append-Distinct a xs d new)
]

distinct_from-Distinct : (seen ns : List Text) → Distinct seen → Distinct (distinct_from seen ns)
unfolding distinct_from
distinct_from-Distinct seen [] d = d
distinct_from-Distinct seen (n ∷ ns) d =
    distinct_from-Distinct (add text_eq n seen) ns (add-Distinct n seen d)

distinct_from-has :
    (seen ns : List Text) (k : Text)
    → has text_eq k (distinct_from seen ns) ≡ (has text_eq k seen || has text_eq k ns)
unfolding distinct_from
distinct_from-has seen [] k = ground arith
distinct_from-has seen (n ∷ ns) k =
    distinct_from-has (add text_eq n seen) ns k
    ∙ ap (λ b. b || has text_eq k ns) (has-add text_eq text_eq→eq n k seen)
    ∙ ground (arith, text_eq_comm n k)

Filled : List Text → Type 0
Filled = All (λ n. not (is_nil n) ≡ true)

append-Filled :
    (n : Text) (xs : List Text) → Filled xs → not (is_nil n) ≡ true → Filled (xs ++ (n ∷ []))
unfolding Filled
append-Filled n [] f h = (h, tt)
append-Filled n (x ∷ xs) f h = (f.0, append-Filled n xs f.1 h)

add-Filled :
    (n : Text) (xs : List Text) → Filled xs → not (is_nil n) ≡ true → Filled (add text_eq n xs)
unfolding add
add-Filled n xs f h = elim (Bool-cases (has text_eq n xs)) [
  | inl old ↦ rw old f
  | inr new ↦ rw new (append-Filled n xs f h)
]

distinct_from-Filled :
    (seen ns : List Text) → Filled seen → Filled ns → Filled (distinct_from seen ns)
unfolding distinct_from Filled
distinct_from-Filled seen [] f g = f
distinct_from-Filled seen (n ∷ ns) f g =
    distinct_from-Filled (add text_eq n seen) ns (add-Filled n seen f g.0) g.1

tidy-Names : (ws : List Text) → Names (tidy ws) (distinct_from [] (tidy ws))
unfolding Distinct Filled
tidy-Names ws = record {
  distinct = distinct_from-Distinct [] (tidy ws) tt;
  filled = distinct_from-Filled [] (tidy ws) tt (filter-All (λ w. not (is_nil w)) (map trim ws));
  same = λ n. distinct_from-has [] (tidy ws) n;
}

-- The names that are scanned are the parts of what is pasted, none twice and none empty.
pub parse_names-Names : (raw : Text) → Names (parts_of raw) (parse_names raw)
unfolding parse_names Distinct
parse_names-Names raw = elim (Bool-cases (is_nil (trim raw))) [
  | inl blank ↦ rw blank (record { distinct = tt; filled = tt; same = λ n. refl })
  | inr some_text ↦ rw some_text (elim (Bool-cases (any (λ c. c == 10) raw)) [
    | inl lines ↦ rw lines (tidy-Names (split 10 raw))
    | inr one ↦ rw one (tidy-Names (split_words raw))
  ])
]
