-- ===== src/War/Hulls.antt =====
-- warHelpers.js, orderedHullClasses: which classes are listed.
use lawn_eve_intel_dashboard.Common.{
  String, ◌≡◌, refl, ap, ◌∙◌, inl, inr, Bool, not, ◌&&◌, ◌||◌, List, [], ◌∷◌, arith, eq_iff,
  eq_refl, str_eq, Bool-cases, filter, any,
}
use lawn_eve_intel_dashboard.Config.Sets.{add, has, has-add, has-append}
use lawn_eve_intel_dashboard.War.{
  a, b, Losses, ShipClasses, hull_order, add_classes, seen_classes, ordered_hull_classes,
}

-- The side lost a ship of the class.
abbrev pub lost_by : String → List (String × Losses) → Bool
lost_by c = any (λ v. str_eq v.0 c)

add_classes-has :
    (vs : List (String × Losses)) (seen : List String) (c : String)
    → has str_eq c (add_classes vs seen) ≡ (has str_eq c seen || lost_by c vs)
add_classes-has [] seen c = ground arith
add_classes-has (v ∷ vs) seen c =
    add_classes-has vs (add str_eq v.0 seen) c
    ∙ ap (λ x. x || lost_by c vs) (has-add str_eq (λ s t. (eq_iff s t).0) v.0 c seen)
    ∙ ground arith

pub seen_classes-has :
    (classes : ShipClasses) (c : String)
    → has str_eq c (seen_classes classes) ≡ (lost_by c (classes a) || lost_by c (classes b))
seen_classes-has classes c =
    add_classes-has (classes b) (add_classes (classes a) []) c
    ∙ ap (λ x. x || lost_by c (classes b)) (add_classes-has (classes a) [] c)

-- Filtering by a test of the name keeps a name exactly if it passes.
pub has-filter :
    (p : String → Bool) (c : String) (xs : List String)
    → has str_eq c (filter p xs) ≡ (has str_eq c xs && p c)
has-filter p c [] = refl
has-filter p c (x ∷ xs) = elim (Bool-cases (str_eq x c)) [
  | inl same ↦
      rw (same, (eq_iff x c).0 same)
        (elim (Bool-cases (p c)) [
          | inl keeps ↦ rw (keeps, eq_refl c) refl
          | inr drops ↦ rw drops (has-filter p c xs ∙ rw drops (ground arith))
        ])
  | inr apart ↦ rw apart (elim (Bool-cases (p x)) [
    | inl keeps ↦ rw (keeps, apart) (has-filter p c xs)
    | inr drops ↦ rw drops (has-filter p c xs)
  ])
]

either : (seen known : Bool) → ((known && seen) || (seen && not known)) ≡ seen
either seen known = ground arith

-- The classes that are listed are those of which one of the two sides lost a ship.
pub ordered_hull_classes-has :
    (classes : ShipClasses) (c : String)
    → has str_eq c (ordered_hull_classes classes) ≡ (lost_by c (classes a) || lost_by c (classes b))
unfolding ordered_hull_classes
ordered_hull_classes-has classes c =
    has-append str_eq c (filter (λ d. has str_eq d (seen_classes classes)) hull_order)
      (filter (λ d. not (has str_eq d hull_order)) (seen_classes classes))
    ∙ rw
        (
          has-filter (λ d. has str_eq d (seen_classes classes)) c hull_order,
          has-filter (λ d. not (has str_eq d hull_order)) c (seen_classes classes),
        )
        (either (has str_eq c (seen_classes classes)) (has str_eq c hull_order)
          ∙ seen_classes-has classes c)
