-- ===== src/Upgrades/Levels.antt =====
-- upgradeHelpers.js: the counts and levels per category against the upgrades themselves.
use lawn_eve_intel_dashboard.Common.{
  ℕ, ◌+◌, String, ◌≡◌, refl, ap, ◌∙◌, inl, inr, Bool, true, false, ◌||◌, Option, none, some, List,
  [], ◌∷◌, arith, eq_iff, ltb, str_eq, if◌then◌else◌, Bool-cases, length, filter,
}
use Prim.Native.Nat.{max}
use lawn_eve_intel_dashboard.Upgrades.{
  Upgrade, UpgradeConfig, PerCategory, none_yet, get_category, set_category, category_of, count_one,
  summary_loop, raise_level, levels_loop, get_system_upgrades, get_upgrade_summary,
  get_upgrade_max_levels,
}

-- The upgrades of one category.
abbrev pub within : Option UpgradeConfig → String → List Upgrade → List Upgrade
within cfg k = filter (λ u. str_eq (category_of cfg u) k)

abbrev pub highest : List Upgrade → ℕ
highest [] = 0
highest (u ∷ us) = max u.level (highest us)

-- The category is one of the three.
abbrev pub is_known : String → Bool
is_known k = str_eq k "military" || str_eq k "industry" || str_eq k "strategic"

abbrev on_some : (ℕ → ℕ) → Option ℕ → Option ℕ
on_some f none = none
on_some f (some n) = some (f n)

get_category-set_category :
    (c k : String) (n : ℕ) (s : PerCategory)
    → get_category k (set_category c n s)
      ≡ (if str_eq c k then on_some (λ m. n) (get_category k s) else get_category k s)
get_category-set_category c k n s = ground (
  arith,
  eq_iff c k,
  eq_iff c "military",
  eq_iff c "industry",
  eq_iff c "strategic",
  eq_iff k "military",
  eq_iff k "industry",
  eq_iff k "strategic",
)

-- What the category `c` of one upgrade does to the number of a category `k`.
abbrev when_same : (ℕ → ℕ) → Bool → Option ℕ → Option ℕ
when_same f same o = if same then on_some f o else o

count_one-get_category :
    (c k : String) (s : PerCategory) (o : Option ℕ)
    → get_category c s ≡ o
    → get_category k (count_one c o s) ≡ when_same (λ n. n + 1) (str_eq c k) (get_category k s)
count_one-get_category c k s none e = elim (Bool-cases (str_eq c k)) [
  | inl same ↦
      let found : get_category k s ≡ none = rw (← (eq_iff c k).0 same) e in rw (same, found) refl
  | inr other ↦ rw other refl
]
count_one-get_category c k s (some n) e =
    get_category-set_category c k (n + 1) s ∙ elim (Bool-cases (str_eq c k)) [
      | inl same ↦
          let found : get_category k s ≡ some n = rw (← (eq_iff c k).0 same) e in
          rw (same, found) refl
      | inr other ↦ rw other refl
    ]

raise_level-get_category :
    (c k : String) (level : ℕ) (s : PerCategory) (o : Option ℕ)
    → get_category c s ≡ o
    → get_category k (raise_level c level o s)
      ≡ when_same (λ n. max n level) (str_eq c k) (get_category k s)
raise_level-get_category c k level s none e = elim (Bool-cases (str_eq c k)) [
  | inl same ↦
      let found : get_category k s ≡ none = rw (← (eq_iff c k).0 same) e in rw (same, found) refl
  | inr other ↦ rw other refl
]
raise_level-get_category c k level s (some n) e = elim (Bool-cases (ltb n level)) [
  | inl less ↦ rw less (
      get_category-set_category c k level s ∙ elim (Bool-cases (str_eq c k)) [
        | inl same ↦
            let found : get_category k s ≡ some n = rw (← (eq_iff c k).0 same) e in
            rw (same, found) (ap some (ground (arith, less)))
        | inr other ↦ rw other refl
      ])
  | inr least ↦ rw least (elim (Bool-cases (str_eq c k)) [
    | inl same ↦
        let found : get_category k s ≡ some n = rw (← (eq_iff c k).0 same) e in
        rw (same, found) (ap some (ground (arith, least)))
    | inr other ↦ rw other refl
  ])
]

summary_loop-get_category :
    (cfg : Option UpgradeConfig) (k : String) (us : List Upgrade) (s : PerCategory)
    → get_category k (summary_loop cfg us s)
      ≡ on_some (λ n. n + length (within cfg k us)) (get_category k s)
unfolding summary_loop
summary_loop-get_category cfg k [] s = none_more (get_category k s)
  where
    none_more : (o : Option ℕ) → o ≡ on_some (λ n. n + 0) o
    none_more none = refl
    none_more (some n) = ap some (omega arith)
summary_loop-get_category cfg k (u ∷ us) s =
    let c = category_of cfg u in
    summary_loop-get_category cfg k us (count_one c (get_category c s) s)
    ∙ ap (on_some (λ n. n + length (within cfg k us)))
        (count_one-get_category c k s (get_category c s) refl)
    ∙ one_more (str_eq c k) (get_category k s)
  where
    one_more :
        (same : Bool) (o : Option ℕ)
        → on_some (λ n. n + length (within cfg k us)) (when_same (λ n. n + 1) same o)
          ≡ on_some (λ n. n + length (if same then u ∷ within cfg k us else within cfg k us)) o
    one_more true none = refl
    one_more true (some n) = ap some (omega arith)
    one_more false o = refl

levels_loop-get_category :
    (cfg : Option UpgradeConfig) (k : String) (us : List Upgrade) (s : PerCategory)
    → get_category k (levels_loop cfg us s)
      ≡ on_some (λ n. max n (highest (within cfg k us))) (get_category k s)
unfolding levels_loop
levels_loop-get_category cfg k [] s = none_more (get_category k s)
  where
    none_more : (o : Option ℕ) → o ≡ on_some (λ n. max n 0) o
    none_more none = refl
    none_more (some n) = ap some (omega arith)
levels_loop-get_category cfg k (u ∷ us) s =
    let c = category_of cfg u in
    levels_loop-get_category cfg k us (raise_level c u.level (get_category c s) s)
    ∙ ap (on_some (λ n. max n (highest (within cfg k us))))
        (raise_level-get_category c k u.level s (get_category c s) refl)
    ∙ one_more (str_eq c k) (get_category k s)
  where
    one_more :
        (same : Bool) (o : Option ℕ)
        → on_some (λ n. max n (highest (within cfg k us))) (when_same (λ n. max n u.level) same o)
          ≡ on_some (λ n. max n (highest (if same then u ∷ within cfg k us else within cfg k us))) o
    one_more true none = refl
    one_more true (some n) = ap some (omega arith)
    one_more false o = refl

nothing_yet : (k : String) → get_category k none_yet ≡ (if is_known k then some 0 else none)
nothing_yet k = ground arith

on_some-if :
    (f : ℕ → ℕ) (n : ℕ) (b : Bool)
    → f 0 ≡ n
    → on_some f (if b then some 0 else none) ≡ (if b then some n else none)
on_some-if f n true e = ap some e
on_some-if f n false e = refl

-- The summary has, for each of the three categories and no other, how many upgrades of the system
-- are of a type in the category.
pub get_upgrade_summary-get_category :
    (name : String) (cfg : Option UpgradeConfig) (k : String)
    → get_category k (get_upgrade_summary name cfg)
      ≡ (if is_known k then some (length (within cfg k (get_system_upgrades name cfg))) else none)
unfolding get_upgrade_summary
get_upgrade_summary-get_category name cfg k =
    summary_loop-get_category cfg k (get_system_upgrades name cfg) none_yet
    ∙ ap (on_some _) (nothing_yet k)
    ∙ on_some-if _ _ (is_known k) (omega arith)

-- The level of each of the three categories, and of no other, is the highest one of the upgrades of
-- the system whose type is in the category, or 0 without one.
pub get_upgrade_max_levels-get_category :
    (name : String) (cfg : Option UpgradeConfig) (k : String)
    → get_category k (get_upgrade_max_levels name cfg)
      ≡ (if is_known k then some (highest (within cfg k (get_system_upgrades name cfg))) else none)
unfolding get_upgrade_max_levels
get_upgrade_max_levels-get_category name cfg k =
    levels_loop-get_category cfg k (get_system_upgrades name cfg) none_yet
    ∙ ap (on_some _) (nothing_yet k)
    ∙ on_some-if _ _ (is_known k) (omega arith)
