-- ===== src/OpPage/Homes.antt =====
-- EntosisPage.jsx, fetchIntel: whose kills and whose indices the alerts watch.
use lawn_eve_intel_dashboard.Common.{
  ℕ, ◌≡◌, ap, ◌∙◌, Bool, true, false, ◌&&◌, ◌||◌, List, [], ◌∷◌, arith, ◌==◌, ==_iff, any,
}
use lawn_eve_intel_dashboard.Config.{Constellation, System, or_nil, is_primary_constellation}
use lawn_eve_intel_dashboard.Config.Sets.{add, has, has-add}
use lawn_eve_intel_dashboard.OpPage.{add_primary, primary_ids}

-- The constellation is primary and has that system.
abbrev pub is_home : ℕ → ℕ × Constellation → Bool
is_home k c = is_primary_constellation c.1 && any (λ s. s.system_id == k) (or_nil c.1.systems)

add_primary-has :
    (primary : Bool) (ss : List System) (ids : List ℕ) (k : ℕ)
    → has ◌==◌ k (add_primary primary ss ids)
      ≡ (has ◌==◌ k ids || (primary && any (λ s. s.system_id == k) ss))
add_primary-has true [] ids k = ground arith
add_primary-has false [] ids k = ground arith
add_primary-has true (s ∷ ss) ids k =
    add_primary-has true ss (add ◌==◌ s.system_id ids) k
    ∙ ap (λ b. b || any (λ x. x.system_id == k) ss)
        (has-add ◌==◌ (λ a b. (==_iff a b).0) s.system_id k ids)
    ∙ ground arith
add_primary-has false (s ∷ ss) ids k = add_primary-has false ss ids k

primary_ids-has_more :
    (table : List (ℕ × Constellation)) (ids : List ℕ) (k : ℕ)
    → has ◌==◌ k (primary_ids table ids) ≡ (has ◌==◌ k ids || any (is_home k) table)
unfolding primary_ids
primary_ids-has_more [] ids k = ground arith
primary_ids-has_more (c ∷ cs) ids k =
    let primary = is_primary_constellation c.1 in
    primary_ids-has_more cs (add_primary primary (or_nil c.1.systems) ids) k
    ∙ ap (λ b. b || any (is_home k) cs) (add_primary-has primary (or_nil c.1.systems) ids k)
    ∙ ground arith

-- The alerts of the operation page watch a system exactly when a primary constellation has it.
pub primary_ids-has :
    (table : List (ℕ × Constellation)) (k : ℕ)
    → has ◌==◌ k (primary_ids table []) ≡ any (is_home k) table
unfolding primary_ids
primary_ids-has table k = primary_ids-has_more table [] k
