-- ===== src/Scope/Ids.antt =====
-- entosisHelpers.js: which constellations and systems the campaigns single out.
use lawn_eve_intel_dashboard.Common.{
  ℕ, String, ◌≡◌, ap, ◌∙◌, Bool, false, ◌||◌, Option, none, some, List, [], ◌∷◌, arith, eq_iff,
  ◌==◌, str_eq, ==_iff, any,
}
use lawn_eve_intel_dashboard.Campaign.{Campaign}
use lawn_eve_intel_dashboard.Config.{Constellation, System, or_nil, constellation_at}
use lawn_eve_intel_dashboard.Config.Sets.{add, has, has-add}
use lawn_eve_intel_dashboard.Scope.{
  name_of, add_name, names_loop, constellation_names_for_campaigns, systems_of, add_ids, ids_loop,
  campaign_system_ids,
}

abbrev is_named : String → Option String → Bool
is_named s none = false
is_named s (some t) = str_eq t s

-- A campaign in a constellation of that name.
abbrev pub fights_in : List (ℕ × Constellation) → String → Campaign → Bool
fights_in table s c = is_named s (name_of (constellation_at c.constellation_id table))

has-add_name :
    (o : Option String) (s : String) (names : List String)
    → has str_eq s (add_name o names) ≡ (has str_eq s names || is_named s o)
has-add_name none s names = ground arith
has-add_name (some t) s names = has-add str_eq (λ a b. (eq_iff a b).0) t s names

names_loop-has :
    (table : List (ℕ × Constellation)) (cs : List Campaign) (names : List String) (s : String)
    → has str_eq s (names_loop table cs names) ≡ (has str_eq s names || any (fights_in table s) cs)
unfolding names_loop
names_loop-has table [] names s = ground arith
names_loop-has table (c ∷ cs) names s =
    let o = name_of (constellation_at c.constellation_id table) in
    ground (arith, names_loop-has table cs (add_name o names) s, has-add_name o s names)

-- A name is in the set exactly when some campaign is in a constellation of that name.
pub constellation_names_for_campaigns-has :
    (cs : List Campaign) (table : List (ℕ × Constellation)) (s : String)
    → has str_eq s (constellation_names_for_campaigns (some cs) (some table))
      ≡ any (fights_in table s) cs
unfolding constellation_names_for_campaigns
constellation_names_for_campaigns-has cs table s = names_loop-has table cs [] s

-- A campaign in a constellation that has that system.
abbrev pub fights_around : List (ℕ × Constellation) → ℕ → Campaign → Bool
fights_around table k c =
    any (λ s. s.system_id == k) (or_nil (systems_of (constellation_at c.constellation_id table)))

or_assoc : (a b c : Bool) → ((a || b) || c) ≡ (a || (b || c))
or_assoc a b c = ground arith

has-add_ids :
    (ss : List System) (ids : List ℕ) (k : ℕ)
    → has ◌==◌ k (add_ids ss ids) ≡ (has ◌==◌ k ids || any (λ s. s.system_id == k) ss)
has-add_ids [] ids k = ground arith
has-add_ids (s ∷ ss) ids k =
    has-add_ids ss (add ◌==◌ s.system_id ids) k
    ∙ ap (λ b. b || any (λ x. x.system_id == k) ss)
        (has-add ◌==◌ (λ a b. (==_iff a b).0) s.system_id k ids)
    ∙ or_assoc (has ◌==◌ k ids) (s.system_id == k) _

ids_loop-has :
    (table : List (ℕ × Constellation)) (cs : List Campaign) (ids : List ℕ) (k : ℕ)
    → has ◌==◌ k (ids_loop table cs ids) ≡ (has ◌==◌ k ids || any (fights_around table k) cs)
unfolding ids_loop
ids_loop-has table [] ids k = ground arith
ids_loop-has table (c ∷ cs) ids k =
    let ss = or_nil (systems_of (constellation_at c.constellation_id table)) in
    ids_loop-has table cs (add_ids ss ids) k
    ∙ ap (λ b. b || any (fights_around table k) cs) (has-add_ids ss ids k)
    ∙ or_assoc (has ◌==◌ k ids) (any (λ s. s.system_id == k) ss) _

-- A system is in the set exactly when some campaign is in its constellation.
pub campaign_system_ids-has :
    (cs : List Campaign) (table : List (ℕ × Constellation)) (k : ℕ)
    → has ◌==◌ k (campaign_system_ids (some cs) (some table)) ≡ any (fights_around table k) cs
unfolding campaign_system_ids
campaign_system_ids-has cs table k = ids_loop-has table cs [] k
