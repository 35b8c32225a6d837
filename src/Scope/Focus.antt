-- ===== src/Scope/Focus.antt =====
-- entosisHelpers.js, filterConfigToConstellations: the map trimmed to the constellations of an
-- operation.
use lawn_eve_intel_dashboard.Common.{
  String, ◌≡◌, refl, ap, Bool, ◌&&◌, ◌||◌, Option, none, some, List, str_eq, filter, any,
  any-filter, filter-filter_self, filter_ext,
}
use lawn_eve_intel_dashboard.Config.{Config, Layout, or_nil}
use lawn_eve_intel_dashboard.Config.Sets.{has}
use lawn_eve_intel_dashboard.Scope.{filter_layout, in_layout, filter_config_to_constellations}

-- The layout puts the system at a position in one of the constellations.
abbrev pub placed_in : List String → Option Layout → String → Bool
placed_in names layout s =
    any (λ p. str_eq p.0 s && has str_eq p.1.constellation names) (or_nil layout)

abbrev pub on_map : List String → Config → String → Bool
on_map names cfg s = placed_in names cfg.map_layout s || placed_in names cfg.map_layout_subway s

-- What is left of the configuration.
pub record Trimmed (names : List String) (cfg r : Config) : Type 0 where
  pub layout :
      r.map_layout ≡ some (filter (λ p. has str_eq p.1.constellation names) (or_nil cfg.map_layout))
  pub subway :
      r.map_layout_subway
      ≡ some (filter (λ p. has str_eq p.1.constellation names) (or_nil cfg.map_layout_subway))
  pub connections :
      r.map_connections
      ≡ some (
          filter
            (λ c. on_map names cfg c.from && on_map names cfg c.to)
            (or_nil cfg.map_connections))
  pub constellations : r.constellations ≡ cfg.constellations
  pub alliance_short : r.alliance_short ≡ cfg.alliance_short
  pub holds_sov : r.holds_sov ≡ cfg.holds_sov

in_layout-filter :
    (names : List String) (layout : Option Layout) (s : String)
    → in_layout s (filter_layout names layout) ≡ placed_in names layout s
unfolding filter_layout
in_layout-filter names layout s = any-filter _ _ (or_nil layout)

-- Each layout keeps its systems in the given constellations, in their order; a connection is kept
-- exactly when both of its ends are so placed in one of the two layouts; the rest stays.
pub filter_config-Trimmed :
    (names : List String) (cfg : Config)
    → (r : Config) × (filter_config_to_constellations (some cfg) names ≡ some r)
      × Trimmed names cfg r
unfolding filter_config_to_constellations
filter_config-Trimmed names cfg = (
  _,
  refl,
  record {
    layout = unfold filter_layout in refl;
    subway = unfold filter_layout in refl;
    connections = ap some (
        filter_ext _ _ (or_nil cfg.map_connections) (λ c.
          rw
            (
              in_layout-filter names cfg.map_layout c.from,
              in_layout-filter names cfg.map_layout_subway c.from,
              in_layout-filter names cfg.map_layout c.to,
              in_layout-filter names cfg.map_layout_subway c.to,
            )
            refl));
    constellations = refl;
    alliance_short = refl;
    holds_sov = refl;
  },
)

filter_layout_again :
    (names : List String) (layout : Option Layout)
    → filter_layout names (some (filter_layout names layout)) ≡ filter_layout names layout
unfolding filter_layout
filter_layout_again names layout = filter-filter_self _ (or_nil layout)

-- Trimming a trimmed configuration again changes nothing.
pub filter_config_idempotent :
    (names : List String) (cfg : Option Config)
    → filter_config_to_constellations (filter_config_to_constellations cfg names) names
      ≡ filter_config_to_constellations cfg names
unfolding filter_config_to_constellations
filter_config_idempotent names none = refl
filter_config_idempotent names (some cfg) = simp (filter_layout_again, filter-filter_self)
