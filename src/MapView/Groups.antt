-- ===== src/MapView/Groups.antt =====
-- mapHelpers.js, neighbourRegionGroups: neighbours by the region that their note names.
use lawn_eve_intel_dashboard.Common.{
  String, Option, none, some, List, [], ◌∷◌, ◌++◌, str_eq, if◌then◌else◌,
}
use lawn_eve_intel_dashboard.Common.Named.{named, put_named}
use lawn_eve_intel_dashboard.Config.{MapPos, Layout, or_nil}
use lawn_eve_intel_dashboard.MapView.{positions}

abbrev pub add_to_group :
    MapPos → Option String → List (String × List MapPos) → List (String × List MapPos)
add_to_group p none groups = groups
add_to_group p (some note) groups = put_named note (or_nil (named note groups) ++ (p ∷ [])) groups

unfoldable pub groups_loop : List MapPos → List (String × List MapPos) → List (String × List MapPos)
unfolding named put_named
groups_loop [] groups = groups
groups_loop (p ∷ ps) groups =
    groups_loop ps
      (if str_eq p.constellation "neighbor" then add_to_group p p.note groups else groups)

-- `neighbourRegionGroups`.
unfoldable pub neighbour_region_groups : Layout → List (String × List MapPos)
unfolding groups_loop
neighbour_region_groups layout = groups_loop (positions layout) []
