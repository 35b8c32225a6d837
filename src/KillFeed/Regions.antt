-- ===== src/KillFeed/Regions.antt =====
-- KillFeed.jsx: the regions that the feed can be pointed at.
use lawn_eve_intel_dashboard.Common.{
  ℕ, String, Bool, true, false, not, ◌||◌, Option, none, some, List, [], ◌∷◌, ltb, ◌==◌, or_else,
  length, filter, any,
}

-- An entry of /api/regions or of the regions that the deployment watches.
pub record FeedRegion : Type 0 where
  pub id : ℕ
  pub name : String

-- `showRegionPicker`: `holds_sov` is that of the configuration, if it says so.
unfoldable pub show_region_picker : List FeedRegion → Option Bool → Bool
show_region_picker watched holds_sov = ltb 1 (length watched) || not (or_else holds_sov true)

-- What the request for the regions leaves: an answer that fails leaves none.
pub record Regions : Type 0 where
  pub all_regions : List FeedRegion
  pub pinned_ids : List ℕ

abbrev pub no_regions : Regions
no_regions = record { all_regions = []; pinned_ids = [] }

unfoldable pub regions_arrived :
    Bool → Option (Option (List FeedRegion) × Option (List ℕ)) → Regions → Regions
regions_arrived false answer r = r
regions_arrived true none r = r
regions_arrived true (some a) r = record {
  all_regions = or_else a.0 [];
  pinned_ids = or_else a.1 [];
}

abbrev pub is_pinned : Regions → FeedRegion → Bool
is_pinned r f = any (λ i. i == f.id) r.pinned_ids

-- `pinned`, `others` and `fallback`.
unfoldable pub pinned : Regions → List FeedRegion
pinned r = filter (is_pinned r) r.all_regions

unfoldable pub others : Regions → List FeedRegion
others r = filter (λ f. not (is_pinned r f)) r.all_regions

unfoldable pub fallback : List FeedRegion → Regions → List FeedRegion
fallback watched r = elim r.all_regions [ [] ↦ watched | f ∷ fs ↦ [] ]
