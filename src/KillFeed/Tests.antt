-- ===== src/KillFeed/Tests.antt =====
-- KillFeed.jsx: a pilot with two kills.
use lawn_eve_intel_dashboard.Common.{
  ℕ, zero, suc, ◌+◌, ◌-◌, ◌*◌, ◌/◌, ◌%◌, ◌^◌, ◌≤◌, ◌<◌, compare, Ordering, String, ◌≡◌, refl, sym,
  ap, ◌∙◌, ◌≢◌, ◌↔◌, ◌⊎◌, inl, inr, Bool, true, false, not, ◌&&◌, ◌||◌, Option, none, some, List,
  [], ◌∷◌, ◌++◌, map, flat_map, append-nil, append_assoc, Perm, arith, eq_iff, eq_refl, ltb, leb,
  ◌==◌, str_eq, if◌then◌else◌, ==_iff, ==_refl, Bool-cases, Option-cases, or_else, first_some,
  length, filter, any, somes, All, length-append, filter-append, filter-filter, filter-not-perm,
  All-filter, filter-All, swap_front-perm, any-filter, filter-filter_self, filter_ext, take,
}
use lawn_eve_intel_dashboard.KillFeed.{
  Kill, subcap, pilots_loop, visible_kills, primary, stats_of, top_roamers,
}
use lawn_eve_intel_dashboard.KillFeed.Pilots.{tally, counts_for, pilots_loop-tally}

abbrev kill : Bool → Kill
kill npc = record {
  is_npc = npc;
  total_value = 7;
  in_primary = some true;
  in_lawn = none;
  victim_alliance = some "LAWN";
  ship_class = subcap;
  final_blow =
      some (record {
        character_name = some "Bo";
        corporation_name = some "Foes";
        alliance_name = none;
      });
}

abbrev kills : List Kill
kills = kill false ∷ kill true ∷ kill false ∷ []

pilots_loop-tally_example :
    tally "Bo" (pilots_loop "LAWN" kills []) ≡ length (filter (counts_for "LAWN" "Bo") kills)
pilots_loop-tally_example = pilots_loop-tally "LAWN" "Bo" kills

two_kills : tally "Bo" (pilots_loop "LAWN" kills []) ≡ 2
unfolding pilots_loop lawn_eve_intel_dashboard.Common.Named.named
two_kills = refl

stats : (stats_of "LAWN" (some kills)).isk_lost ≡ 14
unfolding stats_of
stats = refl

none_visible : length (visible_kills 8 primary (some kills)) ≡ 0
unfolding visible_kills
none_visible = refl

top :
    top_roamers (("a", 1) ∷ ("b", 3) ∷ ("c", 2) ∷ ("d", 3) ∷ [])
    ≡ ("b", 3) ∷ ("d", 3) ∷ ("c", 2) ∷ []
unfolding top_roamers
top = refl
