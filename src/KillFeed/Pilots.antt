-- ===== src/KillFeed/Pilots.antt =====
-- KillFeed.jsx: how often a pilot is counted, and what the figures of the header sum.
use lawn_eve_intel_dashboard.Common.{
  ℕ, ◌+◌, String, ◌≡◌, refl, ◌∙◌, inl, inr, Bool, false, not, ◌&&◌, Option, none, some, List, [],
  ◌∷◌, arith, eq_iff, str_eq, if◌then◌else◌, Bool-cases, or_else, length, filter,
}
use lawn_eve_intel_dashboard.Common.Named.{named, named-put_named}
use lawn_eve_intel_dashboard.KillFeed.{
  Kill, Blow, is_name, group_name, pilot_of, bump_pilot, bump_name, pilots_loop,
}

-- The kill counts for a pilot: it is no NPC's, and the pilot's group is not ours.
abbrev blow_counts : String → String → Option Blow → Bool
blow_counts ours name none = false
blow_counts ours name (some b) = not (is_name (group_name b) ours) && is_name b.character_name name

abbrev pub counts_for : String → String → Kill → Bool
counts_for ours name k = not k.is_npc && blow_counts ours name k.final_blow

-- The count of a name that is there, and 0 of one that is not.
abbrev pub tally : String → List (String × ℕ) → ℕ
tally name counts = or_else (named name counts) 0

tally-bump_name :
    (a name : String) (counts : List (String × ℕ))
    → tally name (bump_name a counts) ≡ tally name counts + (if str_eq a name then 1 else 0)
tally-bump_name a name counts = elim (Bool-cases (str_eq a name)) [
  | inl same ↦
      rw (named-put_named a name (tally a counts + 1) counts, same, (eq_iff a name).0 same) refl
  | inr apart ↦ rw (named-put_named a name (tally a counts + 1) counts, apart) (omega arith)
]

tally-bump_pilot :
    (o : Option String) (name : String) (counts : List (String × ℕ))
    → tally name (bump_pilot o counts) ≡ tally name counts + (if is_name o name then 1 else 0)
tally-bump_pilot none name counts = omega arith
tally-bump_pilot (some a) name counts = tally-bump_name a name counts

tally-pilot_of :
    (ours name : String) (o : Option Blow) (counts : List (String × ℕ))
    → tally name (pilot_of ours o counts)
      ≡ tally name counts + (if blow_counts ours name o then 1 else 0)
tally-pilot_of ours name none counts = omega arith
tally-pilot_of ours name (some b) counts = elim (Bool-cases (is_name (group_name b) ours)) [
  | inl own ↦ rw own (omega arith)
  | inr foreign ↦ rw foreign (tally-bump_pilot b.character_name name counts)
]

pilots_loop-tally_from :
    (ours name : String) (ks : List Kill) (counts : List (String × ℕ))
    → tally name (pilots_loop ours ks counts)
      ≡ tally name counts + length (filter (counts_for ours name) ks)
unfolding pilots_loop
pilots_loop-tally_from ours name [] counts = omega arith
pilots_loop-tally_from ours name (k ∷ ks) counts = elim (Bool-cases k.is_npc) [
  | inl npc ↦ rw npc (pilots_loop-tally_from ours name ks counts)
  | inr real ↦ rw real (
      pilots_loop-tally_from ours name ks (pilot_of ours k.final_blow counts)
      ∙ ground (arith, tally-pilot_of ours name k.final_blow counts))
]

-- The list of repeat pilots counts for each pilot the kills with that pilot's final blow, but those
-- of NPCs and those by a pilot of our own alliance.
pub pilots_loop-tally :
    (ours name : String) (ks : List Kill)
    → tally name (pilots_loop ours ks []) ≡ length (filter (counts_for ours name) ks)
unfolding named
pilots_loop-tally ours name ks = pilots_loop-tally_from ours name ks [] ∙ omega arith
