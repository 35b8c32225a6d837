-- ===== src/Entosis/Order.antt =====
-- entosisHelpers.js, groupNodesByEvent: the order in which the events stand on the board.
use lawn_eve_intel_dashboard.Common.{
  ℕ, ◌≤◌, Ordering, ◌≡◌, refl, sym, ◌∙◌, Bool, true, false, Option, none, some, List, [], ◌∷◌,
  arith, All,
}
use lawn_eve_intel_dashboard.Common.Sort.{IsSorted, sort-IsSorted}
use lawn_eve_intel_dashboard.Campaign.{Campaign, Phase, reinforced, nodes, get_campaign_phase}
use lawn_eve_intel_dashboard.Entosis.{
  Node, Event, event_le, compare_phases, compare_times, group_nodes_by_event,
}

-- A spawn time no later than another; an unknown one is last.
abbrev pub NoLater : Option ℕ → Option ℕ → Type 0
NoLater (some a) (some b) = a ≤ b
NoLater (some a) none = Unit
NoLater none (some b) = ⊥
NoLater none none = Unit

-- The order that the comment above the function names: the events whose nodes are out first, then
-- those to come; within each, the sooner spawn first.
abbrev pub PhaseBefore : Phase → Phase → Type 0 → Type 0
PhaseBefore nodes nodes T = T
PhaseBefore nodes reinforced T = Unit
PhaseBefore reinforced nodes T = ⊥
PhaseBefore reinforced reinforced T = T

abbrev pub Precedes : ℕ → Event → Event → Type 0
Precedes now a b =
    let pa = get_campaign_phase now a.campaign in
    let pb = get_campaign_phase now b.campaign in
    PhaseBefore pa.phase pb.phase (NoLater pa.nodes_spawn_time pb.nodes_spawn_time)

abbrev is_le : Ordering → Bool
is_le Ordering.gt = false
is_le Ordering.lt = true
is_le Ordering.eq = true

times_sound : (x y : Option ℕ) → is_le (compare_times x y) ≡ true → NoLater x y
unfolding compare_times
times_sound (some a) (some b) h = ground arith
times_sound (some a) none h = tt
times_sound none (some b) h = cc
times_sound none none h = tt

times_total :
    (x y : Option ℕ) → is_le (compare_times x y) ≡ false → is_le (compare_times y x) ≡ true
unfolding compare_times
times_total (some a) (some b) h = ground arith
times_total (some a) none h = cc
times_total none (some b) h = refl
times_total none none h = cc

times_trans :
    (x y z : Option ℕ)
    → is_le (compare_times x y) ≡ true
    → is_le (compare_times y z) ≡ true
    → is_le (compare_times x z) ≡ true
unfolding compare_times
times_trans (some a) (some b) (some c) h k = ground arith
times_trans (some a) none (some c) h k = cc
times_trans none (some b) (some c) h k = cc
times_trans none none (some c) h k = cc
times_trans (some a) y none h k = refl
times_trans none y none h k = refl

infos_sound :
    (p q : Phase) (x y : Option ℕ)
    → is_le (compare_phases p q (compare_times x y)) ≡ true
    → PhaseBefore p q (NoLater x y)
unfolding compare_phases
infos_sound nodes nodes x y h = times_sound x y h
infos_sound nodes reinforced x y h = tt
infos_sound reinforced nodes x y h = cc
infos_sound reinforced reinforced x y h = times_sound x y h

infos_total :
    (p q : Phase) (x y : Option ℕ)
    → is_le (compare_phases p q (compare_times x y)) ≡ false
    → is_le (compare_phases q p (compare_times y x)) ≡ true
unfolding compare_phases
infos_total nodes nodes x y h = times_total x y h
infos_total nodes reinforced x y h = cc
infos_total reinforced nodes x y h = refl
infos_total reinforced reinforced x y h = times_total x y h

infos_trans :
    (p q r : Phase) (x y z : Option ℕ)
    → is_le (compare_phases p q (compare_times x y)) ≡ true
    → is_le (compare_phases q r (compare_times y z)) ≡ true
    → is_le (compare_phases p r (compare_times x z)) ≡ true
unfolding compare_phases
infos_trans nodes nodes nodes x y z h k = times_trans x y z h k
infos_trans reinforced reinforced reinforced x y z h k = times_trans x y z h k
infos_trans nodes q reinforced x y z h k = refl
infos_trans reinforced nodes r x y z h k = cc
infos_trans p reinforced nodes x y z h k = cc

le_read :
    (now : ℕ) (a b : Event)
    → event_le now a b
      ≡ is_le (
          compare_phases
            (get_campaign_phase now a.campaign).phase
            (get_campaign_phase now b.campaign).phase
            (compare_times
              (get_campaign_phase now a.campaign).nodes_spawn_time
              (get_campaign_phase now b.campaign).nodes_spawn_time))
unfolding event_le
le_read now a b = ground arith

event_total : (now : ℕ) (a b : Event) → event_le now a b ≡ false → event_le now b a ≡ true
event_total now a b h = le_read now b a ∙ infos_total _ _ _ _ (sym (le_read now a b) ∙ h)

event_trans :
    (now : ℕ) (a b c : Event)
    → event_le now a b ≡ true
    → event_le now b c ≡ true
    → event_le now a c ≡ true
event_trans now a b c h k =
    le_read now a c
    ∙ infos_trans (get_campaign_phase now a.campaign).phase
        (get_campaign_phase now b.campaign).phase _ _
        (get_campaign_phase now b.campaign).nodes_spawn_time _ (sym (le_read now a b) ∙ h)
        (sym (le_read now b c) ∙ k)

-- Every event precedes all that follow it.
abbrev pub InOrder : ℕ → List Event → Type 0
InOrder now [] = Unit
InOrder now (e ∷ es) = All (Precedes now e) es × InOrder now es

All-Precedes :
    (now : ℕ) (e : Event) (es : List Event)
    → All (λ x. event_le now e x ≡ true) es
    → All (Precedes now e) es
All-Precedes now e [] h = tt
All-Precedes now e (x ∷ xs) h =
    (infos_sound _ _ _ _ (sym (le_read now e x) ∙ h.0), All-Precedes now e xs h.1)

InOrder-of_IsSorted : (now : ℕ) (es : List Event) → IsSorted (event_le now) es → InOrder now es
InOrder-of_IsSorted now [] s = tt
InOrder-of_IsSorted now (e ∷ es) s = (All-Precedes now e es s.0, InOrder-of_IsSorted now es s.1)

-- The events whose nodes are out stand before those that are still to come, and within each of the
-- two the sooner spawn time stands first, an unknown time last.
pub group_nodes_by_event-InOrder :
    (now : ℕ) (ns : Option (List (Option Node))) (cs : Option (List (Option Campaign)))
    → InOrder now (group_nodes_by_event now ns cs).events
unfolding group_nodes_by_event
group_nodes_by_event-InOrder now ns cs =
    InOrder-of_IsSorted now _ (sort-IsSorted (event_le now) (event_total now) (event_trans now) _)
