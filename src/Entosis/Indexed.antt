-- ===== src/Entosis/Indexed.antt =====
-- entosisHelpers.js, groupNodesByEvent: the map from campaign ids to events, before any node.
use lawn_eve_intel_dashboard.Common.{
  ℕ, ◌≡◌, refl, inl, inr, false, ◌||◌, List, [], ◌∷◌, arith, ◌==◌, ==_iff, Bool-cases, any, All,
}
use lawn_eve_intel_dashboard.Campaign.{Campaign}
use mathlib.Core.Path.{subst}
use lawn_eve_intel_dashboard.Entosis.{Event, key, put_event, index_campaigns, has_event}
use lawn_eve_intel_dashboard.Entosis.Exact.{Distinct, HoldsOwn}

abbrev fresh : Campaign → Event
fresh c = record { campaign = c; nodes = [] }

put_event-All :
    (j : ℕ) (c : Campaign) (es : List Event)
    → (c.campaign_id == j) ≡ false
    → All (λ x. (key x == j) ≡ false) es
    → All (λ x. (key x == j) ≡ false) (put_event (fresh c) es)
unfolding put_event
put_event-All j c [] h k = (h, tt)
put_event-All j c (e ∷ es) h k = elim (Bool-cases (key e == c.campaign_id)) [
  | inl hit ↦ rw hit (h, k.1)
  | inr miss ↦ rw miss (k.0, put_event-All j c es h k.1)
]

same_key :
    (i j : ℕ) (es : List Event)
    → i ≡ j
    → All (λ x. (key x == i) ≡ false) es
    → All (λ x. (key x == j) ≡ false) es
same_key i j es e h = subst (λ k. All (λ x. (key x == k) ≡ false) es) e h

put_event-Distinct :
    (c : Campaign) (es : List Event) → Distinct es → Distinct (put_event (fresh c) es)
unfolding put_event
put_event-Distinct c [] d = (tt, tt)
put_event-Distinct c (e ∷ es) d = elim (Bool-cases (key e == c.campaign_id)) [
  | inl hit ↦ rw hit (same_key (key e) c.campaign_id es ((==_iff _ _).0 hit) d.0, d.1)
  | inr miss ↦ rw miss (put_event-All (key e) c es (ground arith) d.0, put_event-Distinct c es d.1)
]

put_event-has_event :
    (k : ℕ) (c : Campaign) (es : List Event)
    → has_event k (put_event (fresh c) es) ≡ (has_event k es || (c.campaign_id == k))
unfolding put_event
put_event-has_event k c [] = ground arith
put_event-has_event k c (e ∷ es) = ground (arith, put_event-has_event k c es)

put_event-HoldsOwn :
    (c : Campaign) (es : List Event) → HoldsOwn [] es → HoldsOwn [] (put_event (fresh c) es)
unfolding put_event
put_event-HoldsOwn c [] h = (refl, tt)
put_event-HoldsOwn c (e ∷ es) h = elim (Bool-cases (key e == c.campaign_id)) [
  | inl hit ↦ rw hit (refl, h.1)
  | inr miss ↦ rw miss (h.0, put_event-HoldsOwn c es h.1)
]

pub index_campaigns-Distinct :
    (es : List Event) (cs : List Campaign) → Distinct es → Distinct (index_campaigns es cs)
unfolding index_campaigns
index_campaigns-Distinct es [] d = d
index_campaigns-Distinct es (c ∷ cs) d =
    index_campaigns-Distinct (put_event (fresh c) es) cs (put_event-Distinct c es d)

pub index_campaigns-HoldsOwn :
    (es : List Event) (cs : List Campaign) → HoldsOwn [] es → HoldsOwn [] (index_campaigns es cs)
unfolding index_campaigns
index_campaigns-HoldsOwn es [] d = d
index_campaigns-HoldsOwn es (c ∷ cs) d =
    index_campaigns-HoldsOwn (put_event (fresh c) es) cs (put_event-HoldsOwn c es d)

pub index_campaigns-has_event :
    (k : ℕ) (es : List Event) (cs : List Campaign)
    → has_event k (index_campaigns es cs) ≡ (has_event k es || any (λ c. c.campaign_id == k) cs)
unfolding index_campaigns
index_campaigns-has_event k es [] = ground arith
index_campaigns-has_event k es (c ∷ cs) =
    ground
      (arith, index_campaigns-has_event k (put_event (fresh c) es) cs, put_event-has_event k c es)
