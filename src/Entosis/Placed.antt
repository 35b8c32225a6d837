-- ===== src/Entosis/Placed.antt =====
-- entosisHelpers.js, groupNodesByEvent: the invariant of its loop, and what it gives at the end.
use lawn_eve_intel_dashboard.Common.{
  ℕ, ◌≡◌, refl, sym, ap, ◌∙◌, inl, inr, Bool, true, false, not, Option, none, some, List, [], ◌∷◌,
  ◌++◌, append-nil, append_assoc, ◌==◌, Bool-cases, filter, any, All,
}
use lawn_eve_intel_dashboard.Campaign.{Campaign}
use lawn_eve_intel_dashboard.Entosis.{
  Node, key, push_node, has_event, Board, place_under, place_nodes,
}
use lawn_eve_intel_dashboard.Entosis.Exact.{
  belongs, Distinct, HoldsOwn, HoldsOwn-miss, filter_last_hit, filter_last_miss, push_node-HoldsOwn,
  push_node-Distinct, push_node-has_event, has_event-All, unlinked-All,
}

-- Whether the id of a node is that of a campaign.
abbrev pub live_id : List Campaign → Option ℕ → Bool
live_id cs none = false
live_id cs (some k) = any (λ c. c.campaign_id == k) cs

-- The board once the nodes `ns` are placed.
pub record Placed (cs : List Campaign) (ns : List Node) (b : Board) : Type 0 where
  pub distinct : Distinct b.events
  pub holds : HoldsOwn ns b.events
  pub rest : b.unlinked ≡ filter (λ n. not (live_id cs n.campaign_id)) ns
  pub same : (k : ℕ) → has_event k b.events ≡ any (λ c. c.campaign_id == k) cs

module _ (cs : List Campaign) (ns : List Node) (b : Board) (n : Node) (p : Placed cs ns b) where
  place_unlinked :
      All (λ e. belongs (key e) n ≡ false) b.events
      → live_id cs n.campaign_id ≡ false
      → Placed cs (ns ++ (n ∷ [])) (record b { unlinked = b.unlinked ++ (n ∷ []) })
  place_unlinked others dead = record {
    distinct = p.distinct;
    holds = HoldsOwn-miss ns n b.events others p.holds;
    rest =
        ap (λ u. u ++ (n ∷ [])) p.rest
        ∙ sym (filter_last_hit (λ m. not (live_id cs m.campaign_id)) ns n (ap not dead));
    same = p.same;
  }

  place_linked :
      (k : ℕ)
      → n.campaign_id ≡ some k
      → any (λ c. c.campaign_id == k) cs ≡ true
      → Placed cs (ns ++ (n ∷ [])) (record b { events = push_node k n b.events })
  place_linked k i live = record {
    distinct = push_node-Distinct k n b.events p.distinct;
    holds = push_node-HoldsOwn k ns n b.events i p.distinct p.holds;
    rest =
        p.rest
        ∙ sym (filter_last_miss (λ m. not (live_id cs m.campaign_id)) ns n (rw i (ap not live)));
    same = λ j. push_node-has_event j k n b.events ∙ p.same j;
  }

  place_under-Placed :
      (id : Option ℕ) → n.campaign_id ≡ id → Placed cs (ns ++ (n ∷ [])) (place_under b n id)
  unfolding place_under
  place_under-Placed none i = place_unlinked (unlinked-All n b.events i) (rw i refl)
  place_under-Placed (some k) i = elim (Bool-cases (has_event k b.events)) [
    | inl hit ↦ rw hit (place_linked k i (sym (p.same k) ∙ hit))
    | inr miss ↦
        rw miss (place_unlinked (has_event-All k n b.events i miss) (rw i (sym (p.same k) ∙ miss)))
  ]

pub place_nodes-Placed :
    (cs : List Campaign) (ns : List Node) (b : Board) (ms : List Node)
    → Placed cs ns b
    → Placed cs (ns ++ ms) (place_nodes b ms)
unfolding place_nodes
place_nodes-Placed cs ns b [] p = rw append-nil p
place_nodes-Placed cs ns b (n ∷ ms) p = rw (← append_assoc ns (n ∷ []) ms) (
    place_nodes-Placed cs (ns ++ (n ∷ [])) (place_under b n n.campaign_id) ms
      (place_under-Placed cs ns b n p n.campaign_id refl))
