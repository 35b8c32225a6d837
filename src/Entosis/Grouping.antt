-- ===== src/Entosis/Grouping.antt =====
-- entosisHelpers.js, groupNodesByEvent: the board that it returns.
use lawn_eve_intel_dashboard.Common.{
  ℕ, ◌≡◌, refl, ap, ◌∙◌, inl, inr, false, ◌||◌, Option, List, [], ◌∷◌, arith, ◌==◌, Bool-cases, All,
}
use lawn_eve_intel_dashboard.Common.Sort.{sort, insert, All-sort, All-insert}
use lawn_eve_intel_dashboard.Campaign.{Campaign}
use lawn_eve_intel_dashboard.Entosis.{
  Node, Event, key, safe, index_campaigns, has_event, place_nodes, event_le, group_nodes_by_event,
}
use lawn_eve_intel_dashboard.Entosis.Exact.{Distinct}
use lawn_eve_intel_dashboard.Entosis.Placed.{Placed, place_nodes-Placed}
use lawn_eve_intel_dashboard.Entosis.Indexed.{
  index_campaigns-Distinct, index_campaigns-HoldsOwn, index_campaigns-has_event,
}

insert-has_event :
    (k now : ℕ) (e : Event) (es : List Event)
    → has_event k (insert (event_le now) e es) ≡ ((key e == k) || has_event k es)
unfolding insert
insert-has_event k now e [] = refl
insert-has_event k now e (x ∷ xs) = ground (arith, insert-has_event k now e xs)

sort-has_event :
    (k now : ℕ) (es : List Event) → has_event k (sort (event_le now) es) ≡ has_event k es
unfolding sort
sort-has_event k now [] = refl
sort-has_event k now (e ∷ es) =
    insert-has_event k now e (sort (event_le now) es)
    ∙ ap (λ b. (key e == k) || b) (sort-has_event k now es)

insert-Distinct :
    (now : ℕ) (e : Event) (es : List Event)
    → All (λ x. (key x == key e) ≡ false) es
    → Distinct es
    → Distinct (insert (event_le now) e es)
unfolding insert
insert-Distinct now e [] h d = (tt, tt)
insert-Distinct now e (x ∷ xs) h d = elim (Bool-cases (event_le now e x)) [
  | inl early ↦ rw early (h, d)
  | inr late ↦ rw late (
    All-insert (event_le now) (λ y. (key y == key x) ≡ false) e xs (ground arith) d.0,
    insert-Distinct now e xs h.1 d.1,
  )
]

sort-Distinct : (now : ℕ) (es : List Event) → Distinct es → Distinct (sort (event_le now) es)
unfolding sort
sort-Distinct now [] d = tt
sort-Distinct now (e ∷ es) d =
    insert-Distinct now e (sort (event_le now) es)
      (All-sort (event_le now) (λ x. (key x == key e) ≡ false) es d.0) (sort-Distinct now es d.1)

start-Placed :
    (cs : List Campaign) → Placed cs [] (record { events = index_campaigns [] cs; unlinked = [] })
start-Placed cs = record {
  distinct = index_campaigns-Distinct [] cs tt;
  holds = index_campaigns-HoldsOwn [] cs tt;
  rest = refl;
  same = λ k. index_campaigns-has_event k [] cs;
}

-- The events have distinct campaign ids, which are those of the campaigns; each event holds the
-- nodes that carry its id, in their order, and the unlinked nodes are those, in their order, that
-- carry no id or one of no campaign.
pub group_nodes_by_event-Placed :
    (now : ℕ) (ns : Option (List (Option Node))) (cs : Option (List (Option Campaign)))
    → Placed (safe cs) (safe ns) (group_nodes_by_event now ns cs)
unfolding group_nodes_by_event
group_nodes_by_event-Placed now ns cs =
    let board =
      place_nodes (record { events = index_campaigns [] (safe cs); unlinked = [] }) (safe ns) in
    let p : Placed (safe cs) (safe ns) board =
      place_nodes-Placed (safe cs) [] _ (safe ns) (start-Placed (safe cs)) in
    record {
      distinct = sort-Distinct now board.events p.distinct;
      holds = All-sort (event_le now) _ board.events p.holds;
      rest = p.rest;
      same = λ k. sort-has_event k now board.events ∙ p.same k;
    }
