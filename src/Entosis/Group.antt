-- ===== src/Entosis/Group.antt =====
-- entosisHelpers.js, groupNodesByEvent: the nodes on the board against those that were given.
use lawn_eve_intel_dashboard.Common.{
  ℕ, ◌≡◌, refl, inl, inr, true, Option, none, some, List, [], ◌∷◌, ◌++◌, append-nil, append_assoc,
  Perm, ◌==◌, Bool-cases, All, swap_front-perm,
}
use mathlib.Core.List.{perm_middle}
use mathlib.Core.List.Perm
use lawn_eve_intel_dashboard.Common.Sort.{sort, insert}
use lawn_eve_intel_dashboard.Campaign.{Campaign}
use lawn_eve_intel_dashboard.Entosis.{
  Node, Event, key, safe, put_event, index_campaigns, push_node, has_event, Board, place_under,
  place_nodes, event_le, group_nodes_by_event,
}

abbrev pub all_nodes : List Event → List Node
all_nodes [] = []
all_nodes (e ∷ es) = e.nodes ++ all_nodes es

abbrev pub everything : Board → List Node
everything b = all_nodes b.events ++ b.unlinked

push_node-perm :
    (k : ℕ) (n : Node) (es : List Event)
    → has_event k es ≡ true
    → Perm (all_nodes (push_node k n es)) (n ∷ all_nodes es)
unfolding push_node
push_node-perm k n [] h = cc
push_node-perm k n (e ∷ es) h = elim (Bool-cases (key e == k)) [
  | inl hit ↦ rw hit (rw append_assoc (perm_middle e.nodes (all_nodes es)))
  | inr miss ↦ rw miss (
      Perm.trans (Perm.append_left e.nodes (push_node-perm k n es (rw miss at h)))
        (perm_middle e.nodes (all_nodes es)))
]

append-last-perm : (xs ys : List Node) (n : Node) → Perm (xs ++ (ys ++ (n ∷ []))) (n ∷ (xs ++ ys))
append-last-perm xs ys n =
    rw (← append_assoc xs ys (n ∷ []))
      (Perm.trans (perm_middle (xs ++ ys) []) (Perm.cons n (rw append-nil (Perm.refl _))))

place_under-perm :
    (b : Board) (n : Node) (id : Option ℕ)
    → Perm (everything (place_under b n id)) (n ∷ everything b)
unfolding place_under
place_under-perm b n none = append-last-perm (all_nodes b.events) b.unlinked n
place_under-perm b n (some k) = elim (Bool-cases (has_event k b.events)) [
  | inl hit ↦ rw hit (Perm.append_right b.unlinked (push_node-perm k n b.events hit))
  | inr miss ↦ rw miss (append-last-perm (all_nodes b.events) b.unlinked n)
]

place_nodes-perm :
    (b : Board) (ns : List Node) → Perm (everything (place_nodes b ns)) (ns ++ everything b)
unfolding place_nodes
place_nodes-perm b [] = Perm.refl _
place_nodes-perm b (n ∷ ns) = Perm.trans (place_nodes-perm (place_under b n n.campaign_id) ns) (
    Perm.trans (Perm.append_left ns (place_under-perm b n n.campaign_id))
      (perm_middle ns (everything b)))

all_nodes-insert-perm :
    (now : ℕ) (e : Event) (es : List Event)
    → Perm (all_nodes (insert (event_le now) e es)) (e.nodes ++ all_nodes es)
unfolding insert
all_nodes-insert-perm now e [] = Perm.refl _
all_nodes-insert-perm now e (x ∷ xs) = elim (Bool-cases (event_le now e x)) [
  | inl h ↦ rw h (Perm.refl _)
  | inr h ↦ rw h (
      Perm.trans (Perm.append_left x.nodes (all_nodes-insert-perm now e xs))
        (swap_front-perm x.nodes e.nodes (all_nodes xs)))
]

all_nodes-sort-perm :
    (now : ℕ) (es : List Event) → Perm (all_nodes (sort (event_le now) es)) (all_nodes es)
unfolding sort
all_nodes-sort-perm now [] = Perm.refl []
all_nodes-sort-perm now (e ∷ es) =
    Perm.trans (all_nodes-insert-perm now e (sort (event_le now) es))
      (Perm.append_left e.nodes (all_nodes-sort-perm now es))

put_event-all_nodes :
    (c : Campaign) (es : List Event)
    → All (λ e. e.nodes ≡ []) es
    → All (λ e. e.nodes ≡ []) (put_event (record { campaign = c; nodes = [] }) es)
unfolding put_event
put_event-all_nodes c [] h = (refl, tt)
put_event-all_nodes c (e ∷ es) h = elim (Bool-cases (key e == c.campaign_id)) [
  | inl hit ↦ rw hit (refl, h.1)
  | inr miss ↦ rw miss (h.0, put_event-all_nodes c es h.1)
]

index_campaigns-all_nodes :
    (es : List Event) (cs : List Campaign)
    → All (λ e. e.nodes ≡ []) es
    → All (λ e. e.nodes ≡ []) (index_campaigns es cs)
unfolding index_campaigns
index_campaigns-all_nodes es [] h = h
index_campaigns-all_nodes es (c ∷ cs) h =
    index_campaigns-all_nodes (put_event (record { campaign = c; nodes = [] }) es) cs
      (put_event-all_nodes c es h)

all_nodes_empty : (es : List Event) → All (λ e. e.nodes ≡ []) es → all_nodes es ≡ []
all_nodes_empty [] h = refl
all_nodes_empty (e ∷ es) h = rw (h.0, all_nodes_empty es h.1)

-- The nodes under the events and the unlinked nodes are together the nodes that were given, each
-- as often as it was given.
pub group_nodes_by_event-perm :
    (now : ℕ) (ns : Option (List (Option Node))) (cs : Option (List (Option Campaign)))
    → Perm (everything (group_nodes_by_event now ns cs)) (safe ns)
unfolding group_nodes_by_event
group_nodes_by_event-perm now ns cs =
    Perm.trans (Perm.append_right _ (all_nodes-sort-perm now _))
      (Perm.trans (place_nodes-perm _ (safe ns)) (rw (start, append-nil) (Perm.refl _)))
  where
    start : all_nodes (index_campaigns [] (safe cs)) ≡ []
    start = all_nodes_empty _ (index_campaigns-all_nodes [] (safe cs) tt)
