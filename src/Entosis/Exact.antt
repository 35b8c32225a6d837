-- ===== src/Entosis/Exact.antt =====
-- entosisHelpers.js, groupNodesByEvent: which nodes stand under which event, and in which order.
use lawn_eve_intel_dashboard.Common.{
  ℕ, ◌≡◌, refl, sym, ap, ◌∙◌, inl, inr, Bool, true, false, Option, none, some, List, [], ◌∷◌, ◌++◌,
  append-nil, arith, ◌==◌, ==_iff, Bool-cases, filter, All, filter-append,
}
use lawn_eve_intel_dashboard.Entosis.{Node, Event, key, push_node, has_event}

-- Whether a node carries the id `k`.
abbrev pub carries : ℕ → Option ℕ → Bool
carries k none = false
carries k (some j) = k == j

abbrev pub belongs : ℕ → Node → Bool
belongs k n = carries k n.campaign_id

-- Whether the id that a node carries is that of one of the events.
abbrev pub linked_id : List Event → Option ℕ → Bool
linked_id es none = false
linked_id es (some k) = has_event k es

abbrev pub Distinct : List Event → Type 0
Distinct [] = Unit
Distinct (e ∷ es) = All (λ x. (key x == key e) ≡ false) es × Distinct es

-- Each event holds the nodes of `ns` that carry its id, in their order.
abbrev pub HoldsOwn : List Node → List Event → Type 0
HoldsOwn ns es = All (λ e. e.nodes ≡ filter (belongs (key e)) ns) es

pub filter_last_hit :
    (p : Node → Bool) (ns : List Node) (n : Node)
    → p n ≡ true
    → filter p (ns ++ (n ∷ [])) ≡ filter p ns ++ (n ∷ [])
filter_last_hit p ns n h = rw (filter-append p ns (n ∷ []), h) refl

pub filter_last_miss :
    (p : Node → Bool) (ns : List Node) (n : Node)
    → p n ≡ false
    → filter p (ns ++ (n ∷ [])) ≡ filter p ns
filter_last_miss p ns n h = rw (filter-append p ns (n ∷ []), h) (append-nil _)

pub HoldsOwn-miss :
    (ns : List Node) (n : Node) (es : List Event)
    → All (λ e. belongs (key e) n ≡ false) es
    → HoldsOwn ns es
    → HoldsOwn (ns ++ (n ∷ [])) es
HoldsOwn-miss ns n [] h k = tt
HoldsOwn-miss ns n (e ∷ es) h k =
    (k.0 ∙ sym (filter_last_miss (belongs (key e)) ns n h.0), HoldsOwn-miss ns n es h.1 k.1)

not_others :
    (j k : ℕ) (n : Node) (es : List Event)
    → n.campaign_id ≡ some k
    → j ≡ k
    → All (λ x. (key x == j) ≡ false) es
    → All (λ e. belongs (key e) n ≡ false) es
not_others j k n [] i e h = tt
not_others j k n (x ∷ xs) i e h = (rw (i, ← e) h.0, not_others j k n xs i e h.1)

pub push_node-HoldsOwn :
    (k : ℕ) (ns : List Node) (n : Node) (es : List Event)
    → n.campaign_id ≡ some k
    → Distinct es
    → HoldsOwn ns es
    → HoldsOwn (ns ++ (n ∷ [])) (push_node k n es)
unfolding push_node
push_node-HoldsOwn k ns n [] i d h = tt
push_node-HoldsOwn k ns n (e ∷ es) i d h = elim (Bool-cases (key e == k)) [
  | inl hit ↦ rw hit (
    ap (λ xs. xs ++ (n ∷ [])) h.0 ∙ sym (filter_last_hit (belongs (key e)) ns n (rw i hit)),
    HoldsOwn-miss ns n es (not_others (key e) k n es i ((==_iff _ _).0 hit) d.0) h.1,
  )
  | inr miss ↦ rw miss (
    h.0 ∙ sym (filter_last_miss (belongs (key e)) ns n (rw i miss)),
    push_node-HoldsOwn k ns n es i d.1 h.1,
  )
]

-- Pushing a node leaves the ids alone.
push_node-keys :
    (j k : ℕ) (n : Node) (es : List Event)
    → All (λ x. (key x == j) ≡ false) es
    → All (λ x. (key x == j) ≡ false) (push_node k n es)
unfolding push_node
push_node-keys j k n [] h = tt
push_node-keys j k n (e ∷ es) h = elim (Bool-cases (key e == k)) [
  | inl hit ↦ rw hit h
  | inr miss ↦ rw miss (h.0, push_node-keys j k n es h.1)
]

pub push_node-Distinct :
    (k : ℕ) (n : Node) (es : List Event) → Distinct es → Distinct (push_node k n es)
unfolding push_node
push_node-Distinct k n [] d = tt
push_node-Distinct k n (e ∷ es) d = elim (Bool-cases (key e == k)) [
  | inl hit ↦ rw hit d
  | inr miss ↦ rw miss (push_node-keys (key e) k n es d.0, push_node-Distinct k n es d.1)
]

pub push_node-has_event :
    (j k : ℕ) (n : Node) (es : List Event) → has_event j (push_node k n es) ≡ has_event j es
unfolding push_node
push_node-has_event j k n [] = refl
push_node-has_event j k n (e ∷ es) = ground (arith, push_node-has_event j k n es)

pub has_event-All :
    (k : ℕ) (n : Node) (es : List Event)
    → n.campaign_id ≡ some k
    → has_event k es ≡ false
    → All (λ e. belongs (key e) n ≡ false) es
has_event-All k n [] i h = tt
has_event-All k n (e ∷ es) i h = (rw i (ground arith), has_event-All k n es i (ground arith))

pub unlinked-All :
    (n : Node) (es : List Event) → n.campaign_id ≡ none → All (λ e. belongs (key e) n ≡ false) es
unlinked-All n [] i = tt
unlinked-All n (e ∷ es) i = (rw i refl, unlinked-All n es i)
