-- ===== src/MapView/Gates.antt =====
-- mapHelpers.js: the labels of the gateways.
use lawn_eve_intel_dashboard.Common.{
  String, ◌≡◌, refl, ap, ◌∙◌, inl, inr, Bool, true, false, not, ◌&&◌, Option, none, some, List, [],
  ◌∷◌, str_eq, if◌then◌else◌, Bool-cases, first_some,
}
use lawn_eve_intel_dashboard.Common.Named.{named, named-put_named}
use lawn_eve_intel_dashboard.Config.{MapPos, Layout, Connection}
use lawn_eve_intel_dashboard.MapView.{
  note_of, is_label, leads_out, put_label, label_ends, gates_loop, gateway_destinations,
}

-- The label that the far end gives to the near one, if the near one is ours and the far one is not.
abbrev pub label_from : Option MapPos → Option MapPos → Option String
label_from none far = none
label_from (some near) none = none
label_from (some near) (some far) =
    if near.lawn && not far.lawn && is_label (note_of far) then some (note_of far) else none

-- The label that a connection gives to a system, which can be either end.
abbrev pub label_of : Layout → String → Connection → Option String
label_of layout s c =
    if leads_out c
    then first_some
        (if str_eq c.from s then label_from (named c.from layout) (named c.to layout) else none)
        (if str_eq c.to s then label_from (named c.to layout) (named c.from layout) else none)
    else none

-- The label of a system by the last connection that gives one, or an older one.
pub last_label : Layout → String → List Connection → Option String → Option String
last_label layout s [] old = old
last_label layout s (c ∷ cs) old = last_label layout s cs (first_some (label_of layout s c) old)

-- What `put_label` makes of the label of a system.
abbrev when : Bool → String → Option String
when b note = if b then some note else none

named-put_label :
    (name s note : String) (ds : List (String × String))
    → named s (put_label name note ds)
      ≡ first_some (if str_eq name s then when (is_label note) note else none) (named s ds)
named-put_label name s note ds = elim (Bool-cases (is_label note)) [
  | inl yes' ↦ rw yes' (
      named-put_named name s note ds
      ∙ elim (Bool-cases (str_eq name s)) [ inl same ↦ rw same refl | inr other ↦ rw other refl ])
  | inr no' ↦
      rw no'
        (elim (Bool-cases (str_eq name s)) [ inl same ↦ rw same refl | inr other ↦ rw other refl ])
]

if_none : (b : Bool) → ◌≡◌ {A = Option String} (if b then none else none) none
if_none true = refl
if_none false = refl

first_some-none : (o : Option String) → first_some o none ≡ o
first_some-none none = refl
first_some-none (some x) = refl

by_lawn-named :
    (s : String) (c : Connection) (m n : String) (a b : Bool) (ds : List (String × String))
    → named s (
        if a && not b
        then put_label c.from n ds
        else if b && not a
        then put_label c.to m ds
        else ds)
      ≡ first_some
          (first_some
            (if str_eq c.from s then (if a && not b && is_label n then some n else none) else none)
            (if str_eq c.to s then (if b && not a && is_label m then some m else none) else none))
          (named s ds)
by_lawn-named s c m n true false ds =
    named-put_label c.from s n ds ∙ rw (if_none (str_eq c.to s), first_some-none) refl
by_lawn-named s c m n false true ds =
    named-put_label c.to s m ds ∙ rw (if_none (str_eq c.from s)) refl
by_lawn-named s c m n true true ds = rw (if_none (str_eq c.to s), if_none (str_eq c.from s)) refl
by_lawn-named s c m n false false ds = rw (if_none (str_eq c.to s), if_none (str_eq c.from s)) refl

label_ends-named :
    (s : String) (c : Connection) (la lb : Option MapPos) (ds : List (String × String))
    → named s (label_ends c la lb ds)
      ≡ first_some
          (first_some
            (if str_eq c.from s then label_from la lb else none)
            (if str_eq c.to s then label_from lb la else none))
          (named s ds)
label_ends-named s c none none ds = rw (if_none (str_eq c.from s), if_none (str_eq c.to s)) refl
label_ends-named s c none (some lb) ds =
    rw (if_none (str_eq c.from s), if_none (str_eq c.to s)) refl
label_ends-named s c (some la) none ds =
    rw (if_none (str_eq c.from s), if_none (str_eq c.to s)) refl
label_ends-named s c (some la) (some lb) ds =
    by_lawn-named s c (note_of la) (note_of lb) la.lawn lb.lawn ds

gates_loop-named :
    (layout : Layout) (s : String) (cs : List Connection) (ds : List (String × String))
    → named s (gates_loop layout cs ds) ≡ last_label layout s cs (named s ds)
unfolding gates_loop last_label
gates_loop-named layout s [] ds = refl
gates_loop-named layout s (c ∷ cs) ds = elim (Bool-cases (leads_out c)) [
  | inl out ↦ rw out (
      gates_loop-named layout s cs (label_ends c (named c.from layout) (named c.to layout) ds)
      ∙ ap (last_label layout s cs)
          (label_ends-named s c (named c.from layout) (named c.to layout) ds))
  | inr in' ↦ rw in' (gates_loop-named layout s cs ds)
]

-- A system is labelled by the last regional or cross connection between it, if it is ours, and a
-- system that is not ours and has a name for its region, with that name; and by no other one.
pub gateway_destinations-last_label :
    (layout : Layout) (cs : List Connection) (s : String)
    → named s (gateway_destinations layout cs) ≡ last_label layout s cs none
unfolding gateway_destinations named
gateway_destinations-last_label layout cs s = gates_loop-named layout s cs []
