-- ===== src/Notify/Snapshots.antt =====
-- useNotifications.js: what a snapshot records of a poll.
use lawn_eve_intel_dashboard.Common.{
  ℕ, ◌+◌, ◌≡◌, refl, ◌∙◌, inl, inr, Bool, true, false, ◌&&◌, ◌||◌, Option, none, some, List, [],
  ◌∷◌, arith, ◌==◌, if◌then◌else◌, ==_iff, ==_refl, Bool-cases, first_some, any,
}
use lawn_eve_intel_dashboard.Common.Assoc.{lookup, insert, lookup-insert}
use lawn_eve_intel_dashboard.Campaign.{Campaign, Phase, get_campaign_phase}
use lawn_eve_intel_dashboard.Notify.{
  Sov, Activity, Poll, snapshot, phases_loop, adm_loop, record_adm, pvp_loop, kills_of,
}

abbrev pub friendly_adm : Option Sov → Option ℕ
friendly_adm none = none
friendly_adm (some s) = if s.is_friendly then some s.adm else none

-- The ADM of one of our systems, where the space is ours and the index friendly.
abbrev pub adm_of : Poll → ℕ → Option ℕ
adm_of p id =
    if p.holds_sov && any (λ i. i == id) p.primary_ids
    then friendly_adm (lookup id p.sovereignty)
    else none

-- The phase of the last campaign with an id.
abbrev pub phase_in : ℕ → List Campaign → ℕ → Option Phase
phase_in now [] id = none
phase_in now (c ∷ cs) id =
    first_some (phase_in now cs id)
      (if c.campaign_id == id then some (get_campaign_phase now c).phase else none)

abbrev pub primary_kills : List (ℕ × Activity) → List ℕ → ℕ
primary_kills act [] = 0
primary_kills act (id ∷ ids) = kills_of (lookup id act) + primary_kills act ids

phases_loop-lookup :
    (now : ℕ) (cs : List Campaign) (m : List (ℕ × Phase)) (id : ℕ)
    → lookup id (phases_loop now cs m) ≡ first_some (phase_in now cs id) (lookup id m)
unfolding phases_loop
phases_loop-lookup now [] m id = refl
phases_loop-lookup now (c ∷ cs) m id =
    phases_loop-lookup now cs (insert c.campaign_id (get_campaign_phase now c).phase m) id
    ∙ rw (lookup-insert c.campaign_id id (get_campaign_phase now c).phase m)
        (regroup (phase_in now cs id) (c.campaign_id == id))
  where
    regroup :
        (o : Option Phase) (b : Bool)
        → first_some o (if b then some (get_campaign_phase now c).phase else lookup id m)
          ≡ first_some
              (first_some o (if b then some (get_campaign_phase now c).phase else none))
              (lookup id m)
    regroup (some x) b = refl
    regroup none true = refl
    regroup none false = refl

pub snapshot-phases :
    (now : ℕ) (p : Poll) (id : ℕ)
    → lookup id (snapshot now p).campaign_phases ≡ phase_in now p.campaigns id
unfolding snapshot
snapshot-phases now p id =
    phases_loop-lookup now p.campaigns [] id
    ∙ unfold lookup in no_more (phase_in now p.campaigns id)
  where
    no_more : (o : Option Phase) → first_some o none ≡ o
    no_more none = refl
    no_more (some x) = refl

record_adm-lookup :
    (id j : ℕ) (o : Option Sov) (m : List (ℕ × ℕ))
    → lookup j (record_adm id o m)
      ≡ (if id == j then first_some (friendly_adm o) (lookup j m) else lookup j m)
unfolding record_adm
record_adm-lookup id j none m = ground arith
record_adm-lookup id j (some s) m = ground (arith, lookup-insert id j s.adm m)

again :
    (b : Bool) (f l : Option ℕ)
    → (if b then first_some f (first_some f l) else first_some f l) ≡ first_some f l
again true none l = refl
again true (some x) l = refl
again false f l = refl

split_first :
    (sov : List (ℕ × Sov)) (ids : List ℕ) (m : List (ℕ × ℕ)) (id j : ℕ)
    → (if any (λ i. i == j) ids
        then first_some
            (friendly_adm (lookup j sov))
            (if id == j then first_some (friendly_adm (lookup id sov)) (lookup j m) else lookup j m)
        else (if id == j
            then first_some (friendly_adm (lookup id sov)) (lookup j m)
            else lookup j m))
      ≡ (if (id == j) || any (λ i. i == j) ids
          then first_some (friendly_adm (lookup j sov)) (lookup j m)
          else lookup j m)
split_first sov ids m id j = elim (Bool-cases (id == j)) [
  | inl same ↦
      rw ((==_iff id j).0 same, ==_refl j)
        (again (any (λ i. i == j) ids) (friendly_adm (lookup j sov)) (lookup j m))
  | inr other ↦ rw other refl
]

adm_loop-lookup :
    (sov : List (ℕ × Sov)) (ids : List ℕ) (m : List (ℕ × ℕ)) (j : ℕ)
    → lookup j (adm_loop sov ids m) ≡ (
        if any (λ i. i == j) ids
        then first_some (friendly_adm (lookup j sov)) (lookup j m)
        else lookup j m)
unfolding adm_loop
adm_loop-lookup sov [] m j = refl
adm_loop-lookup sov (id ∷ ids) m j =
    adm_loop-lookup sov ids (record_adm id (lookup id sov) m) j
    ∙ rw (record_adm-lookup id j (lookup id sov) m) (split_first sov ids m id j)

pvp_loop-sum :
    (act : List (ℕ × Activity)) (ids : List ℕ) (total : ℕ)
    → pvp_loop act ids total ≡ total + primary_kills act ids
unfolding pvp_loop
pvp_loop-sum act [] total = omega arith
pvp_loop-sum act (id ∷ ids) total =
    omega (arith, pvp_loop-sum act ids (total + kills_of (lookup id act)))

pub snapshot-primary_pvp :
    (now : ℕ) (p : Poll) → (snapshot now p).primary_pvp ≡ primary_kills p.activity p.primary_ids
unfolding snapshot
snapshot-primary_pvp now p = pvp_loop-sum p.activity p.primary_ids 0 ∙ omega arith

pub snapshot-adm :
    (now : ℕ) (p : Poll) (id : ℕ) → lookup id (snapshot now p).adm_by_system ≡ adm_of p id
unfolding snapshot
snapshot-adm now p id = elim (Bool-cases p.holds_sov) [
  | inl ours ↦ rw ours (
      adm_loop-lookup p.sovereignty p.primary_ids [] id
      ∙ unfold lookup in
        nothing_before (any (λ i. i == id) p.primary_ids) (friendly_adm (lookup id p.sovereignty)))
  | inr theirs ↦ rw theirs (unfold lookup in refl)
]
  where
    nothing_before :
        (b : Bool) (f : Option ℕ)
        → (if b then first_some f none else none) ≡ (if b then f else none)
    nothing_before true none = refl
    nothing_before true (some x) = refl
    nothing_before false f = refl
