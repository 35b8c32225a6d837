-- ===== src/Notify/Polls.antt =====
-- useNotifications.js: the alerts of a poll after an earlier one.
use lawn_eve_intel_dashboard.Common.{
  ℕ, ◌+◌, String, ◌≡◌, refl, ap, inl, inr, Bool, true, false, not, ◌&&◌, Option, none, some, List,
  [], ◌∷◌, ◌++◌, map, arith, ltb, leb, ◌==◌, if◌then◌else◌, Bool-cases, or_else, filter, any,
}
use lawn_eve_intel_dashboard.Common.Int.{pos, sub_ℕ, leb_ℤ}
use lawn_eve_intel_dashboard.Campaign.{Campaign}
use lawn_eve_intel_dashboard.Notify.{
  Settings, Permission, is_granted, Poll, Notice, snapshot, campaign_notice, nodes_notice,
  pvp_notice, adm_notice, new_campaigns, spawned, pvp_spike, adm_drops, crossed, is_reinforced,
  is_nodes, alerts, alerts_after, check_and_notify,
}
use lawn_eve_intel_dashboard.Notify.Snapshots.{
  adm_of, phase_in, primary_kills, snapshot-phases, snapshot-primary_pvp, snapshot-adm,
}

-- The campaign was in the earlier poll.
abbrev pub known : Poll → Campaign → Bool
known p c = any (λ d. d.campaign_id == c.campaign_id) p.campaigns

-- The campaign was reinforced at the earlier poll, and its nodes are out now.
abbrev pub turned : ℕ → Poll → ℕ → Poll → Campaign → Bool
turned now0 p0 now p c =
    is_reinforced (phase_in now0 p0.campaigns c.campaign_id)
    && is_nodes (phase_in now p.campaigns c.campaign_id)

-- There is an ADM to go by, and it is at least 2.0; it is below 2.0.
abbrev pub is_sound : Option ℕ → Bool
is_sound none = false
is_sound (some adm) = leb 20 adm

abbrev pub is_critical : Option ℕ → Bool
is_critical none = false
is_critical (some adm) = ltb adm 20

-- The system was sound, and is critical now.
abbrev pub fell : Poll → Poll → ℕ → Bool
fell p0 p id = is_sound (adm_of p0 id) && is_critical (adm_of p id)

crossed-fell : (o q : Option ℕ) → crossed o q ≡ (is_sound o && is_critical q)
unfolding crossed
crossed-fell none q = refl
crossed-fell (some a) none = ground arith
crossed-fell (some a) (some b) = refl

abbrev pub kills : Poll → ℕ
kills p = primary_kills p.activity p.primary_ids

abbrev pub spike : ℕ → Poll → Poll → Bool
spike threshold p0 p = leb (kills p0 + threshold) (kills p)

-- What should be sent.
abbrev pub wanted : ℕ → Poll → ℕ → Poll → Settings → List Notice
wanted now0 p0 now p st =
    (if st.campaigns
      then map (campaign_notice p.alliance_short) (filter (λ c. not (known p0 c)) p.campaigns)
        ++ map nodes_notice (filter (turned now0 p0 now p) p.campaigns)
      else [])
    ++ ((if st.pvp && spike st.pvp_threshold p0 p
          then pvp_notice p.alliance_short (sub_ℕ (kills p) (kills p0)) (kills p) ∷ []
          else [])
        ++ (if st.adm_critical
            then map (λ id. adm_notice p.names id (or_else (adm_of p id) 0))
                (filter (fell p0 p) p.primary_ids)
            else []))

new_campaigns-known :
    (short : String) (p0 : Poll) (cs : List Campaign)
    → new_campaigns short (map (λ c. c.campaign_id) p0.campaigns) cs
      ≡ map (campaign_notice short) (filter (λ c. not (known p0 c)) cs)
unfolding new_campaigns
new_campaigns-known short p0 [] = refl
new_campaigns-known short p0 (c ∷ cs) = rw (any-map p0.campaigns) (elim (Bool-cases (known p0 c)) [
  | inl old ↦ rw old (new_campaigns-known short p0 cs)
  | inr new ↦ rw new (ap (λ ns. campaign_notice short c ∷ ns) (new_campaigns-known short p0 cs))
])
  where
    any-map :
        (ds : List Campaign)
        → any (λ i. i == c.campaign_id) (map (λ d. d.campaign_id) ds)
          ≡ any (λ d. d.campaign_id == c.campaign_id) ds
    any-map [] = refl
    any-map (d ∷ ds) = rw (any-map ds) refl

leb-sub_ℕ : (a b t : ℕ) → leb_ℤ (pos t) (sub_ℕ b a) ≡ leb (a + t) b
leb-sub_ℕ a b t = ground arith

if_and {ℓ} :
    {A : Type ℓ} (a b : Bool) (xs : List A)
    → (if a then (if b then xs else []) else []) ≡ (if a && b then xs else [])
if_and true b xs = refl
if_and false b xs = refl

module _ (now0 : ℕ) (p0 : Poll) (now : ℕ) (p : Poll) where
  spawned-turned :
      (cs : List Campaign)
      → spawned (snapshot now0 p0).campaign_phases (snapshot now p).campaign_phases cs
        ≡ map nodes_notice (filter (turned now0 p0 now p) cs)
  unfolding spawned
  spawned-turned [] = refl
  spawned-turned (c ∷ cs) =
      rw (snapshot-phases now0 p0 c.campaign_id, snapshot-phases now p c.campaign_id)
        (elim (Bool-cases (turned now0 p0 now p c)) [
          | inl yes' ↦ rw yes' (ap (λ ns. nodes_notice c ∷ ns) (spawned-turned cs))
          | inr no' ↦ rw no' (spawned-turned cs)
        ])

  adm_drops-fell :
      (ids : List ℕ)
      → adm_drops p.names (snapshot now0 p0).adm_by_system (snapshot now p).adm_by_system ids
        ≡ map (λ id. adm_notice p.names id (or_else (adm_of p id) 0)) (filter (fell p0 p) ids)
  unfolding adm_drops
  adm_drops-fell [] = refl
  adm_drops-fell (id ∷ ids) =
      rw (snapshot-adm now0 p0 id, snapshot-adm now p id, crossed-fell (adm_of p0 id) (adm_of p id))
        (elim (Bool-cases (fell p0 p id)) [
          | inl down ↦
              rw down (
                ap (λ ns. adm_notice p.names id (or_else (adm_of p id) 0) ∷ ns)
                  (adm_drops-fell ids))
          | inr same ↦ rw same (adm_drops-fell ids)
        ])

  pvp_spike-spike :
      (threshold : ℕ)
      → pvp_spike p.alliance_short threshold
          (snapshot now0 p0).primary_pvp
          (snapshot now p).primary_pvp
        ≡ (if spike threshold p0 p
            then pvp_notice p.alliance_short (sub_ℕ (kills p) (kills p0)) (kills p) ∷ []
            else [])
  unfolding pvp_spike
  pvp_spike-spike threshold =
      rw (snapshot-primary_pvp now0 p0, snapshot-primary_pvp now p)
        (ap
          (λ b.
            if b
            then pvp_notice p.alliance_short (sub_ℕ (kills p) (kills p0)) (kills p) ∷ []
            else [])
          (leb-sub_ℕ (kills p0) (kills p) threshold))

  alerts-wanted :
      (st : Settings) → alerts st (snapshot now0 p0) (snapshot now p) p ≡ wanted now0 p0 now p st
  unfolding alerts
  alerts-wanted st =
      rw
        (
          spawned-turned p.campaigns,
          adm_drops-fell p.primary_ids,
          pvp_spike-spike st.pvp_threshold,
          new_ids,
        )
        (ap
          (λ ns.
            (if st.campaigns
              then map (campaign_notice p.alliance_short)
                  (filter (λ c. not (known p0 c)) p.campaigns)
                ++ map nodes_notice (filter (turned now0 p0 now p) p.campaigns)
              else [])
            ++ (ns
                ++ (if st.adm_critical
                    then map (λ id. adm_notice p.names id (or_else (adm_of p id) 0))
                        (filter (fell p0 p) p.primary_ids)
                    else [])))
          (if_and st.pvp (spike st.pvp_threshold p0 p) _))
    where
      new_ids :
          new_campaigns p.alliance_short (snapshot now0 p0).campaign_ids p.campaigns
          ≡ map (campaign_notice p.alliance_short) (filter (λ c. not (known p0 c)) p.campaigns)
      new_ids = unfold snapshot in new_campaigns-known p.alliance_short p0 p.campaigns

  -- After an earlier poll, and where alerts are enabled and permitted, the alerts are: one for each
  -- campaign that the earlier poll did not have; one for each that was reinforced then and has its
  -- nodes out now; one if the kills in our systems rose by the threshold at least; and one for each
  -- of our systems whose friendly ADM was at least 2.0 then and is below 2.0 now. Each kind is sent
  -- only if its switch is on. Otherwise nothing is sent.
  pub check_and_notify-wanted :
      (st : Settings) (perm : Permission)
      → (check_and_notify now st perm (some (check_and_notify now0 st perm none p0).0) p).1
        ≡ (if st.enabled && is_granted perm then wanted now0 p0 now p st else [])
  unfolding check_and_notify alerts_after
  check_and_notify-wanted st perm =
      ap (λ ns. if st.enabled && is_granted perm then ns else []) (alerts-wanted st)
