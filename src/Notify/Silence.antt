-- ===== src/Notify/Silence.antt =====
-- useNotifications.js: when no alert is sent.
use lawn_eve_intel_dashboard.Common.{
  ℕ, ◌≤◌, String, ◌≡◌, refl, sym, ap, ◌∙◌, ◌≢◌, ◌⊎◌, inl, inr, Bool, true, false, ◌&&◌, Option,
  none, some, List, [], ◌∷◌, ◌++◌, map, arith, ◌==◌, if◌then◌else◌, ==_refl, filter, any, All,
}
use lawn_eve_intel_dashboard.Common.Int.{pos, sub_ℕ, leb_ℤ}
use lawn_eve_intel_dashboard.Common.Assoc.{lookup}
use lawn_eve_intel_dashboard.Campaign.{Campaign, Phase, reinforced, nodes}
use lawn_eve_intel_dashboard.Notify.{
  Settings, Permission, granted, denied, undecided, unsupported, is_granted, Poll, Snapshot,
  snapshot, new_campaigns, spawned, pvp_spike, adm_drops, crossed, is_reinforced, is_nodes, alerts,
  alerts_after, check_and_notify,
}
use lawn_eve_intel_dashboard.Notify.Snapshots.{adm_of}
use lawn_eve_intel_dashboard.Notify.Polls.{is_sound, wanted, fell, check_and_notify-wanted}

new_campaigns-all_known :
    (short : String) (ids : List ℕ) (cs : List Campaign)
    → All (λ c. any (λ i. i == c.campaign_id) ids ≡ true) cs
    → new_campaigns short ids cs ≡ []
unfolding new_campaigns
new_campaigns-all_known short ids [] h = refl
new_campaigns-all_known short ids (c ∷ cs) h = rw h.0 (new_campaigns-all_known short ids cs h.1)

All-known-cons :
    (j : ℕ) (ids : List ℕ) (cs : List Campaign)
    → All (λ c. any (λ i. i == c.campaign_id) ids ≡ true) cs
    → All (λ c. any (λ i. i == c.campaign_id) (j ∷ ids) ≡ true) cs
All-known-cons j ids [] h = tt
All-known-cons j ids (c ∷ cs) h = (ground (arith, h.0), All-known-cons j ids cs h.1)

All-known :
    (cs : List Campaign)
    → All (λ c. any (λ i. i == c.campaign_id) (map (λ d. d.campaign_id) cs) ≡ true) cs
All-known [] = tt
All-known (c ∷ cs) =
    (rw (==_refl c.campaign_id) refl, All-known-cons c.campaign_id _ cs (All-known cs))

not_both : (o : Option Phase) → (is_reinforced o && is_nodes o) ≡ false
not_both none = refl
not_both (some reinforced) = refl
not_both (some nodes) = refl

spawned_same : (m : List (ℕ × Phase)) (cs : List Campaign) → spawned m m cs ≡ []
unfolding spawned
spawned_same m [] = refl
spawned_same m (c ∷ cs) = rw (not_both (lookup c.campaign_id m)) (spawned_same m cs)

crossed_same : (o : Option ℕ) → crossed o o ≡ false
unfolding crossed
crossed_same none = refl
crossed_same (some x) = ground arith

adm_drops_same :
    (names : List (ℕ × String)) (m : List (ℕ × ℕ)) (ids : List ℕ) → adm_drops names m m ids ≡ []
unfolding adm_drops
adm_drops_same names m [] = refl
adm_drops_same names m (id ∷ ids) = rw (crossed_same (lookup id m)) (adm_drops_same names m ids)

pvp_spike_same : (short : String) (t n : ℕ) → 1 ≤ t → pvp_spike short t n n ≡ []
unfolding pvp_spike
pvp_spike_same short t n h = rw (flat t n h) refl
  where
    flat : (t n : ℕ) → 1 ≤ t → leb_ℤ (pos t) (sub_ℕ n n) ≡ false
    flat t n h = ground arith

if_nil {ℓ} : {A : Type ℓ} (b : Bool) (xs : List A) → xs ≡ [] → (if b then xs else []) ≡ []
if_nil true xs e = e
if_nil false xs e = refl

alerts_same :
    (st : Settings) (now : ℕ) (p : Poll)
    → 1 ≤ st.pvp_threshold
    → alerts st (snapshot now p) (snapshot now p) p ≡ []
unfolding alerts
alerts_same st now p h =
    rw
      (
        known,
        spawned_same (snapshot now p).campaign_phases p.campaigns,
        pvp_spike_same p.alliance_short st.pvp_threshold (snapshot now p).primary_pvp h,
        adm_drops_same p.names (snapshot now p).adm_by_system p.primary_ids,
      )
      (rw
        (if_nil st.campaigns ([] ++ []) refl, if_nil st.pvp [] refl, if_nil st.adm_critical [] refl)
        refl)
  where
    known : new_campaigns p.alliance_short (snapshot now p).campaign_ids p.campaigns ≡ []
    known =
        unfold snapshot in
        new_campaigns-all_known p.alliance_short _ p.campaigns (All-known p.campaigns)

alerts_after-nil :
    (st : Settings) (perm : Permission) (prev cur : Snapshot) (p : Poll)
    → alerts st prev cur p ≡ []
    → alerts_after st perm (some prev) cur p ≡ []
unfolding alerts_after
alerts_after-nil st perm prev cur p e = if_nil (st.enabled && is_granted perm) _ e

-- A poll whose snapshot is the earlier one sends nothing, if the kill threshold is at least 1.
pub check_and_notify_unchanged :
    (st : Settings) (perm : Permission) (now : ℕ) (p : Poll) (prev : Snapshot)
    → 1 ≤ st.pvp_threshold
    → prev ≡ (check_and_notify now st perm none p).0
    → (check_and_notify now st perm (some prev) p).1 ≡ []
unfolding check_and_notify
check_and_notify_unchanged st perm now p prev h e =
    rw e (alerts_after-nil st perm (snapshot now p) (snapshot now p) p (alerts_same st now p h))

gate {ℓ} :
    {A : Type ℓ} (b : Bool) (g : Permission) (xs : List A)
    → (if b && is_granted g then xs else []) ≢ []
    → (b ≡ true) × (g ≡ granted)
gate true granted xs h = (refl, refl)
gate true denied xs h = absurd (h refl)
gate true undecided xs h = absurd (h refl)
gate true unsupported xs h = absurd (h refl)
gate false g xs h = absurd (h refl)

-- An alert is sent only after an earlier poll, with the alerts enabled and permitted.
pub check_and_notify_needs :
    (st : Settings) (perm : Permission) (now : ℕ) (prev : Option Snapshot) (p : Poll)
    → (check_and_notify now st perm prev p).1 ≢ []
    → (prev ≢ none) × (st.enabled ≡ true) × (perm ≡ granted)
unfolding check_and_notify alerts_after
check_and_notify_needs st perm now none p h = absurd (h refl)
check_and_notify_needs st perm now (some prev) p h =
    let (on, allowed) = gate st.enabled perm (alerts st prev (snapshot now p) p) h in
    ((λ e. cc), on, allowed)

not_fell :
    (p0 p : Poll) (id : ℕ) → (p0.holds_sov ≡ false) ⊎ (p.holds_sov ≡ false) → fell p0 p id ≡ false
not_fell p0 p id (inl e) = rw e refl
not_fell p0 p id (inr e) = rw e (no_after (adm_of p0 id))
  where
    no_after : (o : Option ℕ) → (is_sound o && false) ≡ false
    no_after none = refl
    no_after (some x) = ground arith

filter_none {ℓ} :
    {A : Type ℓ} (q : A → Bool) (xs : List A) → ((x : A) → q x ≡ false) → filter q xs ≡ []
filter_none q [] h = refl
filter_none q (x ∷ xs) h = rw (h x) (filter_none q xs h)

wanted_guest :
    (now0 : ℕ) (p0 : Poll) (now : ℕ) (p : Poll) (st : Settings)
    → (p0.holds_sov ≡ false) ⊎ (p.holds_sov ≡ false)
    → wanted now0 p0 now p st ≡ wanted now0 p0 now p (record st { adm_critical = false })
wanted_guest now0 p0 now p st h =
    rw (filter_none (fell p0 p) p.primary_ids (λ id. not_fell p0 p id h))
      (rw (if_nil st.adm_critical [] refl) refl)

-- While the space is not ours, at this poll or at the one before it, the ADM switch makes no
-- difference: no ADM alert is sent.
pub check_and_notify_guest :
    (now0 : ℕ) (p0 : Poll) (now : ℕ) (p : Poll) (st : Settings) (perm : Permission)
    → (p0.holds_sov ≡ false) ⊎ (p.holds_sov ≡ false)
    → (check_and_notify now st perm (some (check_and_notify now0 st perm none p0).0) p).1
      ≡ (check_and_notify now
          (record st { adm_critical = false })
          perm
          (some (check_and_notify now0 st perm none p0).0)
          p).1
unfolding check_and_notify
check_and_notify_guest now0 p0 now p st perm h =
    check_and_notify-wanted now0 p0 now p st perm
    ∙ ap (λ ns. if st.enabled && is_granted perm then ns else []) (wanted_guest now0 p0 now p st h)
    ∙ sym (check_and_notify-wanted now0 p0 now p (record st { adm_critical = false }) perm)
