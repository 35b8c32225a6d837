-- ===== src/MapStyle/Badges.antt =====
-- ConstellationMap.jsx: which badges and colours go together.
use lawn_eve_intel_dashboard.Common.{
  ℕ, String, ◌≡◌, Bool, true, false, ◌&&◌, ◌||◌, Option, none, some, arith, str_eq, ◌≤◌, ◌<◌, ◌↔◌,
  refl,
}
use lawn_eve_intel_dashboard.Common.Named.{named}
use lawn_eve_intel_dashboard.Common.Assoc.{lookup}
use lawn_eve_intel_dashboard.Config.{MapPos}
use lawn_eve_intel_dashboard.MapStyle.{
  View, Color, hostile, is_hostile, has_id, sov_at, color_at, get_color, is_lost_system, SovView,
  lies_in_lawn, needs_critical_grinding, needs_caution_grinding,
}

abbrev pub is_red : Color → Bool
is_red hostile = true
is_red _ = false

-- The map draws the system as the alliance's space, and has a sovereignty for it that is friendly.
pub record Friendly (v : View) (name : String) : Type 0 where
  pub pos : MapPos
  pub id : ℕ
  pub sov : SovView
  pub drawn : named name v.layout ≡ some pos
  pub in_space : pos.lawn ≡ true
  pub known : named name v.ids ≡ some id
  pub reported : lookup id v.sovereignty ≡ some sov
  pub friendly : sov.is_friendly ≡ true

-- It is such a system, the alliance holds sovereignty, and the ADM is from `lo` to less than `hi`.
pub record Grinds (v : View) (name : String) (lo hi : ℕ) : Type 0 where
  pub system : Friendly v name
  pub holds : v.holds_sov ≡ true
  pub at_least : lo ≤ system.sov.adm
  pub below : system.sov.adm < hi

-- When each badge stands, and how the two stand to each other and to what is lost.
pub record Badges (v : View) (name : String) : Type 0 where
  pub critical : (needs_critical_grinding v name ≡ true) ↔ Grinds v name 1 20
  pub caution : (needs_caution_grinding v name ≡ true) ↔ Grinds v name 20 40
  pub exclusive : (needs_critical_grinding v name && needs_caution_grinding v name) ≡ false
  pub not_lost :
      ((needs_critical_grinding v name || needs_caution_grinding v name) && is_lost_system v name)
      ≡ false

hostile-friendly :
    (v : View) (id : Option ℕ) → ((sov_at v id).is_friendly && is_hostile (sov_at v id)) ≡ false
hostile-friendly v id = ground arith

found :
    (v : View) (name : String)
    → lies_in_lawn (named name v.layout) ≡ true
    → has_id (named name v.ids) ≡ true
    → (sov_at v (named name v.ids)).is_friendly ≡ true
    → Friendly v name
unfolding sov_at
found v name lawn has friendly = by_layout (named name v.layout) (named name v.ids) refl refl
  where
    by_sov :
        (p : MapPos) (i : ℕ) (o : Option SovView)
        → named name v.layout ≡ some p
        → named name v.ids ≡ some i
        → lookup i v.sovereignty ≡ o
        → Friendly v name
    by_sov p i none d k e = absurd (cc (rw (k, e) at friendly))
    by_sov p i (some sov) d k e = record {
      pos = p;
      id = i;
      sov = sov;
      drawn = d;
      in_space = rw d at lawn;
      known = k;
      reported = e;
      friendly = rw (k, e) at friendly;
    }

    by_layout :
        (p : Option MapPos) (i : Option ℕ)
        → named name v.layout ≡ p
        → named name v.ids ≡ i
        → Friendly v name
    by_layout none i d k = absurd (cc (rw d at lawn))
    by_layout (some p) none d k = absurd (cc (rw k at has))
    by_layout (some p) (some i) d k = by_sov p i (lookup i v.sovereignty) d k refl

sov_at-Friendly :
    (v : View) (name : String) (f : Friendly v name) → sov_at v (named name v.ids) ≡ f.sov
unfolding sov_at
sov_at-Friendly v name f = rw (f.known, f.reported) refl

grinds :
    (v : View) (name : String) (lo hi : ℕ)
    → Friendly v name
    → v.holds_sov ≡ true
    → lo ≤ (sov_at v (named name v.ids)).adm
    → (sov_at v (named name v.ids)).adm < hi
    → Grinds v name lo hi
grinds v name lo hi f holds l u = record {
  system = f;
  holds = holds;
  at_least = rw (sov_at-Friendly v name f) at l;
  below = rw (sov_at-Friendly v name f) at u;
}

critical-Grinds :
    (v : View) (name : String) → (needs_critical_grinding v name ≡ true) ↔ Grinds v name 1 20
unfolding needs_critical_grinding sov_at
critical-Grinds v name = (
  λ h.
      grinds v name 1 20 (found v name (ground arith) (ground arith) (ground arith)) (ground arith)
        (ground arith) (ground arith),
  λ g.
      rw
        (
          g.system.drawn, g.system.known, g.system.reported, g.system.in_space, g.system.friendly,
          g.holds,
        )
        (ground (arith, g.at_least, g.below)),
)

caution-Grinds :
    (v : View) (name : String) → (needs_caution_grinding v name ≡ true) ↔ Grinds v name 20 40
unfolding needs_caution_grinding sov_at
caution-Grinds v name = (
  λ h.
      grinds v name 20 40 (found v name (ground arith) (ground arith) (ground arith)) (ground arith)
        (ground arith) (ground arith),
  λ g.
      rw
        (
          g.system.drawn, g.system.known, g.system.reported, g.system.in_space, g.system.friendly,
          g.holds,
        )
        (ground (arith, g.at_least, g.below)),
)

-- A system has the critical badge exactly if the alliance holds sovereignty, the system is known and
-- drawn as its space, and its sovereignty is friendly with an ADM above 0 and below 2; and the badge
-- of caution exactly if the same holds with an ADM from 2 to below 4. None has both, and a lost
-- system has none.
pub grinding-Badges : (v : View) (name : String) → Badges v name
unfolding needs_critical_grinding needs_caution_grinding is_lost_system
grinding-Badges v name = record {
  critical = critical-Grinds v name;
  caution = caution-Grinds v name;
  exclusive = ground arith;
  not_lost = ground (arith, hostile-friendly v (named name v.ids));
}

color_at-is_red :
    (v : View) (id : Option ℕ) (p : MapPos)
    → str_eq p.constellation "neighbor" ≡ false
    → is_red (color_at v id (some p)) ≡ (p.lawn && has_id id && is_hostile (sov_at v id))
unfolding sov_at
color_at-is_red v none p far = ground arith
color_at-is_red v (some id) p far = ground arith

-- A system of the layout that is no neighbour is red exactly if it counts as lost.
pub get_color-is_lost :
    (v : View) (name : String) (p : MapPos)
    → named name v.layout ≡ some p
    → str_eq p.constellation "neighbor" ≡ false
    → is_red (get_color v name) ≡ is_lost_system v name
unfolding get_color is_lost_system
get_color-is_lost v name p there far = rw there (color_at-is_red v (named name v.ids) p far)
