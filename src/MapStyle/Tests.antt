-- ===== src/MapStyle/Tests.antt =====
-- ConstellationMap.jsx: a map with a held, a lost and a neighbouring system.
use lawn_eve_intel_dashboard.MapStyle.Gestures.{
  Float, num, nan, Numbers, Touch, touch_start, touch_move, Gesture, untouched, move_pinch,
}
use lawn_eve_intel_dashboard.MapStyle.Scales.{
  IsNumber, InRange, Laws, Reach, drawn, starts, moves, Reach-InRange,
}
use lawn_eve_intel_dashboard.Common.{
  ℕ, ◌*◌, ◌/◌, ◌&&◌, ◌==◌, arith, leb, if◌then◌else◌, String, ◌≡◌, refl, Bool, true, false, none,
  some, [], ◌∷◌, map,
}
use lawn_eve_intel_dashboard.Common.Int.{pos}
use lawn_eve_intel_dashboard.Config.{MapPos}
use lawn_eve_intel_dashboard.MapStyle.{View, SovView, needs_critical_grinding}
use lawn_eve_intel_dashboard.MapStyle.Badges.{Badges, grinding-Badges}

abbrev at : Bool → String → MapPos
at lawn constellation = record {
  x = pos 1;
  y = pos 2;
  constellation = constellation;
  lawn = lawn;
  note = none;
}

abbrev held_sov : SovView
held_sov = record { alliance_name = some "LAWN"; is_friendly = true; is_host = false; adm = 15 }

abbrev lost_sov : SovView
lost_sov = record { alliance_name = some "Foe"; is_friendly = false; is_host = false; adm = 15 }

abbrev view : View
view = record {
  ids = ("J9A-BH", 1) ∷ ("6-8QLA", 2) ∷ [];
  layout =
      ("J9A-BH", at true "Home") ∷ ("6-8QLA", at true "Home") ∷ ("X-X", at false "neighbor") ∷ [];
  sovereignty = (1, held_sov) ∷ (2, lost_sov) ∷ [];
  activity = [];
  campaigns = none;
  holds_sov = true;
}

critical :
    map (needs_critical_grinding view) ("J9A-BH" ∷ "6-8QLA" ∷ "X-X" ∷ [])
    ≡ true ∷ false ∷ false ∷ []
unfolding needs_critical_grinding
critical = refl

grinding-Badges_example : Badges view "J9A-BH"
grinding-Badges_example = grinding-Badges view "J9A-BH"

-- Scales in percents.
abbrev ratio : ℕ → ℕ → Float ℕ
ratio m n = if m == 0 && n == 0 then nan else num (100 * m / n)

abbrev percents : Numbers
percents = record {
  N = ℕ;
  le = leb;
  half = 50;
  one = 100;
  five = 500;
  root = λ n. n;
  quotient = ratio;
  product = λ s n. num (s * n / 100);
}

percents-Laws : Laws percents
percents-Laws = record {
  total = λ m n h. ground arith;
  reflexive = λ n. ground arith;
  half_le_five = refl;
  one_in_range = (refl, refl);
  quotient_number = λ m n h. rw h tt;
  product_number = λ s n h. tt;
}

abbrev finger : ℕ → Touch
finger n = record { x = pos n; y = pos 0 }

abbrev narrow : Gesture percents
narrow = touch_start percents (finger 0 ∷ finger 10 ∷ []) (untouched percents true)

abbrev wide : Gesture percents
wide = touch_move percents (finger 0 ∷ finger 100 ∷ []) narrow

wide-Reach : Reach {S = percents} wide
unfolding untouched touch_start lawn_eve_intel_dashboard.Common.Int.◌-ℤ◌
wide-Reach =
    moves (finger 0 ∷ finger 100 ∷ []) (starts (finger 0 ∷ finger 10 ∷ []) (drawn true)) refl

Reach-InRange_example : IsNumber (InRange percents) wide.scale
Reach-InRange_example = Reach-InRange {S = percents} percents-Laws {g = wide} wide-Reach

-- Ten times as wide, the pinch stops at five times the size.
clamped : wide.scale ≡ num 500
unfolding untouched touch_start touch_move move_pinch
clamped = refl
