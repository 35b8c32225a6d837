-- ===== src/Share/Links.antt =====
-- ShareButton.jsx: the link that is shown and what stands beside it, whatever is pressed.
use lawn_eve_intel_dashboard.Common.{
  String, ◌≡◌, refl, Bool, any, true, false, Option, none, some, List, ◌∷◌,
}
use lawn_eve_intel_dashboard.Share.Button.{
  Visibility, Link, Sharing, unshared, Outcome, published, failed, publish, finish, retry, Press,
  press_retry, press_share, press_copy, press_switch, enabled_presses, press, presses, other_one,
}

pub data Offers (p : Press) : List Press → Type 0 where
  front : {ps : List Press} → Offers p (p ∷ ps)
  behind : {q : Press} {ps : List Press} → Offers p ps → Offers p (q ∷ ps)

-- Presses of buttons that can be pressed, and the ends of requests.
pub data Reach : Sharing → Type 0 where
  start : Reach unshared
  pressed : {s : Sharing} (p : Press) → Reach s → Offers p (enabled_presses s) → Reach (press p s)
  ends :
      {s : Sharing} (vis : Visibility) (o : Outcome)
      → Reach s
      → s.asked ≡ some vis
      → Reach (finish vis o s)

abbrev pub Labelled : Option Link → Visibility → Type 0
Labelled none vis = Unit
Labelled (some l) vis = l.published_as ≡ vis

-- All the buttons but the one that copies the link.
abbrev pub is_action : Press → Bool
is_action press_retry = true
is_action press_share = true
is_action press_copy = false
is_action press_switch = true

abbrev pub can_act : List Press → Bool
can_act ps = any is_action ps

-- A request is in flight exactly while the component is busy, and only then can no action be chosen.
abbrev pub Busy : Sharing → Option Visibility → Type 0
Busy s none = (s.busy ≡ false) × (can_act (enabled_presses s) ≡ true)
Busy s (some vis) = (s.busy ≡ true) × (can_act (enabled_presses s) ≡ false)

abbrev pub IsSound : Sharing → Type 0
IsSound s = Labelled s.share s.visibility × Busy s s.asked

waiting-can_act : (o : Option Link) → can_act (presses true none o) ≡ false
waiting-can_act none = refl
waiting-can_act (some l) = refl

publish-Busy : (vis : Visibility) (s : Sharing) → Busy (publish vis s) (some vis)
unfolding publish enabled_presses
publish-Busy vis s = (refl, waiting-can_act s.share)

free-can_act :
    (message : Option String) (o : Option Link) → can_act (presses false message o) ≡ true
free-can_act none none = refl
free-can_act (some m) none = refl
free-can_act none (some l) = refl
free-can_act (some m) (some l) = refl

retry-Busy : (asked : Option Visibility) (s : Sharing) → Busy s asked → Busy (retry s) asked
unfolding retry enabled_presses
retry-Busy none s h = (h.0, rw h.0 (free-can_act none s.share))
retry-Busy (some vis) s h = (h.0, rw h.0 (waiting-can_act s.share))

press-IsSound : (p : Press) (s : Sharing) → IsSound s → IsSound (press p s)
unfolding press retry
press-IsSound press_retry s v = (v.0, retry-Busy s.asked s v.1)
press-IsSound press_share s v = (v.0, publish-Busy s.visibility s)
press-IsSound press_copy s v = v
press-IsSound press_switch s v = (v.0, publish-Busy (other_one s.visibility) s)

finish-IsSound :
    (vis : Visibility) (o : Outcome) (s : Sharing) → IsSound s → IsSound (finish vis o s)
unfolding finish enabled_presses
finish-IsSound vis (published url) s v =
    (refl, (refl, free-can_act s.error (some (record { url = url; published_as = vis }))))
finish-IsSound vis (failed message) s v = (v.0, (refl, free-can_act (some message) s.share))

reached-IsSound : {s : Sharing} → Reach s → IsSound s
unfolding enabled_presses
reached-IsSound start = (tt, (refl, refl))
reached-IsSound (pressed {s} p r o) = press-IsSound p s (reached-IsSound r)
reached-IsSound (ends {s} vis o r e) = finish-IsSound vis o s (reached-IsSound r)

-- In every state that pressing the buttons and the ends of requests can reach, the label beside the
-- link is the visibility that the link was published with, and a request is in flight exactly while
-- no button but that which copies the link can be pressed; a request that fails leaves the link and
-- its label as they are.
pub Reach-IsSound :
    {s : Sharing} (vis : Visibility) (message : String)
    → Reach s
    → IsSound s
      × ((finish vis (failed message) s).share ≡ s.share)
      × ((finish vis (failed message) s).visibility ≡ s.visibility)
unfolding finish
Reach-IsSound vis message r = (reached-IsSound r, refl, refl)
