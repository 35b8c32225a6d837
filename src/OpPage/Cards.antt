-- ===== src/OpPage/Cards.antt =====
-- EntosisPage.jsx: each node that was polled has its card on the page.
use lawn_eve_intel_dashboard.Common.{
  ◌+◌, ◌≡◌, Bool, true, false, not, ◌&&◌, Option, none, some, List, [], ◌∷◌, ◌++◌, Perm, ◌==◌,
  length,
}
use mathlib.Core.List.Perm
use lawn_eve_intel_dashboard.Campaign.{Campaign}
use lawn_eve_intel_dashboard.Entosis.{Node}
use lawn_eve_intel_dashboard.OpPage.Body.{EventPanel, UnlinkedPanel, OpBody}

abbrev pub panel_cards : List EventPanel → List Node
panel_cards [] = []
panel_cards (p ∷ ps) = p.cards ++ panel_cards ps

abbrev pub unlinked_cards : Option UnlinkedPanel → List Node
unlinked_cards none = []
unlinked_cards (some p) = p.cards

-- The nodes that have a card, panel by panel.
abbrev pub all_cards : OpBody → List Node
all_cards b = panel_cards b.panels ++ unlinked_cards b.unlinked

abbrev pub has_panel : Option UnlinkedPanel → Bool
has_panel none = false
has_panel (some p) = true

abbrev pub IsComplete : List Node → OpBody → Type 0
IsComplete ns b =
    Perm (all_cards b) ns
    × (b.active + b.upcoming ≡ length b.panels)
    × ((length b.panels == 0 && not (has_panel b.unlinked)) ≡ false)
