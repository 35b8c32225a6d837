-- ===== src/Dscan/Groups.antt =====
-- frontend/src/components/DscanParser.jsx, GROUP_CATEGORIES: a part of the table of names.
use lawn_eve_intel_dashboard.Common.{String, List, [], ◌∷◌}
use lawn_eve_intel_dashboard.Dscan.Categories.{
  Category, battlecruiser, battleship, bomber, bubble, capital, covops, cruiser, deployable,
  destroyer, doctrine, ewar, frigate, pod, probe, recon, sov, structure, super, support, tackle,
}

-- The groups, the structures, the deployables and the other objects.
unfoldable pub groups : List (String × Category)
groups =
    ("Titan", super)
    ∷ ("Supercarrier", super)
    ∷ ("Dreadnought", capital)
    ∷ ("Carrier", capital)
    ∷ ("Force Auxiliary", capital)
    ∷ ("Black Ops", capital)
    ∷ ("Battleship", battleship)
    ∷ ("Marauder", battleship)
    ∷ ("Battlecruiser", battlecruiser)
    ∷ ("Command Ship", battlecruiser)
    ∷ ("Attack Battlecruiser", battlecruiser)
    ∷ ("Strategic Cruiser", doctrine)
    ∷ ("Heavy Assault Cruiser", doctrine)
    ∷ ("Force Recon Ship", recon)
    ∷ ("Combat Recon Ship", recon)
    ∷ ("Logistics Cruiser", support)
    ∷ ("Logistics Frigate", support)
    ∷ ("Interceptor", tackle)
    ∷ ("Interdictor", tackle)
    ∷ ("Heavy Interdictor", tackle)
    ∷ ("Cruiser", cruiser)
    ∷ ("Electronic Attack Ship", ewar)
    ∷ ("Covert Ops", covops)
    ∷ ("Stealth Bomber", bomber)
    ∷ ("Destroyer", destroyer)
    ∷ ("Assault Frigate", frigate)
    ∷ ("Frigate", frigate)
    ∷ ("Capsule", pod)
    ∷ ("Citadel", structure)
    ∷ ("Engineering Complex", structure)
    ∷ ("Refinery", structure)
    ∷ ("Jump Gate", structure)
    ∷ ("Orbital Infrastructure", structure)
    ∷ ("Control Tower", structure)
    ∷ ("Moon Drill", structure)
    ∷ ("Starbase Defense", structure)
    ∷ ("Cynosural Beacon", structure)
    ∷ ("Astrahus", structure)
    ∷ ("Fortizar", structure)
    ∷ ("Keepstar", structure)
    ∷ ("Raitaru", structure)
    ∷ ("Azbel", structure)
    ∷ ("Sotiyo", structure)
    ∷ ("Athanor", structure)
    ∷ ("Tatara", structure)
    ∷ ("Ansiblex Jump Gate", structure)
    ∷ ("Metenox Moon Harvester", structure)
    ∷ ("Customs Office", structure)
    ∷ ("Mobile Depot", deployable)
    ∷ ("Mobile Cynosural Inhibitor", deployable)
    ∷ ("Mobile Cyno Inhibitor", deployable)
    ∷ ("Mobile Large Warp Disruptor", bubble)
    ∷ ("Mobile Medium Warp Disruptor", bubble)
    ∷ ("Mobile Small Warp Disruptor", bubble)
    ∷ ("Scanner Probe", probe)
    ∷ ("Survey Probe", probe)
    ∷ ("Combat Scanner Probe", probe)
    ∷ ("Sovereignty Blockade Unit", sov)
    ∷ ("Infrastructure Hub", sov)
    ∷ ("Sovereignty Hub", sov)
    ∷ ("Sun", probe)
    ∷ []
