-- ===== src/Dscan/SmallHulls.antt =====
-- frontend/src/components/DscanParser.jsx, GROUP_CATEGORIES: a part of the table of names.
use lawn_eve_intel_dashboard.Common.{String, List, [], ◌∷◌}
use lawn_eve_intel_dashboard.Dscan.Categories.{
  Category, capital, cruiser, destroyer, frigate, probe, support,
}

-- The hulls from cruisers down, mining ships, and objects to leave out.
unfoldable pub small_hulls : List (String × Category)
small_hulls =
    ("Omen", cruiser)
    ∷ ("Maller", cruiser)
    ∷ ("Arbitrator", cruiser)
    ∷ ("Augoror", cruiser)
    ∷ ("Thorax", cruiser)
    ∷ ("Vexor", cruiser)
    ∷ ("Exequror", cruiser)
    ∷ ("Celestis", cruiser)
    ∷ ("Caracal", cruiser)
    ∷ ("Blackbird", cruiser)
    ∷ ("Moa", cruiser)
    ∷ ("Osprey", cruiser)
    ∷ ("Stabber", cruiser)
    ∷ ("Rupture", cruiser)
    ∷ ("Bellicose", cruiser)
    ∷ ("Scythe", cruiser)
    ∷ ("Omen Navy Issue", cruiser)
    ∷ ("Vexor Navy Issue", cruiser)
    ∷ ("Caracal Navy Issue", cruiser)
    ∷ ("Stabber Fleet Issue", cruiser)
    ∷ ("Gila", cruiser)
    ∷ ("Cynabal", cruiser)
    ∷ ("Phantasm", cruiser)
    ∷ ("Vigilant", cruiser)
    ∷ ("Vedmak", cruiser)
    ∷ ("Zarmazd", support)
    ∷ ("Rodiva", support)
    ∷ ("Pontifex", destroyer)
    ∷ ("Stork", destroyer)
    ∷ ("Magus", destroyer)
    ∷ ("Bifrost", destroyer)
    ∷ ("Coercer", destroyer)
    ∷ ("Dragoon", destroyer)
    ∷ ("Catalyst", destroyer)
    ∷ ("Algos", destroyer)
    ∷ ("Cormorant", destroyer)
    ∷ ("Corax", destroyer)
    ∷ ("Thrasher", destroyer)
    ∷ ("Talwar", destroyer)
    ∷ ("Coercer Navy Issue", destroyer)
    ∷ ("Catalyst Navy Issue", destroyer)
    ∷ ("Cormorant Navy Issue", destroyer)
    ∷ ("Thrasher Fleet Issue", destroyer)
    ∷ ("Kikimora", destroyer)
    ∷ ("Retribution", frigate)
    ∷ ("Vengeance", frigate)
    ∷ ("Enyo", frigate)
    ∷ ("Ishkur", frigate)
    ∷ ("Hawk", frigate)
    ∷ ("Harpy", frigate)
    ∷ ("Wolf", frigate)
    ∷ ("Jaguar", frigate)
    ∷ ("Daredevil", frigate)
    ∷ ("Dramiel", frigate)
    ∷ ("Cruor", frigate)
    ∷ ("Succubus", frigate)
    ∷ ("Worm", frigate)
    ∷ ("Imperial Navy Slicer", frigate)
    ∷ ("Caldari Navy Hookbill", frigate)
    ∷ ("Republic Fleet Firetail", frigate)
    ∷ ("Federation Navy Comet", frigate)
    ∷ ("Pacifier", frigate)
    ∷ ("Enforcer", frigate)
    ∷ ("Punisher", frigate)
    ∷ ("Executioner", frigate)
    ∷ ("Inquisitor", frigate)
    ∷ ("Tormentor", frigate)
    ∷ ("Incursus", frigate)
    ∷ ("Atron", frigate)
    ∷ ("Navitas", frigate)
    ∷ ("Tristan", frigate)
    ∷ ("Kestrel", frigate)
    ∷ ("Merlin", frigate)
    ∷ ("Bantam", frigate)
    ∷ ("Heron", frigate)
    ∷ ("Rifter", frigate)
    ∷ ("Breacher", frigate)
    ∷ ("Slasher", frigate)
    ∷ ("Reaper", frigate)
    ∷ ("Ibis", frigate)
    ∷ ("Velator", frigate)
    ∷ ("Impairor", frigate)
    ∷ ("Venture", frigate)
    ∷ ("Endurance", frigate)
    ∷ ("Procurer", cruiser)
    ∷ ("Retriever", cruiser)
    ∷ ("Covetor", cruiser)
    ∷ ("Skiff", cruiser)
    ∷ ("Mackinaw", cruiser)
    ∷ ("Hulk", cruiser)
    ∷ ("Orca", capital)
    ∷ ("Rorqual", capital)
    ∷ ("Enormous Freight Container", probe)
    ∷ ("Large Freight Container", probe)
    ∷ ("Medium Freight Container", probe)
    ∷ ("Small Freight Container", probe)
    ∷ ("Giant Freight Container", probe)
    ∷ ("Huge Freight Container", probe)
    ∷ ("Secure Container", probe)
    ∷ ("Station Container", probe)
    ∷ ("Mercenary Den", probe)
    ∷ ("Outpost Platform", probe)
    ∷ []
