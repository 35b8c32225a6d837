-- ===== src/Dscan/Hulls.antt =====
-- frontend/src/components/DscanParser.jsx, GROUP_CATEGORIES: a part of the table of names.
use lawn_eve_intel_dashboard.Common.{String, List, [], ◌∷◌}
use lawn_eve_intel_dashboard.Dscan.Categories.{
  Category, battlecruiser, battleship, bomber, capital, covops, doctrine, ewar, recon, super,
  support, tackle,
}

-- The hulls, from titans to covert ops.
unfoldable pub hulls : List (String × Category)
hulls =
    ("Avatar", super)
    ∷ ("Erebus", super)
    ∷ ("Ragnarok", super)
    ∷ ("Leviathan", super)
    ∷ ("Vanquisher", super)
    ∷ ("Komodo", super)
    ∷ ("Molok", super)
    ∷ ("Azariel", super)
    ∷ ("Aeon", super)
    ∷ ("Nyx", super)
    ∷ ("Hel", super)
    ∷ ("Wyvern", super)
    ∷ ("Vendetta", super)
    ∷ ("Revenant", super)
    ∷ ("Vehement", super)
    ∷ ("Revelation", capital)
    ∷ ("Naglfar", capital)
    ∷ ("Moros", capital)
    ∷ ("Phoenix", capital)
    ∷ ("Zirnitra", capital)
    ∷ ("Revelation Navy Issue", capital)
    ∷ ("Phoenix Navy Issue", capital)
    ∷ ("Archon", capital)
    ∷ ("Thanatos", capital)
    ∷ ("Chimera", capital)
    ∷ ("Nidhoggur", capital)
    ∷ ("Apostle", capital)
    ∷ ("Lif", capital)
    ∷ ("Ninazu", capital)
    ∷ ("Minokawa", capital)
    ∷ ("Sin", capital)
    ∷ ("Widow", capital)
    ∷ ("Panther", capital)
    ∷ ("Redeemer", capital)
    ∷ ("Paladin", battleship)
    ∷ ("Kronos", battleship)
    ∷ ("Golem", battleship)
    ∷ ("Vargur", battleship)
    ∷ ("Armageddon", battleship)
    ∷ ("Apocalypse", battleship)
    ∷ ("Abaddon", battleship)
    ∷ ("Dominix", battleship)
    ∷ ("Megathron", battleship)
    ∷ ("Hyperion", battleship)
    ∷ ("Raven", battleship)
    ∷ ("Rokh", battleship)
    ∷ ("Scorpion", battleship)
    ∷ ("Maelstrom", battleship)
    ∷ ("Typhoon", battleship)
    ∷ ("Tempest", battleship)
    ∷ ("Apocalypse Navy Issue", battleship)
    ∷ ("Armageddon Navy Issue", battleship)
    ∷ ("Megathron Navy Issue", battleship)
    ∷ ("Dominix Navy Issue", battleship)
    ∷ ("Raven Navy Issue", battleship)
    ∷ ("Scorpion Navy Issue", battleship)
    ∷ ("Typhoon Fleet Issue", battleship)
    ∷ ("Tempest Fleet Issue", battleship)
    ∷ ("Bhaalgorn", battleship)
    ∷ ("Vindicator", battleship)
    ∷ ("Nightmare", battleship)
    ∷ ("Machariel", battleship)
    ∷ ("Leshak", battleship)
    ∷ ("Barghest", battleship)
    ∷ ("Rattlesnake", battleship)
    ∷ ("Nestor", battleship)
    ∷ ("Praxis", battleship)
    ∷ ("Drekavac", battleship)
    ∷ ("Caiman", battleship)
    ∷ ("Chemosh", battleship)
    ∷ ("Absolution", battlecruiser)
    ∷ ("Damnation", battlecruiser)
    ∷ ("Astarte", battlecruiser)
    ∷ ("Eos", battlecruiser)
    ∷ ("Nighthawk", battlecruiser)
    ∷ ("Vulture", battlecruiser)
    ∷ ("Sleipnir", battlecruiser)
    ∷ ("Claymore", battlecruiser)
    ∷ ("Naga", battlecruiser)
    ∷ ("Oracle", battlecruiser)
    ∷ ("Tornado", battlecruiser)
    ∷ ("Talos", battlecruiser)
    ∷ ("Prophecy", battlecruiser)
    ∷ ("Harbinger", battlecruiser)
    ∷ ("Drake", battlecruiser)
    ∷ ("Ferox", battlecruiser)
    ∷ ("Cyclone", battlecruiser)
    ∷ ("Hurricane", battlecruiser)
    ∷ ("Brutix", battlecruiser)
    ∷ ("Myrmidon", battlecruiser)
    ∷ ("Harbinger Navy Issue", battlecruiser)
    ∷ ("Drake Navy Issue", battlecruiser)
    ∷ ("Hurricane Fleet Issue", battlecruiser)
    ∷ ("Brutix Navy Issue", battlecruiser)
    ∷ ("Legion", doctrine)
    ∷ ("Tengu", doctrine)
    ∷ ("Proteus", doctrine)
    ∷ ("Loki", doctrine)
    ∷ ("Sacrilege", doctrine)
    ∷ ("Zealot", doctrine)
    ∷ ("Cerberus", doctrine)
    ∷ ("Eagle", doctrine)
    ∷ ("Muninn", doctrine)
    ∷ ("Vagabond", doctrine)
    ∷ ("Deimos", doctrine)
    ∷ ("Ishtar", doctrine)
    ∷ ("Pilgrim", recon)
    ∷ ("Arazu", recon)
    ∷ ("Falcon", recon)
    ∷ ("Rapier", recon)
    ∷ ("Curse", recon)
    ∷ ("Lachesis", recon)
    ∷ ("Rook", recon)
    ∷ ("Huginn", recon)
    ∷ ("Guardian", support)
    ∷ ("Oneiros", support)
    ∷ ("Basilisk", support)
    ∷ ("Scimitar", support)
    ∷ ("Deacon", support)
    ∷ ("Thalia", support)
    ∷ ("Kirin", support)
    ∷ ("Scalpel", support)
    ∷ ("Malediction", tackle)
    ∷ ("Crusader", tackle)
    ∷ ("Stiletto", tackle)
    ∷ ("Crow", tackle)
    ∷ ("Raptor", tackle)
    ∷ ("Claw", tackle)
    ∷ ("Ares", tackle)
    ∷ ("Taranis", tackle)
    ∷ ("Heretic", tackle)
    ∷ ("Flycatcher", tackle)
    ∷ ("Eris", tackle)
    ∷ ("Sabre", tackle)
    ∷ ("Devoter", tackle)
    ∷ ("Broadsword", tackle)
    ∷ ("Phobos", tackle)
    ∷ ("Onyx", tackle)
    ∷ ("Sentinel", ewar)
    ∷ ("Kitsune", ewar)
    ∷ ("Keres", ewar)
    ∷ ("Hyena", ewar)
    ∷ ("Purifier", bomber)
    ∷ ("Hound", bomber)
    ∷ ("Manticore", bomber)
    ∷ ("Nemesis", bomber)
    ∷ ("Anathema", covops)
    ∷ ("Buzzard", covops)
    ∷ ("Helios", covops)
    ∷ ("Cheetah", covops)
    ∷ ("Astero", covops)
    ∷ ("Stratios", covops)
    ∷ []
