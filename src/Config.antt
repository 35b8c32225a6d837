-- ===== src/Config.antt =====
-- What the pages read of /api/config. Keys that JSON spells as decimal texts are numbers here.
pub mod Sets
use lawn_eve_intel_dashboard.Common.{
  ℕ, String, Bool, false, Option, none, some, List, [], ◌∷◌, ◌==◌, if◌then◌else◌, or_else,
  first_some,
}
use lawn_eve_intel_dashboard.Common.Int.{ℤ}

pub record System : Type 0 where
  pub system_id : ℕ
  pub name : String

-- A missing or empty name is `none`, and so are missing systems.
pub record Constellation : Type 0 where
  pub name : Option String
  pub systems : Option (List System)
  pub is_primary : Option Bool
  pub is_lawn : Option Bool

-- Where a map layout puts a system.
pub record MapPos : Type 0 where
  pub x : ℤ
  pub y : ℤ
  pub constellation : String
  pub lawn : Bool
  pub note : Option String

pub record Connection : Type 0 where
  pub from : String
  pub to : String
  pub kind : String

abbrev pub Layout : Type 0
Layout = List (String × MapPos)

pub record Config : Type 0 where
  pub constellations : Option (List (ℕ × Constellation))
  pub map_layout : Option Layout
  pub map_layout_subway : Option Layout
  pub map_connections : Option (List Connection)
  pub alliance_short : Option String
  pub holds_sov : Option Bool

-- `xs || []`.
abbrev pub or_nil {ℓ} : {A : Type ℓ} → Option (List A) → List A
or_nil xs = or_else xs []

-- `constellations[String(id)]`.
unfoldable pub constellation_at : ℕ → List (ℕ × Constellation) → Option Constellation
constellation_at k [] = none
constellation_at k ((j, c) ∷ cs) = if j == k then some c else constellation_at k cs

-- `c.is_primary ?? c.is_lawn`, as a test.
unfoldable pub is_primary_constellation : Constellation → Bool
is_primary_constellation c = or_else (first_some c.is_primary c.is_lawn) false
