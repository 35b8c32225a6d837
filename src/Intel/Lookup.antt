-- ===== src/Intel/Lookup.antt =====
-- IntelChannelParser.jsx, buildSystemLookup and findSystem: the system that a message is about.
use lawn_eve_intel_dashboard.Common.{
  ℕ, String, ◌≡◌, refl, ap, inl, inr, Bool, false, ◌&&◌, ◌||◌, Option, none, some, List, [], ◌∷◌,
  ◌++◌, map, leb, ◌==◌, if◌then◌else◌, Bool-cases, first_some, filter,
}
use lawn_eve_intel_dashboard.Common.Text.{
  Text, codes, is_digit, is_space, lower, text_eq, starts_with, cons_first,
}
use lawn_eve_intel_dashboard.Config.{Constellation, System, or_nil, is_primary_constellation}

pub record Info : Type 0 where
  pub name : String
  pub is_primary : Bool
  pub system_id : Option ℕ

-- The map from names in lower case.
abbrev pub SystemMap : Type 0
SystemMap = List (Text × Info)

-- `map.get(k)` and `map.set(k, i)`.
unfoldable pub get_key : {V : Type 0} → Text → List (Text × V) → Option V
get_key k [] = none
get_key k (e ∷ m) = if text_eq e.0 k then some e.1 else get_key k m

unfoldable pub set_key : {V : Type 0} → Text → V → List (Text × V) → List (Text × V)
set_key k i [] = (k, i) ∷ []
set_key k i (e ∷ m) = if text_eq e.0 k then (k, i) ∷ m else e ∷ set_key k i m

abbrev pub lower_name : String → Text
lower_name s = map lower (codes s)

abbrev pub add_systems : Bool → List System → SystemMap → SystemMap
add_systems primary [] m = m
add_systems primary (s ∷ ss) m = add_systems primary ss (
    set_key (lower_name s.name)
      (record { name = s.name; is_primary = primary; system_id = some s.system_id }) m)

pub add_constellations : List (ℕ × Constellation) → SystemMap → SystemMap
unfolding set_key is_primary_constellation
add_constellations [] m = m
add_constellations (c ∷ cs) m =
    add_constellations cs (add_systems (is_primary_constellation c.1) (or_nil c.1.systems) m)

-- The names of `neighbor_systems`.
pub add_neighbors : List String → SystemMap → SystemMap
unfolding set_key
add_neighbors [] m = m
add_neighbors (s ∷ ss) m =
    add_neighbors ss
      (set_key (lower_name s) (record { name = s; is_primary = false; system_id = none }) m)

-- `buildSystemLookup`: without constellations it is empty.
unfoldable pub build_system_lookup : Option (List (ℕ × Constellation)) → List String → SystemMap
unfolding add_constellations add_neighbors
build_system_lookup none neighbors = []
build_system_lookup (some table) neighbors = add_neighbors neighbors (add_constellations table [])

-- `message.split(/\s+/)`.
unfoldable pub words_of : Text → List Text
words_of [] = [] ∷ []
words_of (c ∷ s) =
    let rest = words_of s in if is_space c then [] ∷ drop_blank s rest else cons_first c rest
  where
    drop_blank : Text → List Text → List Text
    drop_blank [] ws = ws
    drop_blank (d ∷ t) [] = []
    drop_blank (d ∷ t) (w ∷ ws) = if is_space d then ws else w ∷ ws

-- A letter, a digit or a hyphen.
abbrev pub is_name_code : ℕ → Bool
is_name_code c = is_digit c || c == b'-' || (leb b'a' c && leb c b'z') || (leb b'A' c && leb c b'Z')

unfoldable pub strip_front : Text → Text
strip_front [] = []
strip_front (c ∷ s) = if is_name_code c then c ∷ s else strip_front s

unfoldable pub strip_back : Text → Text
strip_back [] = []
strip_back (c ∷ s) = keep (strip_back s)
  where
    keep : Text → Text
    keep [] = if is_name_code c then c ∷ [] else []
    keep (d ∷ t) = c ∷ d ∷ t

-- `tok.replace(/^[^a-zA-Z0-9-]+|[^a-zA-Z0-9-]+$/g, '').toLowerCase()`.
unfoldable pub clean_word : Text → Text
unfolding strip_front strip_back
clean_word w = map lower (strip_back (strip_front w))

-- The loop over the map: the only entry whose key starts with the prefix.
unfoldable pub sole_prefix : Text → SystemMap → Option Info → Option Info
unfolding starts_with
sole_prefix prefix [] found = found
sole_prefix prefix (e ∷ m) none =
    sole_prefix prefix m (if starts_with e.0 prefix then some e.1 else none)
sole_prefix prefix (e ∷ m) (some i) =
    let rest = sole_prefix prefix m (some i) in if starts_with e.0 prefix then none else rest

unfoldable pub find_word : SystemMap → Text → Option Info
unfolding get_key sole_prefix
find_word m [] = none
find_word m (c ∷ w) = first_some (get_key (c ∷ w) m) (sole_prefix ((c ∷ w) ++ (b'-' ∷ [])) m none)

unfoldable pub find_in : SystemMap → List Text → Option Info
unfolding find_word clean_word
find_in m [] = none
find_in m (w ∷ ws) = first_some (find_word m (clean_word w)) (find_in m ws)

-- `findSystem`.
unfoldable pub find_system : SystemMap → Text → Option Info
unfolding find_in words_of
find_system m message = find_in m (words_of message)

-- The one element of a list that has no other.
abbrev pub sole : List (Text × Info) → Option Info
sole [] = none
sole (e ∷ []) = some e.1
sole (e ∷ d ∷ m) = none

-- What a word stands for: the system of that name, or the only one whose name goes on with a
-- hyphen after it.
abbrev pub meaning : SystemMap → Text → Option Info
meaning m [] = none
meaning m (c ∷ w) =
    first_some (get_key (c ∷ w) m) (sole (filter (λ e. starts_with e.0 ((c ∷ w) ++ (b'-' ∷ []))) m))

-- The meaning of the first word that has one.
unfoldable pub first_meaning : SystemMap → List Text → Option Info
first_meaning m [] = none
first_meaning m (w ∷ ws) = first_some (meaning m (clean_word w)) (first_meaning m ws)

sole_prefix-found :
    (p : Text) (m : SystemMap) (e : Text × Info)
    → sole_prefix p m (some e.1) ≡ sole (e ∷ filter (λ d. starts_with d.0 p) m)
unfolding sole_prefix
sole_prefix-found p [] e = refl
sole_prefix-found p (d ∷ m) e = elim (Bool-cases (starts_with d.0 p)) [
  | inl hit ↦ rw hit refl
  | inr miss ↦ rw miss (sole_prefix-found p m e)
]

sole_prefix-sole :
    (p : Text) (m : SystemMap) → sole_prefix p m none ≡ sole (filter (λ d. starts_with d.0 p) m)
unfolding sole_prefix
sole_prefix-sole p [] = refl
sole_prefix-sole p (d ∷ m) = elim (Bool-cases (starts_with d.0 p)) [
  | inl hit ↦ rw hit (sole_prefix-found p m d)
  | inr miss ↦ rw miss (sole_prefix-sole p m)
]

find_word-meaning : (m : SystemMap) (w : Text) → find_word m w ≡ meaning m w
unfolding find_word
find_word-meaning m [] = refl
find_word-meaning m (c ∷ w) =
    ap (first_some (get_key (c ∷ w) m)) (sole_prefix-sole ((c ∷ w) ++ (b'-' ∷ [])) m)

find_in-first_meaning : (m : SystemMap) (ws : List Text) → find_in m ws ≡ first_meaning m ws
unfolding find_in first_meaning
find_in-first_meaning m [] = refl
find_in-first_meaning m (w ∷ ws) =
    rw (find_word-meaning m (clean_word w), find_in-first_meaning m ws) refl

-- A message is about the first of its words that means a system: that is a system's name, or the
-- part before a hyphen of exactly one system's name. A word that begins several names means none.
pub find_system-first_meaning :
    (m : SystemMap) (message : Text) → find_system m message ≡ first_meaning m (words_of message)
unfolding find_system
find_system-first_meaning m message = find_in-first_meaning m (words_of message)
