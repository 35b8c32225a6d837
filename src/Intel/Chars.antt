-- ===== src/Intel/Chars.antt =====
-- IntelChannelParser.jsx, lookupChars and analyzeChars: what is asked about the pilots of a paste.
-- `Risk` is what /api/chars/analyze says of a pilot.
use lawn_eve_intel_dashboard.Common.{
  String, Bool, true, false, not, ◌&&◌, Option, none, some, List, [], ◌∷◌, map, first_some, filter,
}
use lawn_eve_intel_dashboard.Common.Text.{Text, is_nil}
use lawn_eve_intel_dashboard.Intel.{Char}
use lawn_eve_intel_dashboard.Intel.Lookup.{get_key, set_key}

pub record CharInfo : Type 0 where
  pub char_id : Option Text
  pub standing : Option String
  pub corp : Option String
  pub alliance : Option String

abbrev pub Infos : Type 0
Infos = List (Text × CharInfo)

-- `key in object`.
abbrev pub is_some : {V : Type 0} → Option V → Bool
is_some none = false
is_some (some v) = true

unfoldable pub is_asked : {V : Type 0} → List (Text × V) → Text → Bool
unfolding get_key
is_asked m k = is_some (get_key k m)

-- `toFetch` of lookupChars.
unfoldable pub to_fetch : Infos → List Char → List Char
unfolding is_asked
to_fetch m = filter (λ c. not (is_asked m c.name))

-- What stands for a name while it is asked for.
unfoldable pub mark : List Char → Infos → Infos
unfolding set_key
mark [] m = m
mark (c ∷ cs) m = mark cs (
    set_key c.name
      (record { char_id = some c.char_id; standing = none; corp = none; alliance = none }) m)

-- A row of the response. An id that is 0 or missing is `none`.
pub record Scanned : Type 0 where
  pub name : Text
  pub character_id : Option Text
  pub standing : Option String
  pub corporation_name : Option String
  pub alliance_name : Option String

abbrev pub id_of : Option CharInfo → Option Text
id_of none = none
id_of (some i) = i.char_id

unfoldable pub fill : List Scanned → Infos → Infos
unfolding get_key set_key
fill [] m = m
fill (r ∷ rs) m = fill rs (
    set_key r.name
      (record {
        char_id = first_some r.character_id (id_of (get_key r.name m));
        standing = r.standing;
        corp = r.corporation_name;
        alliance = r.alliance_name;
      })
      m)

-- How a request ends: by an exception or an error status, or with a body.
pub data LookupReply (A : Type 0) : Type 0 where
  failed : LookupReply A
  rows : A → LookupReply A

unfoldable pub settle_lookup : LookupReply (List Scanned) → Infos → Infos
unfolding fill
settle_lookup LookupReply.failed m = m
settle_lookup (LookupReply.rows rs) m = fill rs m

-- The names of the request, where there is one.
abbrev pub names_to_ask : Infos → List Char → List Text
names_to_ask m cs = map (λ c. c.name) (to_fetch m cs)

abbrev pub ask : List Char → LookupReply (List Scanned) → Infos → Infos
ask [] reply m = m
ask (c ∷ cs) reply m = settle_lookup reply (mark (c ∷ cs) m)

-- `lookupChars`, with the reply to its request.
unfoldable pub lookup_chars : List Char → LookupReply (List Scanned) → Infos → Infos
unfolding to_fetch mark settle_lookup
lookup_chars cs reply m = ask (to_fetch m cs) reply m

module _ {Risk : Type 0} where
  -- `toFetch` of analyzeChars.
  unfoldable pub to_analyze : List (Text × Option Risk) → List Char → List Char
  unfolding is_asked
  to_analyze m = filter (λ c. not (is_nil c.char_id) && not (is_asked m c.char_id))

  unfoldable pub mark_risks : List Char → List (Text × Option Risk) → List (Text × Option Risk)
  unfolding set_key
  mark_risks [] m = m
  mark_risks (c ∷ cs) m = mark_risks cs (set_key c.char_id none m)

  -- `Object.assign`.
  unfoldable pub assign_risks :
      List (Text × Risk) → List (Text × Option Risk) → List (Text × Option Risk)
  unfolding set_key
  assign_risks [] m = m
  assign_risks (r ∷ rs) m = assign_risks rs (set_key r.0 (some r.1) m)

  unfoldable pub settle_risks :
      LookupReply (List (Text × Risk)) → List (Text × Option Risk) → List (Text × Option Risk)
  unfolding assign_risks
  settle_risks LookupReply.failed m = m
  settle_risks (LookupReply.rows rs) m = assign_risks rs m

  abbrev pub analyze :
      List Char
      → LookupReply (List (Text × Risk))
      → List (Text × Option Risk)
      → List (Text × Option Risk)
  analyze [] reply m = m
  analyze (c ∷ cs) reply m = settle_risks reply (mark_risks (c ∷ cs) m)

  -- `analyzeChars`, with the reply to its request.
  unfoldable pub analyze_chars :
      List Char
      → LookupReply (List (Text × Risk))
      → List (Text × Option Risk)
      → List (Text × Option Risk)
  unfolding to_analyze mark_risks settle_risks
  analyze_chars cs reply m = analyze (to_analyze m cs) reply m
