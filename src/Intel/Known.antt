-- ===== src/Intel/Known.antt =====
-- IntelChannelParser.jsx, handlePaste: which systems the board and the alerts are about.
use lawn_eve_intel_dashboard.Common.{
  ℕ, String, ◌≡◌, refl, ◌⊎◌, inl, inr, Bool, not, ◌&&◌, Option, none, some, List, [], ◌∷◌, flat_map,
  str_eq, Bool-cases, first_some, filter, All, All-append,
}
use lawn_eve_intel_dashboard.Common.Text.{Text, text_eq, is_nil, trim}
use lawn_eve_intel_dashboard.Intel.Links.{strip_eve_links, extract_linked_chars}
use lawn_eve_intel_dashboard.Common.Named.{named, put_named}
use lawn_eve_intel_dashboard.Config.Sets.{has}
use lawn_eve_intel_dashboard.Intel.{
  Char, Report, Board, fire, is_alarming, supersedes, apply_entry, apply_entries, key_of,
  same_alert,
}
use lawn_eve_intel_dashboard.Intel.Lookup.{
  Info, SystemMap, get_key, sole, meaning, first_meaning, find_system, find_system-first_meaning,
  words_of, clean_word,
}
use lawn_eve_intel_dashboard.Intel.Messages.{
  Line, line_of, report_of, report_line, parse_line, parse_intel_text,
}
use lawn_eve_intel_dashboard.Intel.Copy.{Panel, handle_paste}

-- The map has the entry.
pub Listed : Info → SystemMap → Type 0
Listed i [] = ⊥
Listed i (e ∷ m) = (e.1 ≡ i) ⊎ Listed i m

-- The report is about a system of the map, with its id, and primary exactly if the map says so.
pub record IsKnown (m : SystemMap) (r : Report) : Type 0 where
  pub info : Info
  pub entry : Listed info m
  pub named_so : r.system ≡ info.name
  pub id_so : r.system_id ≡ info.system_id
  pub primary_so : r.is_primary ≡ info.is_primary

first_some-either :
    {A : Type 0} (x y : Option A) (a : A) → first_some x y ≡ some a → (x ≡ some a) ⊎ (y ≡ some a)
first_some-either none y a h = inr h
first_some-either (some b) y a h = inl h

get_key-Listed : (k : Text) (m : SystemMap) (i : Info) → get_key k m ≡ some i → Listed i m
unfolding get_key Listed
get_key-Listed k [] i h = cc
get_key-Listed k (e ∷ m) i h = elim (Bool-cases (text_eq e.0 k)) [
  | inl hit ↦ inl (some_injective (let g : some e.1 ≡ some i = rw (← h, hit) refl in g))
  | inr miss ↦ inr (get_key-Listed k m i (rw (← h, miss) refl))
]
  where
    some_injective : {a b : Info} → some a ≡ some b → a ≡ b
    some_injective h = cc

sole-Listed :
    (p : Text × Info → Bool) (m : SystemMap) (i : Info) → sole (filter p m) ≡ some i → Listed i m
unfolding Listed
sole-Listed p [] i h = cc
sole-Listed p (e ∷ m) i h = elim (Bool-cases (p e)) [
  | inl hit ↦ inl (sole_first e (filter p m) i (rw (← h, hit) refl))
  | inr miss ↦ inr (sole-Listed p m i (rw (← h, miss) refl))
]
  where
    sole_first :
        (d : Text × Info) (rest : List (Text × Info)) (j : Info)
        → sole (d ∷ rest) ≡ some j
        → d.1 ≡ j
    sole_first d [] j g = cc
    sole_first d (c ∷ rest) j g = cc

meaning-Listed : (m : SystemMap) (w : Text) (i : Info) → meaning m w ≡ some i → Listed i m
meaning-Listed m [] i h = cc
meaning-Listed m (c ∷ w) i h = elim (first_some-either (get_key (c ∷ w) m) _ i h) [
  | inl exact ↦ get_key-Listed (c ∷ w) m i exact
  | inr prefix ↦ sole-Listed _ m i prefix
]

first_meaning-Listed :
    (m : SystemMap) (ws : List Text) (i : Info) → first_meaning m ws ≡ some i → Listed i m
unfolding first_meaning
first_meaning-Listed m [] i h = cc
first_meaning-Listed m (w ∷ ws) i h =
    elim (first_some-either (meaning m (clean_word w)) (first_meaning m ws) i h) [
      | inl now ↦ meaning-Listed m (clean_word w) i now
      | inr later ↦ first_meaning-Listed m ws i later
    ]

find_system-Listed :
    (m : SystemMap) (message : Text) (i : Info) → find_system m message ≡ some i → Listed i m
find_system-Listed m message i h =
    first_meaning-Listed m (words_of message) i (rw (← h, find_system-first_meaning m message) refl)

report_of-IsKnown :
    (m : SystemMap) (chars : List Char) (line : Line) (o : Option Info)
    → ((i : Info) → o ≡ some i → Listed i m)
    → All (IsKnown m) (report_of chars line o)
report_of-IsKnown m chars line none h = tt
report_of-IsKnown m chars line (some i) h =
    (record { info = i; entry = h i refl; named_so = refl; id_so = refl; primary_so = refl }, tt)

report_line-IsKnown :
    (m : SystemMap) (now : ℕ) (chars : List Char) (line : Text)
    → All (IsKnown m) (report_line m now chars line)
report_line-IsKnown m now chars [] = tt
report_line-IsKnown m now chars (c ∷ s) =
    report_of-IsKnown m chars (line_of now (c ∷ s)) _
      (λ i h. find_system-Listed m (line_of now (c ∷ s)).message i h)

All-flat_map :
    {A B : Type 0} (P : B → Type 0) (f : A → List B) (xs : List A)
    → ((x : A) → All P (f x))
    → All P (flat_map f xs)
unfolding mathlib.Core.List.flat_map
All-flat_map P f [] h = tt
All-flat_map P f (x ∷ xs) h = All-append P (f x) (flat_map f xs) (h x) (All-flat_map P f xs h)

parse_intel_text-IsKnown :
    (text : Text) (m : SystemMap) (now : ℕ) → All (IsKnown m) (parse_intel_text text m now)
unfolding parse_intel_text
parse_intel_text-IsKnown text m now =
    All-flat_map (IsKnown m) (parse_line m now) _
      (λ l. report_line-IsKnown m now (extract_linked_chars l) (trim (strip_eve_links l)))

put_named-IsKnown :
    (m : SystemMap) (e : Report) (name : String) (b : List (String × Report))
    → IsKnown m e
    → All (λ r. IsKnown m r.1) b
    → All (λ r. IsKnown m r.1) (put_named name e b)
unfolding put_named
put_named-IsKnown m e name [] k h = (k, tt)
put_named-IsKnown m e name (d ∷ ds) k h = elim (Bool-cases (str_eq d.0 name)) [
  | inl same ↦ rw same (k, h.1)
  | inr apart ↦ rw apart (h.0, put_named-IsKnown m e name ds k h.1)
]

-- All that the board shows, and all that was alerted, is about systems of the map.
pub record IsAbout (m : SystemMap) (b : Board) : Type 0 where
  pub shown : All (λ r. IsKnown m r.1) b.board
  pub alerted : All (IsKnown m) b.fired

fire-IsAbout :
    (m : SystemMap) (borders : List Text) (e : Report) (b : Board)
    → IsKnown m e
    → IsAbout m b
    → IsAbout m (fire borders e b)
unfolding fire
fire-IsAbout m borders e b k h =
    elim (Bool-cases (is_alarming borders e && not (has same_alert (key_of e) b.notified))) [
      | inl new ↦ rw new (record { shown = h.shown; alerted = (k, h.alerted) })
      | inr old ↦ rw old h
    ]

apply_entry-IsAbout :
    (m : SystemMap) (borders : List Text) (e : Report) (b : Board)
    → IsKnown m e
    → IsAbout m b
    → IsAbout m (apply_entry borders e b)
unfolding apply_entry
apply_entry-IsAbout m borders e b k h = elim (Bool-cases (supersedes e (named e.system b.board))) [
  | inl newer ↦ rw newer (
      fire-IsAbout m borders e (record b { board = put_named e.system e b.board }) k
        (record { shown = put_named-IsKnown m e e.system b.board k h.shown; alerted = h.alerted }))
  | inr older ↦ rw older h
]

apply_entries-IsAbout :
    (m : SystemMap) (borders : List Text) (es : List Report) (b : Board)
    → All (IsKnown m) es
    → IsAbout m b
    → IsAbout m (apply_entries borders es b)
unfolding apply_entries
apply_entries-IsAbout m borders [] b k h = h
apply_entries-IsAbout m borders (e ∷ es) b k h =
    apply_entries-IsAbout m borders es (apply_entry borders e b) k.1
      (apply_entry-IsAbout m borders e b k.0 h)

-- Whatever is pasted: if all that the board shows and all that was alerted is about systems of the
-- map, with their ids and as primary as the map says, then it is so after the paste.
pub handle_paste-IsAbout :
    (m : SystemMap) (borders : List Text) (now : ℕ) (text : Text) (p : Panel)
    → IsAbout m p.state
    → IsAbout m (handle_paste borders m now text p).state
unfolding handle_paste
handle_paste-IsAbout m borders now text p h = elim (Bool-cases (is_nil (trim text))) [
  | inl blank ↦ rw blank h
  | inr filled ↦ rw filled (
      apply_entries-IsAbout m borders (parse_intel_text text m now) p.state
        (parse_intel_text-IsKnown text m now) h)
]
