-- ===== src/Intel/Asked.antt =====
-- IntelChannelParser.jsx, lookupChars: what is asked again of pilots that were pasted before.
use lawn_eve_intel_dashboard.Common.{
  ◌≡◌, refl, inl, inr, true, not, ◌||◌, List, [], ◌∷◌, ◌++◌, append_assoc, arith, Bool-cases,
  filter, any,
}
use lawn_eve_intel_dashboard.Common.Text.{Text, text_eq, text_eq→eq, text_eq_refl}
use mathlib.Core.Path.{subst}
use lawn_eve_intel_dashboard.Intel.{Char}
use lawn_eve_intel_dashboard.Intel.Lookup.{get_key, set_key}
use lawn_eve_intel_dashboard.Intel.Chars.{
  Infos, is_asked, to_fetch, mark, Scanned, fill, LookupReply, settle_lookup, ask, lookup_chars,
}

is_asked-set_key :
    {V : Type 0} (j k : Text) (v : V) (m : List (Text × V))
    → is_asked m k ≡ true
    → is_asked (set_key j v m) k ≡ true
unfolding is_asked set_key get_key
is_asked-set_key j k v [] h = cc
is_asked-set_key j k v (e ∷ m) h = elim (Bool-cases (text_eq e.0 j)) [
  | inl same ↦
      rw (same, ← text_eq→eq e.0 j same)
        (elim (Bool-cases (text_eq e.0 k)) [ inl hit ↦ rw hit refl | inr miss ↦ ground arith ])
  | inr other ↦ ground (arith, is_asked-set_key j k v m)
]

is_asked-set_key_self :
    {V : Type 0} (k : Text) (v : V) (m : List (Text × V)) → is_asked (set_key k v m) k ≡ true
unfolding is_asked set_key get_key
is_asked-set_key_self k v [] = rw text_eq_refl refl
is_asked-set_key_self k v (e ∷ m) = elim (Bool-cases (text_eq e.0 k)) [
  | inl same ↦ rw (same, text_eq_refl) refl
  | inr other ↦ rw (other, other) (is_asked-set_key_self k v m)
]

is_asked-mark :
    (k : Text) (cs : List Char) (m : Infos) → is_asked m k ≡ true → is_asked (mark cs m) k ≡ true
unfolding mark
is_asked-mark k [] m h = h
is_asked-mark k (c ∷ cs) m h = is_asked-mark k cs _ (is_asked-set_key c.name k _ m h)

is_asked-fill :
    (k : Text) (rs : List Scanned) (m : Infos) → is_asked m k ≡ true → is_asked (fill rs m) k ≡ true
unfolding fill
is_asked-fill k [] m h = h
is_asked-fill k (r ∷ rs) m h = is_asked-fill k rs _ (is_asked-set_key r.name k _ m h)

is_asked-settle_lookup :
    (k : Text) (reply : LookupReply (List Scanned)) (m : Infos)
    → is_asked m k ≡ true
    → is_asked (settle_lookup reply m) k ≡ true
unfolding settle_lookup
is_asked-settle_lookup k LookupReply.failed m h = h
is_asked-settle_lookup k (LookupReply.rows rs) m h = is_asked-fill k rs m h

is_asked-mark_self :
    (k : Text) (cs : List Char) (m : Infos)
    → any (λ c. text_eq c.name k) cs ≡ true
    → is_asked (mark cs m) k ≡ true
unfolding mark
is_asked-mark_self k [] m h = cc
is_asked-mark_self k (c ∷ cs) m h = elim (Bool-cases (text_eq c.name k)) [
  | inl same ↦ is_asked-mark k cs _ (rw (text_eq→eq c.name k same) (is_asked-set_key_self k _ m))
  | inr other ↦ is_asked-mark_self k cs _ (rw (← h, other) refl)
]

is_asked-ask :
    (k : Text) (cs : List Char) (reply : LookupReply (List Scanned)) (m : Infos)
    → (any (λ c. text_eq c.name k) cs || is_asked m k) ≡ true
    → is_asked (ask cs reply m) k ≡ true
is_asked-ask k [] reply m h = h
is_asked-ask k (c ∷ cs) reply m h =
    is_asked-settle_lookup k reply (mark (c ∷ cs) m) (elim (Bool-cases (is_asked m k)) [
      | inl old ↦ is_asked-mark k (c ∷ cs) m old
      | inr new ↦ is_asked-mark_self k (c ∷ cs) m (ground arith)
    ])

-- A pilot of the list is is_asked or is asked for.
covered :
    (m : Infos) (c : Char) (cs ds : List Char)
    → (any (λ d. text_eq d.name c.name) (to_fetch m (cs ++ (c ∷ ds))) || is_asked m c.name) ≡ true
unfolding to_fetch
covered m c [] ds = elim (Bool-cases (is_asked m c.name)) [
  | inl old ↦ rw old (ground arith)
  | inr new ↦ rw (new, text_eq_refl c.name) refl
]
covered m c (b ∷ cs) ds = ground (arith, covered m c cs ds)

all_asked :
    (m : Infos) (cs ds : List Char) (reply : LookupReply (List Scanned))
    → filter (λ c. not (is_asked (lookup_chars (cs ++ ds) reply m) c.name)) ds ≡ []
unfolding lookup_chars
all_asked m cs [] reply = refl
all_asked m cs (c ∷ ds) reply =
    let h : is_asked (lookup_chars (cs ++ (c ∷ ds)) reply m) c.name ≡ true =
      is_asked-ask c.name (to_fetch m (cs ++ (c ∷ ds))) reply m (covered m c cs ds) in
    rw h (
      subst (λ xs. filter (λ x. not (is_asked (lookup_chars xs reply m) x.name)) ds ≡ [])
        (append_assoc cs (c ∷ []) ds) (all_asked m (cs ++ (c ∷ [])) ds reply))

-- Whatever the reply to the request about the pilots of a paste, a failure included: a second paste
-- with the same pilots asks nothing about them.
pub to_fetch-lookup_chars :
    (m : Infos) (cs : List Char) (reply : LookupReply (List Scanned))
    → to_fetch (lookup_chars cs reply m) cs ≡ []
unfolding to_fetch
to_fetch-lookup_chars m cs reply = all_asked m [] cs reply
