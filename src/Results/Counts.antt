-- ===== src/Results/Counts.antt =====
-- LocalScanResult.jsx: how the standings read in the header of a panel.
use lawn_eve_intel_dashboard.Common.{
  ℕ, ◌≡◌, refl, Bool, true, false, not, ◌&&◌, ◌||◌, List, [], ◌∷◌, ◌++◌, append-nil, String, ltb,
  if◌then◌else◌,
}
use lawn_eve_intel_dashboard.Common.Text.{Text, join}
use lawn_eve_intel_dashboard.Results.{StandingCount, standing_counts, counted, dot, shown_if}

abbrev pub pick : Bool → Text → List Text
pick true t = t ∷ []
pick false t = []

-- A number with its label, unless it is 0.
abbrev pub listed : ℕ → String → List Text
listed n label = pick (ltb 0 n) (counted n label)

abbrev pub standings : StandingCount → List Text
standings c =
    listed c.unknown "unknown"
    ++ (listed c.friendly "friendly" ++ (listed c.lawn "lawn" ++ listed c.unresolved "unresolved"))

abbrev pub only_last : Bool → Bool → Bool → Bool → Bool
only_last a b c d = not a && (not b && (not c && d))

abbrev pub only_unresolved : StandingCount → Bool
only_unresolved c =
    only_last (ltb 0 c.unknown) (ltb 0 c.friendly) (ltb 0 c.lawn) (ltb 0 c.unresolved)

read-join :
    (a b c d : Bool) (t u v w : Text)
    → shown_if a t
        ++ (shown_if (a && (b || c)) dot
            ++ (shown_if b u
                ++ (shown_if (b && c) dot ++ (shown_if c v ++ (shown_if d dot ++ shown_if d w)))))
      ≡ (if only_last a b c d
          then dot ++ join dot (pick a t ++ (pick b u ++ (pick c v ++ pick d w)))
          else join dot (pick a t ++ (pick b u ++ (pick c v ++ pick d w))))
read-join true true true true t u v w = refl
read-join true true true false t u v w = simp append-nil
read-join true true false true t u v w = refl
read-join true true false false t u v w = simp append-nil
read-join true false true true t u v w = refl
read-join true false true false t u v w = simp append-nil
read-join true false false true t u v w = refl
read-join true false false false t u v w = simp append-nil
read-join false true true true t u v w = refl
read-join false true true false t u v w = simp append-nil
read-join false true false true t u v w = refl
read-join false true false false t u v w = simp append-nil
read-join false false true true t u v w = refl
read-join false false true false t u v w = simp append-nil
read-join false false false true t u v w = refl
read-join false false false false t u v w = simp append-nil

-- The standings read as their numbers that are not 0, in order and with dots between them; only if
-- there are unresolved pilots and no others, they start with a dot.
pub standing_counts-join :
    (c : StandingCount)
    → standing_counts c
      ≡ (if only_unresolved c then dot ++ join dot (standings c) else join dot (standings c))
unfolding standing_counts
standing_counts-join c =
    read-join (ltb 0 c.unknown) (ltb 0 c.friendly) (ltb 0 c.lawn) (ltb 0 c.unresolved)
      (counted c.unknown "unknown") (counted c.friendly "friendly") (counted c.lawn "lawn")
      (counted c.unresolved "unresolved")
