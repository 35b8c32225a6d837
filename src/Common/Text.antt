-- ===== src/Common/Text.antt =====
-- Texts that the program walks, as lists of character codes, with decimal printing.
use Prim.Native.Nat.{◌-◌, ℕ, zero, suc, ◌+◌, ◌/◌, ◌%◌}
use Prim.Native.Char.{code}
use Prim.Native.String.{String}
use mathlib.Core.Path.{◌≡◌, refl}
use mathlib.Core.Bool.{Bool, true, false, ◌&&◌, ◌||◌}
use mathlib.Core.List.{List, [], ◌∷◌, ◌++◌}
use native.Mathlib.Omega.{arith}
use lawn_eve_intel_dashboard.Common.Tests.{ltb, leb, ◌==◌, if◌then◌else◌}

abbrev pub Text : Type 0
Text = List ℕ

abbrev pub codes : String → Text
codes String.[] = []
codes (String.◌∷◌ c s) = code c ∷ codes s

-- `/\d/`.
abbrev pub is_digit : ℕ → Bool
is_digit c = leb b'0' c && leb c b'9'

-- `/\s/`, and what `trim` removes.
abbrev pub is_space : ℕ → Bool
is_space c =
    (leb 9 c && leb c 13)
    || c == 32
    || c == 160
    || c == 5760
    || (leb 8192 c && leb c 8202)
    || c == 8232
    || c == 8233
    || c == 8239
    || c == 8287
    || c == 12288
    || c == 65279

-- `toLowerCase` on ASCII.
abbrev pub lower : ℕ → ℕ
lower c = if leb b'A' c && leb c b'Z' then c + 32 else c

-- Equality of two texts.
unfoldable pub text_eq : Text → Text → Bool
text_eq [] [] = true
text_eq [] (d ∷ t) = false
text_eq (c ∷ s) [] = false
text_eq (c ∷ s) (d ∷ t) = (c == d) && text_eq s t

pub text_eq→eq : (s t : Text) → text_eq s t ≡ true → s ≡ t
unfolding text_eq
text_eq→eq [] [] h = refl
text_eq→eq [] (d ∷ t) h = cc
text_eq→eq (c ∷ s) [] h = cc
text_eq→eq (c ∷ s) (d ∷ t) h = ground (arith, text_eq→eq s t)

pub text_eq_refl : (s : Text) → text_eq s s ≡ true
unfolding text_eq
text_eq_refl [] = refl
text_eq_refl (c ∷ s) = ground (arith, text_eq_refl s)

-- The decimal digits of a number before those of `rest`; `fuel` bounds their count.
unfoldable pub digits : ℕ → ℕ → Text → Text
digits zero n rest = rest
digits (suc fuel) n rest =
    let more = digits fuel (n / 10) ((b'0' + n % 10) ∷ rest) in
    if ltb n 10 then (b'0' + n) ∷ rest else more

-- `String(n)`, or `${n}`. A number has fewer digits than it counts, so the fuel is enough.
unfoldable pub show : ℕ → Text
unfolding digits
show n = digits (suc n) n []

-- `toUpperCase` on ASCII.
abbrev pub upper : ℕ → ℕ
upper c = if leb b'a' c && leb c b'z' then c - 32 else c

-- `s.startsWith(t)`.
unfoldable pub starts_with : Text → Text → Bool
starts_with s [] = true
starts_with [] (d ∷ t) = false
starts_with (c ∷ s) (d ∷ t) = (c == d) && starts_with s t

abbrev pub is_nil : Text → Bool
is_nil [] = true
is_nil (c ∷ s) = false

-- `trim`.
unfoldable pub trim_start : Text → Text
trim_start [] = []
trim_start (c ∷ s) = let rest = trim_start s in if is_space c then rest else c ∷ s

unfoldable pub trim_end : Text → Text
trim_end [] = []
trim_end (c ∷ s) = let rest = trim_end s in if is_space c && is_nil rest then [] else c ∷ rest

unfoldable pub trim : Text → Text
unfolding trim_start trim_end
trim s = trim_end (trim_start s)

-- The first part gets a character more.
abbrev pub cons_first : ℕ → List Text → List Text
cons_first c [] = (c ∷ []) ∷ []
cons_first c (p ∷ ps) = (c ∷ p) ∷ ps

-- `s.split(sep)` at a single character.
unfoldable pub split : ℕ → Text → List Text
split sep [] = [] ∷ []
split sep (c ∷ s) = let rest = split sep s in if c == sep then [] ∷ rest else cons_first c rest

-- `s.endsWith(t)`.
unfoldable pub ends_with : Text → Text → Bool
unfolding text_eq
ends_with [] t = is_nil t
ends_with (c ∷ s) t = text_eq (c ∷ s) t || ends_with s t

-- `xs.join(sep)`.
abbrev pub join : Text → List Text → Text
join sep [] = []
join sep (x ∷ []) = x
join sep (x ∷ y ∷ xs) = x ++ (sep ++ join sep (y ∷ xs))

-- `s.includes(t)`.
unfoldable pub includes : Text → Text → Bool
unfolding starts_with
includes [] t = is_nil t
includes (c ∷ s) t = starts_with (c ∷ s) t || includes s t
