-- ===== src/Timer/Duration.antt =====
-- What the duration scanner makes of a printed number.
use lawn_eve_intel_dashboard.Common.{
  ℕ, zero, suc, ◌+◌, ◌*◌, ◌/◌, ◌%◌, ◌<◌, ◌≡◌, refl, ap, ◌∙◌, ◌⊎◌, inl, inr, some, [], ◌∷◌, ◌++◌,
  arith, ltb, Bool-cases,
}
use lawn_eve_intel_dashboard.Common.Text.{Text, digits, show}
use lawn_eve_intel_dashboard.Timer.{idle, num, scan_units, scan_step, unit_ms, parse_duration}

scan_digit :
    (d : ℕ) (rest : Text) (v total : ℕ)
    → d < 10
    → scan_units ((b'0' + d) ∷ rest) (num v) total ≡ scan_units rest (num (v * 10 + d)) total
unfolding scan_units scan_step
scan_digit d rest v total h = ground arith

scan_first :
    (d : ℕ) (rest : Text) (total : ℕ)
    → d < 10
    → scan_units ((b'0' + d) ∷ rest) idle total ≡ scan_units rest (num d) total
unfolding scan_units scan_step
scan_first d rest total h = ground arith

-- A printed number leaves the scanner behind exactly that number.
scan-digits :
    (fuel n : ℕ) (rest : Text) (total : ℕ)
    → n < fuel
    → scan_units (digits fuel n rest) idle total ≡ scan_units rest (num n) total
unfolding digits
scan-digits zero n rest total h = absurd (omega arith)
scan-digits (suc f) n rest total h = elim (Bool-cases (ltb n 10)) [
  | inl small ↦ rw small (scan_first n rest total (ground arith))
  | inr large ↦ rw large (
      scan-digits f (n / 10) ((b'0' + n % 10) ∷ rest) total (ground arith)
      ∙ scan_digit (n % 10) rest (n / 10) total (omega arith)
      ∙ ap (λ v. scan_units rest (num v) total) (omega arith))
]

digits-append : (fuel n : ℕ) (xs ys : Text) → digits fuel n xs ++ ys ≡ digits fuel n (xs ++ ys)
unfolding digits
digits-append zero n xs ys = refl
digits-append (suc f) n xs ys = elim (Bool-cases (ltb n 10)) [
  | inl small ↦ rw small refl
  | inr large ↦ rw large (digits-append f (n / 10) ((b'0' + n % 10) ∷ xs) ys)
]

pub scan-show :
    (n : ℕ) (rest : Text) (total : ℕ)
    → scan_units (show n ++ rest) idle total ≡ scan_units rest (num n) total
unfolding show
scan-show n rest total =
    ap (λ s. scan_units s idle total) (digits-append (suc n) n [] rest)
    ∙ scan-digits (suc n) n rest total (omega arith)

pub scan_unit_end : (c v total : ℕ) → scan_units (c ∷ []) (num v) total ≡ total + v * unit_ms c
unfolding scan_units scan_step
scan_unit_end c v total = refl

pub scan_last : (b d total : ℕ) → scan_units (show b ++ (d ∷ [])) idle total ≡ total + b * unit_ms d
scan_last b d total = scan-show b (d ∷ []) total ∙ scan_unit_end d b total

scan_second :
    (a b c d : ℕ)
    → (c ≡ b'd') ⊎ (c ≡ b'h')
    → scan_units (c ∷ b' ' ∷ (show b ++ (d ∷ []))) (num a) 0 ≡ a * unit_ms c + b * unit_ms d
unfolding scan_units scan_step
scan_second a b c d (inl e) = rw e (scan_last b d _ ∙ ap (λ t. t + b * unit_ms d) (omega arith))
scan_second a b c d (inr e) = rw e (scan_last b d _ ∙ ap (λ t. t + b * unit_ms d) (omega arith))

-- Two numbers with their units, a space between them.
pub scan_pair :
    (a b c d : ℕ)
    → (c ≡ b'd') ⊎ (c ≡ b'h')
    → scan_units (show a ++ (c ∷ b' ' ∷ (show b ++ (d ∷ [])))) idle 0
      ≡ a * unit_ms c + b * unit_ms d
scan_pair a b c d e = scan-show a (c ∷ b' ' ∷ (show b ++ (d ∷ []))) 0 ∙ scan_second a b c d e

-- `parseDuration` gives the total of the loop, if it is positive.
pub parse_duration_of_scan :
    (s : Text) (t : ℕ) → scan_units s idle 0 ≡ t → 0 < t → parse_duration s ≡ some t
unfolding parse_duration scan_units
parse_duration_of_scan [] t e h = absurd (omega arith)
parse_duration_of_scan (c ∷ s) t e h = ground arith
