-- ===== src/MapView/Hash.antt =====
-- mapHelpers.js: the hash of a name, which wraps at 32 bits in each round.
use lawn_eve_intel_dashboard.Common.{ℕ, ◌+◌, ◌*◌, ◌%◌, ◌≡◌, refl, ap, [], ◌∷◌, arith}
use lawn_eve_intel_dashboard.Common.Text.{Text}
use lawn_eve_intel_dashboard.MapView.{hash_step, hash_bits, abs_bits, hash_str}

-- The hash without any wrapping: the codes as the digits of a number in base 31.
pub base_31 : Text → ℕ → ℕ
base_31 [] h = h
base_31 (c ∷ s) h = base_31 s (h * 31 + c)

hash_step-mod : (h c : ℕ) → hash_step (h % 4294967296) c ≡ (h * 31 + c) % 4294967296
unfolding hash_step
hash_step-mod h c = omega arith

hash_bits-base_31 : (s : Text) (h : ℕ) → hash_bits s (h % 4294967296) ≡ base_31 s h % 4294967296
unfolding hash_bits base_31
hash_bits-base_31 [] h = refl
hash_bits-base_31 (c ∷ s) h = rw (hash_step-mod h c) (hash_bits-base_31 s (h * 31 + c))

-- The hash is the absolute value of the number whose digits in base 31 are the codes of the name,
-- wrapped to 32 bits once, at the end.
pub hash_str-base_31 : (s : Text) → hash_str s ≡ abs_bits (base_31 s 0 % 4294967296)
unfolding hash_str
hash_str-base_31 s = ap abs_bits (hash_bits-base_31 s 0)
