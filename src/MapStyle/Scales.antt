-- ===== src/MapStyle/Scales.antt =====
-- ConstellationMap.jsx: the scale of the map under any touches.
use lawn_eve_intel_dashboard.Common.{
  ℕ, ◌≡◌, inl, inr, Bool, true, false, ◌&&◌, ◌||◌, ltb, List, [], ◌∷◌, ◌==◌, if◌then◌else◌,
  Bool-cases,
}
use lawn_eve_intel_dashboard.MapStyle.Gestures.{
  Float, num, nan, Numbers, Touch, Pan, TouchState, idle, pan, pinch, square_dist, math_max,
  math_min, times, Gesture, untouched, reset_view, touch_start, touch_move, touch_end, move_pan,
  move_pinch, move_touches,
}

abbrev pub IsNumber : {A : Type 0} → (A → Type 0) → Float A → Type 0
IsNumber P nan = ⊥
IsNumber P (num n) = P n

abbrev pub InRange : (S : Numbers) → S.N → Type 0
InRange S n = (S.le S.half n ≡ true) × (S.le n S.five ≡ true)

-- What the code relies on of floating point: the order is total, 1 is between a half and 5, a
-- quotient is a number unless it is of zeros, and so is the product of a scale with a number.
pub record Laws (S : Numbers) : Type 0 where
  pub total : (m n : S.N) → S.le m n ≡ false → S.le n m ≡ true
  pub reflexive : (n : S.N) → S.le n n ≡ true
  pub half_le_five : S.le S.half S.five ≡ true
  pub one_in_range : InRange S S.one
  pub quotient_number :
      (m n : ℕ)
      → (m == 0 && n == 0) ≡ false
      → IsNumber (λ _. Unit {0}) (S.quotient (S.root m) (S.root n))
  pub product_number : (s n : S.N) → InRange S s → IsNumber (λ _. Unit {0}) (S.product s n)

-- The fingers of a pinch are in one place, and were so before.
abbrev pub coincide : TouchState → List Touch → Bool
coincide (pinch last) (t ∷ u ∷ []) = square_dist t.x t.y u.x u.y == 0 && last == 0
coincide _ _ = false

module _ {S : Numbers} where
  pub data Reach : Gesture S → Type 0 where
    drawn : (tip : Bool) → Reach (untouched S tip)
    starts : {g : Gesture S} (ts : List Touch) → Reach g → Reach (touch_start S ts g)
    moves :
        {g : Gesture S} (ts : List Touch)
        → Reach g
        → coincide g.touch ts ≡ false
        → Reach (touch_move S ts g)
    ends : {g : Gesture S} → Reach g → Reach (touch_end S g)
    resets : {g : Gesture S} → Reach g → Reach (reset_view S g)
    hovers : {g : Gesture S} (tip : Bool) → Reach g → Reach (record g { has_tooltip = tip })

module _ {S : Numbers} (laws : Laws S) where
  min-InRange : (n : S.N) → S.le S.half n ≡ true → InRange S (if S.le S.five n then S.five else n)
  min-InRange n h = elim (Bool-cases (S.le S.five n)) [
    | inl above ↦ rw above (laws.half_le_five, laws.reflexive S.five)
    | inr below ↦ rw below (h, laws.total S.five n below)
  ]

  clamp-InRange :
      (f : Float S.N)
      → IsNumber (λ _. Unit {0}) f
      → IsNumber (InRange S) (math_min S S.five (math_max S S.half f))
  clamp-InRange nan h = h
  clamp-InRange (num n) h = elim (Bool-cases (S.le S.half n)) [
    | inl above ↦ rw above (min-InRange n above)
    | inr below ↦ rw below (min-InRange S.half (laws.reflexive S.half))
  ]

  times-IsNumber :
      (s r : Float S.N)
      → IsNumber (InRange S) s
      → IsNumber (λ _. Unit {0}) r
      → IsNumber (λ _. Unit {0}) (times S s r)
  times-IsNumber nan r h k = absurd h
  times-IsNumber (num s) nan h k = k
  times-IsNumber (num s) (num r) h k = laws.product_number s r h

  move_pan-scale :
      (p : Pan) (t : Touch) (g : Gesture S)
      → IsNumber (InRange S) g.scale
      → IsNumber (InRange S) (move_pan S p t g).scale
  unfolding move_pan
  move_pan-scale p t g h =
      elim (Bool-cases (p.moved || ltb 25 (square_dist t.x t.y p.start_x p.start_y))) [
        | inl moving ↦ rw moving h
        | inr still ↦ rw still h
      ]

  touch_start-scale :
      (ts : List Touch) (g : Gesture S)
      → IsNumber (InRange S) g.scale
      → IsNumber (InRange S) (touch_start S ts g).scale
  unfolding touch_start
  touch_start-scale [] g h = h
  touch_start-scale (t ∷ []) g h = h
  touch_start-scale (t ∷ u ∷ []) g h = h
  touch_start-scale (t ∷ u ∷ v ∷ ts) g h = h

  move_touches-scale :
      (state : TouchState) (ts : List Touch) (g : Gesture S)
      → coincide state ts ≡ false
      → IsNumber (InRange S) g.scale
      → IsNumber (InRange S) (move_touches S state ts g).scale
  unfolding move_pinch
  move_touches-scale idle ts g a h = h
  move_touches-scale (pan p) [] g a h = h
  move_touches-scale (pan p) (t ∷ []) g a h = move_pan-scale p t g h
  move_touches-scale (pan p) (t ∷ u ∷ ts) g a h = h
  move_touches-scale (pinch last) [] g a h = h
  move_touches-scale (pinch last) (t ∷ []) g a h = h
  move_touches-scale (pinch last) (t ∷ u ∷ []) g a h =
      clamp-InRange _
        (times-IsNumber g.scale _ h (laws.quotient_number (square_dist t.x t.y u.x u.y) last a))
  move_touches-scale (pinch last) (t ∷ u ∷ v ∷ ts) g a h = h

  -- Whatever the touches, while the two fingers of a pinch are not in one place twice in a row, the
  -- scale of the map is a number between a half and 5.
  pub Reach-InRange : {g : Gesture S} → Reach g → IsNumber (InRange S) g.scale
  unfolding untouched touch_move touch_end reset_view
  Reach-InRange (drawn tip) = laws.one_in_range
  Reach-InRange (starts {g} ts r) = touch_start-scale ts g (Reach-InRange r)
  Reach-InRange (moves {g} ts r a) = move_touches-scale g.touch ts g a (Reach-InRange r)
  Reach-InRange (ends r) = Reach-InRange r
  Reach-InRange (resets r) = laws.one_in_range
  Reach-InRange (hovers tip r) = Reach-InRange r
