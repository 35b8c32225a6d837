-- ===== src/Intel/Rows.antt =====
-- IntelChannelParser.jsx, rows: the order of the table.
use lawn_eve_intel_dashboard.Common.{
  ℕ, String, ◌≡◌, Bool, true, false, List, map, Perm, arith, ◌≤◌, ◌&&◌, sym, ◌∙◌, inl, inr, [], ◌∷◌,
  All, All-implies, Bool-cases,
}
use lawn_eve_intel_dashboard.Common.Text.{Text}
use lawn_eve_intel_dashboard.Common.Sort.{IsSorted, sort-perm, sort-IsSorted}
use lawn_eve_intel_dashboard.Intel.{Report, Row, row_of, compare_rows, not_after, rows_of}

abbrev pub before : Row → Row → Bool
before a b = not_after (compare_rows a b)

-- The comparison, as one number: the rank, then whether the report has expired.
before-total : (a b : Row) → before a b ≡ false → before b a ≡ true
unfolding compare_rows
before-total a b h = ground arith

before-transitive : (a b c : Row) → before a b ≡ true → before b c ≡ true → before a c ≡ true
unfolding compare_rows
before-transitive a b c h k = ground arith

-- The systems of the alliance on its border.
abbrev pub on_border : Row → Bool
on_border r = r.report.is_primary && r.border

-- Both stand in the same part of the table.
pub record Together (a b : Row) : Type 0 where
  pub primary : a.report.is_primary ≡ b.report.is_primary
  pub bordering : on_border a ≡ on_border b

-- Why a row may stand before another one.
pub data Precedes (a b : Row) : Type 0 where
  by_border : on_border a ≡ true → on_border b ≡ false → Precedes a b
  by_primary : a.report.is_primary ≡ true → b.report.is_primary ≡ false → Precedes a b
  by_expiry : Together a b → a.expired ≡ false → b.expired ≡ true → Precedes a b
  by_time :
      Together a b → a.expired ≡ b.expired → b.report.timestamp ≤ a.report.timestamp → Precedes a b

-- Every row precedes all that follow it.
abbrev pub InOrder : List Row → Type 0
InOrder [] = Unit
InOrder (r ∷ rs) = All (Precedes r) rs × InOrder rs

Precedes-Together : (a b : Row) → Together a b → before a b ≡ true → Precedes a b
unfolding compare_rows
Precedes-Together a b t h = elim (Bool-cases a.expired) [
  | inl old ↦ elim (Bool-cases b.expired) [
    | inl both ↦ by_time t (cc) (ground (arith, t.primary, t.bordering))
    | inr fresh ↦ absurd (ground (arith, t.primary, t.bordering))
  ]
  | inr new ↦ elim (Bool-cases b.expired) [
    | inl old ↦ by_expiry t new old
    | inr both ↦ by_time t (cc) (ground (arith, t.primary, t.bordering))
  ]
]

Precedes-inner : (a b : Row) → before a b ≡ true → on_border a ≡ false → Precedes a b
unfolding compare_rows
Precedes-inner a b h inner = elim (Bool-cases a.report.is_primary) [
  | inl ours ↦ elim (Bool-cases b.report.is_primary) [
    | inl both ↦ Precedes-Together a b (record { primary = cc; bordering = ground arith }) h
    | inr one ↦ by_primary ours one
  ]
  | inr other ↦
      Precedes-Together a b (record { primary = ground arith; bordering = ground arith }) h
]

Precedes-of_before : (a b : Row) → before a b ≡ true → Precedes a b
Precedes-of_before a b h = elim (Bool-cases (on_border a)) [
  | inl border ↦ elim (Bool-cases (on_border b)) [
    | inl both ↦
        Precedes-Together a b (record { primary = ground arith; bordering = border ∙ sym both }) h
    | inr one ↦ by_border border one
  ]
  | inr inner ↦ Precedes-inner a b h inner
]

InOrder-of_IsSorted : (rs : List Row) → IsSorted before rs → InOrder rs
InOrder-of_IsSorted [] s = tt
InOrder-of_IsSorted (r ∷ rs) s = (
  All-implies (λ b. before r b ≡ true) (Precedes r) rs (Precedes-of_before r) s.0,
  InOrder-of_IsSorted rs s.1,
)

-- The table has a row for each report of the board and no other, and they stand in order: border
-- systems of the alliance first, then its other systems, then the rest, each of these with the
-- reports that have not expired first, and among those that have expired, and among those that have
-- not, the newest first.
pub rows_of-InOrder :
    (now expire_ms : ℕ) (borders : List Text) (board : List (String × Report))
    → Perm (rows_of now expire_ms borders board) (map (row_of now expire_ms borders) board)
      × InOrder (rows_of now expire_ms borders board)
unfolding rows_of
rows_of-InOrder now expire_ms borders board = (
  sort-perm before _,
  InOrder-of_IsSorted _ (sort-IsSorted before before-total before-transitive _),
)
