-- ===== src/War/Totals.antt =====
-- WarPage.jsx: the table of hulls against its row of totals.
use lawn_eve_intel_dashboard.Common.{
  ℕ, ◌+◌, String, ◌≡◌, refl, ap, inl, inr, Bool, true, false, not, ◌&&◌, ◌||◌, Option, none, some,
  List, [], ◌∷◌, ◌++◌, map, arith, eq_iff, eq_refl, str_eq, Bool-cases, filter, if◌then◌else◌,
}
use lawn_eve_intel_dashboard.Common.Named.{named}
use lawn_eve_intel_dashboard.Config.Sets.{add, has, has-append, IsDistinct}
use lawn_eve_intel_dashboard.War.{
  a, b, SideKey, Losses, ShipClasses, sum_losses, hull_totals, hull_order, add_classes,
  seen_classes, ordered_hull_classes,
}
use lawn_eve_intel_dashboard.War.Hulls.{lost_by, has-filter, ordered_hull_classes-has}
use lawn_eve_intel_dashboard.War.Board.{HullRow, hull_row, hull_table}

-- The classes of which a side lost ships, as they are listed.
abbrev pub names_of : List (String × Losses) → List String
names_of vs = map (λ v. v.0) vs

append-IsDistinct :
    (xs ys : List String)
    → IsDistinct str_eq xs
    → IsDistinct str_eq ys
    → ((c : String) → (has str_eq c xs && has str_eq c ys) ≡ false)
    → IsDistinct str_eq (xs ++ ys)
append-IsDistinct [] ys d e apart = e
append-IsDistinct (x ∷ xs) ys d e apart = (
  rw (has-append str_eq x xs ys) (ground (arith, d.0, apart x, eq_refl x)),
  append-IsDistinct xs ys d.1 e (λ c. ground (arith, apart c)),
)

filter-IsDistinct :
    (p : String → Bool) (xs : List String) → IsDistinct str_eq xs → IsDistinct str_eq (filter p xs)
filter-IsDistinct p [] d = tt
filter-IsDistinct p (x ∷ xs) d = elim (Bool-cases (p x)) [
  | inl keeps ↦ rw keeps (rw (has-filter p x xs, d.0) refl, filter-IsDistinct p xs d.1)
  | inr drops ↦ rw drops (filter-IsDistinct p xs d.1)
]

add-IsDistinct :
    (c : String) (xs : List String) → IsDistinct str_eq xs → IsDistinct str_eq (add str_eq c xs)
unfolding add
add-IsDistinct c xs d = elim (Bool-cases (has str_eq c xs)) [
  | inl old ↦ rw old d
  | inr new ↦
      rw new (append-IsDistinct xs (c ∷ []) d (refl, tt) (λ k. ground (arith, eq_iff c k, new)))
]

add_classes-IsDistinct :
    (vs : List (String × Losses)) (seen : List String)
    → IsDistinct str_eq seen
    → IsDistinct str_eq (add_classes vs seen)
add_classes-IsDistinct [] seen d = d
add_classes-IsDistinct (v ∷ vs) seen d =
    add_classes-IsDistinct vs (add str_eq v.0 seen) (add-IsDistinct v.0 seen d)

ordered_hull_classes-IsDistinct :
    (classes : ShipClasses) → IsDistinct str_eq (ordered_hull_classes classes)
unfolding ordered_hull_classes
ordered_hull_classes-IsDistinct classes =
    let seen = seen_classes classes in
    append-IsDistinct (filter (λ c. has str_eq c seen) hull_order)
      (filter (λ c. not (has str_eq c hull_order)) seen)
      (filter-IsDistinct (λ c. has str_eq c seen) hull_order
        (refl, (refl, (refl, (refl, (refl, (refl, (refl, tt))))))))
      (filter-IsDistinct (λ c. not (has str_eq c hull_order)) seen
        (add_classes-IsDistinct (classes b) _ (add_classes-IsDistinct (classes a) [] tt)))
      (λ c.
        rw
          (
            has-filter (λ c. has str_eq c seen) c hull_order,
            has-filter (λ c. not (has str_eq c hull_order)) c seen,
          )
          (ground arith))

-- What a cell counts, a column of cells, and the losses of a side.
abbrev pub cell : (Losses → ℕ) → Option Losses → ℕ
cell f none = 0
cell f (some l) = f l

abbrev column : (Losses → ℕ) → List (String × Losses) → List String → ℕ
column f vs [] = 0
column f vs (c ∷ cs) = cell f (named c vs) + column f vs cs

abbrev total : (Losses → ℕ) → List (String × Losses) → ℕ
total f [] = 0
total f (v ∷ vs) = f v.1 + total f vs

named_unlisted :
    (c : String) (vs : List (String × Losses)) → lost_by c vs ≡ false → named c vs ≡ none
unfolding named
named_unlisted c [] h = refl
named_unlisted c (v ∷ vs) h = ground (arith, named_unlisted c vs)

column_cons :
    (f : Losses → ℕ) (v : String × Losses) (vs : List (String × Losses)) (cs : List String)
    → lost_by v.0 vs ≡ false
    → IsDistinct str_eq cs
    → column f (v ∷ vs) cs ≡ (if has str_eq v.0 cs then f v.1 else 0) + column f vs cs
unfolding named
column_cons f v vs [] h d = refl
column_cons f v vs (c ∷ cs) h d = elim (Bool-cases (str_eq v.0 c)) [
  | inl same ↦
      let e : v.0 ≡ c = (eq_iff v.0 c).0 same in
      let once : has str_eq v.0 cs ≡ false = rw e d.0 in
      let gone : named c vs ≡ none = rw (← e) (named_unlisted v.0 vs h) in
      let rest = column_cons f v vs cs h d.1 in
      let back : str_eq c v.0 ≡ true = rw e (eq_refl c) in
      rw (same, gone, back) (ground (arith, rest, once))
  | inr other ↦
      let back : str_eq c v.0 ≡ false = ground (arith, eq_iff v.0 c, eq_iff c v.0) in
      rw (other, back) (ground (arith, column_cons f v vs cs h d.1))
]

column_none : (f : Losses → ℕ) (cs : List String) → column f [] cs ≡ 0
unfolding named
column_none f [] = refl
column_none f (c ∷ cs) = rw (column_none f cs) (omega arith)

has-names_of :
    (c : String) (vs : List (String × Losses)) → has str_eq c (names_of vs) ≡ lost_by c vs
has-names_of c [] = refl
has-names_of c (v ∷ vs) = ap (λ x. str_eq v.0 c || x) (has-names_of c vs)

column-total :
    (f : Losses → ℕ) (vs : List (String × Losses)) (cs : List String)
    → IsDistinct str_eq (names_of vs)
    → IsDistinct str_eq cs
    → ((c : String) → lost_by c vs ≡ true → has str_eq c cs ≡ true)
    → column f vs cs ≡ total f vs
column-total f [] cs d e covered = column_none f cs
column-total f (v ∷ vs) cs d e covered =
    let new : lost_by v.0 vs ≡ false = rw (← has-names_of v.0 vs) d.0 in
    let listed : has str_eq v.0 cs ≡ true = covered v.0 (rw (eq_refl v.0) refl) in
    let rest = column-total f vs cs d.1 e (λ c h. covered c (ground (arith, h))) in
    rw (column_cons f v vs cs new e, listed, rest) refl

sum_losses-total :
    (vs : List (String × Losses)) (acc : Losses)
    → ((sum_losses vs acc).count ≡ acc.count + total (λ l. l.count) vs)
      × ((sum_losses vs acc).isk ≡ acc.isk + total (λ l. l.isk) vs)
sum_losses-total [] acc = (omega arith, omega arith)
sum_losses-total (v ∷ vs) acc =
    let rest =
      sum_losses-total vs (record { count = acc.count + v.1.count; isk = acc.isk + v.1.isk }) in
    (ground (arith, rest.0), ground (arith, rest.1))

hull_totals-total :
    (classes : ShipClasses) (k : SideKey)
    → (total (λ l. l.count) (classes k) ≡ (hull_totals classes k).count)
      × (total (λ l. l.isk) (classes k) ≡ (hull_totals classes k).isk)
unfolding hull_totals
hull_totals-total classes k =
    let sums = sum_losses-total (classes k) (record { count = 0; isk = 0 }) in
    (rw sums.0 (omega arith), rw sums.1 (omega arith))

-- The sum of a column of the table.
abbrev pub add_up : (Losses → ℕ) → (HullRow → Option Losses) → List HullRow → ℕ
add_up f side [] = 0
add_up f side (r ∷ rs) = cell f (side r) + add_up f side rs

-- The column of a side adds up to what is in the row of totals.
abbrev pub AddsUp : (HullRow → Option Losses) → List HullRow → Losses → Type 0
AddsUp side rs sum =
    (add_up (λ l. l.count) side rs ≡ sum.count) × (add_up (λ l. l.isk) side rs ≡ sum.isk)

add_up-column :
    (f : Losses → ℕ) (classes : ShipClasses) (cs : List String)
    → (add_up f (λ r. r.a) (map (hull_row classes) cs) ≡ column f (classes a) cs)
      × (add_up f (λ r. r.b) (map (hull_row classes) cs) ≡ column f (classes b) cs)
add_up-column f classes [] = (refl, refl)
add_up-column f classes (c ∷ cs) =
    let rest = add_up-column f classes cs in
    (
      ap (λ n. cell f (named c (classes a)) + n) rest.0,
      ap (λ n. cell f (named c (classes b)) + n) rest.1,
    )

-- If no side lists a class twice, then both columns of the table of hulls add up to its row of totals,
-- in ships and in ISK.
pub hull_table-AddsUp :
    (classes : ShipClasses)
    → IsDistinct str_eq (names_of (classes a))
    → IsDistinct str_eq (names_of (classes b))
    → AddsUp (λ r. r.a) (hull_table classes).rows (hull_table classes).a_total
      × AddsUp (λ r. r.b) (hull_table classes).rows (hull_table classes).b_total
unfolding hull_table
hull_table-AddsUp classes d e =
    let cs = ordered_hull_classes classes in
    let once = ordered_hull_classes-IsDistinct classes in
    let left = λ (f : Losses → ℕ).
      column-total f (classes a) cs d once
        (λ c h. rw (ordered_hull_classes-has classes c, h) refl) in
    let right = λ (f : Losses → ℕ).
      column-total f (classes b) cs e once
        (λ c h. rw (ordered_hull_classes-has classes c, h) (ground arith)) in
    (
      (
        rw ((add_up-column (λ l. l.count) classes cs).0, left (λ l. l.count))
            (hull_totals-total classes a).0,
        rw ((add_up-column (λ l. l.isk) classes cs).0, left (λ l. l.isk))
            (hull_totals-total classes a).1,
      ),
      (
        rw ((add_up-column (λ l. l.count) classes cs).1, right (λ l. l.count))
            (hull_totals-total classes b).0,
        rw ((add_up-column (λ l. l.isk) classes cs).1, right (λ l. l.isk))
            (hull_totals-total classes b).1,
      ),
    )
