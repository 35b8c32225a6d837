-- ===== src/Dscan/Categories.antt =====
-- frontend/src/utils/dscanCategories.js: the categories of what a directional scan shows.
use lawn_eve_intel_dashboard.Common.{ℕ, Bool, List, [], ◌∷◌, ◌==◌}

pub data Category : Type 0 where
  super capital battleship battlecruiser doctrine recon support tackle cruiser ewar bomber covops
        destroyer frigate pod structure deployable bubble sov probe :
      Category

-- The place of a category in `CATEGORY_ORDER`.
abbrev pub rank : Category → ℕ
rank super = 0
rank capital = 1
rank battleship = 2
rank battlecruiser = 3
rank doctrine = 4
rank recon = 5
rank support = 6
rank tackle = 7
rank cruiser = 8
rank ewar = 9
rank bomber = 10
rank covops = 11
rank destroyer = 12
rank frigate = 13
rank pod = 14
rank structure = 15
rank deployable = 16
rank bubble = 17
rank sov = 18
rank probe = 19

abbrev pub category_order : List Category
category_order =
    super ∷ capital ∷ battleship ∷ battlecruiser ∷ doctrine ∷ recon ∷ support ∷ tackle ∷ cruiser
    ∷ ewar ∷ bomber ∷ covops ∷ destroyer ∷ frigate ∷ pod ∷ structure ∷ deployable ∷ bubble ∷ sov
    ∷ probe ∷ []

-- Equality of two categories.
abbrev pub same_category : Category → Category → Bool
same_category c d = rank c == rank d
