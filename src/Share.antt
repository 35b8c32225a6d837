-- ===== src/Share.antt =====
-- frontend/src/pages/SharePage.jsx: the page of a shared report. An effect that loads is counted;
-- it is cancelled once a later one has started. `R` is what a report has in it.
mod Tests
pub mod Endings
pub mod Loads
pub mod Stale
pub mod Shown
pub mod Button
pub mod Links
use lawn_eve_intel_dashboard.Common.{
  ℕ, suc, ◌-◌, ◌*◌, String, Bool, true, false, not, ◌&&◌, ◌||◌, Option, none, some, List, [], ◌∷◌,
  ltb, leb, ◌==◌, if◌then◌else◌, filter, any,
}

pub data Status : Type 0 where
  loading forbidden missing error ok : Status

-- A run of the effect, with the token that it asks for.
pub record Load : Type 0 where
  pub run : ℕ
  pub token : String

-- A report, with the token that it was sent for.
pub record Report {ℓ} (R : Type ℓ) : Type ℓ where
  pub token : String
  pub body : R

pub record Page {ℓ} (R : Type ℓ) : Type ℓ where
  pub token : String
  pub authorized : Bool
  pub run : ℕ
  pub report : Option (Report R)
  pub status : Status
  pub asked : List Load
  pub reading : List Load

-- How `fetch` ends: with a status, or not at all.
pub data Response : Type 0 where
  responded : ℕ → Response
  rejected : Response

abbrev pub is_ok : ℕ → Bool
is_ok code = leb 200 code && ltb code 300

abbrev pub without : Load → List Load → List Load
without l ls = filter (λ k. not (k.run == l.run)) ls

module _ {ℓ} {R : Type ℓ} where
  -- The first render, with its effect.
  unfoldable pub open_page : String → Bool → Page R
  open_page token authorized = record {
    token = token;
    authorized = authorized;
    run = 0;
    report = none;
    status = loading;
    asked = record { run = 0; token = token } ∷ [];
    reading = [];
  }

  -- The token of the address or `auth.authorized` has changed: the effect is cleaned up, and run.
  unfoldable pub move : String → Bool → Page R → Page R
  move token authorized s = record s {
    token = token;
    authorized = authorized;
    run = suc s.run;
    asked = record { run = suc s.run; token = token } ∷ s.asked;
  }

  abbrev pub is_cancelled : Load → Page R → Bool
  is_cancelled l s = not (l.run == s.run)

  -- `load` from the end of `fetch` to the first `await` after it.
  abbrev pub on_response : Load → Response → Page R → Page R
  on_response l rejected s = if is_cancelled l s then s else record s { status = error }
  on_response l (responded code) s =
      if is_cancelled l s
      then s
      else if code == 403
      then record s { status = forbidden }
      else if not (is_ok code)
      then record s { status = missing }
      else record s { reading = l ∷ s.reading }

  unfoldable pub respond : Load → Response → Page R → Page R
  respond l r s = on_response l r (record s { asked = without l s.asked })

  -- The end of `res.json()`: a report, or none where the body is broken.
  abbrev pub on_body : Load → Option R → Page R → Page R
  on_body l none s = if is_cancelled l s then s else record s { status = error }
  on_body l (some b) s = record s {
    report = some (record { token = l.token; body = b });
    status = ok;
  }

  unfoldable pub read_body : Load → Option R → Page R → Page R
  read_body l b s = on_body l b (record s { reading = without l s.reading })

  -- Whether the run of the token that the address has now is still under way.
  unfoldable pub is_loading : Page R → Bool
  is_loading s = any (λ l. l.run == s.run) s.asked || any (λ l. l.run == s.run) s.reading
