-- ===== src/Share/Endings.antt =====
-- SharePage.jsx: every run of the page, and how the requests for the token of the address have ended.
use lawn_eve_intel_dashboard.Common.{
  ℕ, ◌≤◌, ◌<◌, ◌≡◌, ◌≢◌, ◌⊎◌, String, Bool, false, Option, none, some, List, [], ◌∷◌, ◌==◌,
  if◌then◌else◌, leb, ltb, not, ◌&&◌,
}
use lawn_eve_intel_dashboard.Share.{
  Status, forbidden, missing, error, ok, Load, Report, Page, Response, responded, rejected,
  open_page, move, respond, read_body,
}

pub data Among (l : Load) : List Load → Type 0 where
  here : {ls : List Load} → Among l (l ∷ ls)
  there : {k : Load} {ls : List Load} → Among l ls → Among l (k ∷ ls)

-- How a request for the token of the address has ended: with a response that was no report, or with
-- the end of reading the report.
pub data Ending {ℓ} (R : Type ℓ) : Type ℓ where
  answered : Response → Ending R
  read : Option R → Ending R

-- Whether the response is that of a report, whose body is read next.
abbrev pub starts_reading : Response → Bool
starts_reading rejected = false
starts_reading (responded code) = not (code == 403) && (leb 200 code && ltb code 300)

module _ {ℓ} {R : Type ℓ} where
  -- The endings of the current run, the last one first, after a response or after a body.
  abbrev pub after_response : Load → Response → Page R → List (Ending R) → List (Ending R)
  after_response l r s es = if l.run == s.run && not (starts_reading r) then answered r ∷ es else es

  abbrev pub after_body : Load → Option R → Page R → List (Ending R) → List (Ending R)
  after_body l b s es = if l.run == s.run then read b ∷ es else es

  -- A page, and how the requests of its current run have ended. The page moves only while no body is
  -- being read; the rest happens in any order.
  pub data Reach : Page R → List (Ending R) → Type ℓ where
    opens : (token : String) (authorized : Bool) → Reach (open_page token authorized) []
    moves :
        {s : Page R} {es : List (Ending R)} (token : String) (authorized : Bool)
        → Reach s es
        → s.reading ≡ []
        → Reach (move token authorized s) []
    responds :
        {s : Page R} {es : List (Ending R)} (l : Load) (r : Response)
        → Reach s es
        → Among l s.asked
        → Reach (respond l r s) (after_response l r s es)
    reads :
        {s : Page R} {es : List (Ending R)} (l : Load) (b : Option R)
        → Reach s es
        → Among l s.reading
        → Reach (read_body l b s) (after_body l b s es)

  -- What each ending has to leave on the page of a token.
  pub data Outcome : Ending R → String → Status → Option (Report R) → Type ℓ where
    unreachable :
        {token : String} {o : Option (Report R)} → Outcome (answered rejected) token error o
    no_entry :
        {token : String} {o : Option (Report R)}
        → Outcome (answered (responded 403)) token forbidden o
    not_there :
        {token : String} {o : Option (Report R)} (code : ℕ)
        → code ≢ 403
        → (code < 200) ⊎ (300 ≤ code)
        → Outcome (answered (responded code)) token missing o
    broken : {token : String} {o : Option (Report R)} → Outcome (read none) token error o
    shown :
        {token : String} (b : R)
        → Outcome (read (some b)) token ok (some (record { token = token; body = b }))

  -- There is an ending of the run, and the page shows what the last one has to leave.
  pub data IsOwn : List (Ending R) → Page R → Type ℓ where
    last :
        {e : Ending R} {es : List (Ending R)} {s : Page R}
        → Outcome e s.token s.status s.report
        → IsOwn (e ∷ es) s
