-- ===== src/Share/Loads.antt =====
-- SharePage.jsx: what is shown once the requests for the token of the address have ended.
use lawn_eve_intel_dashboard.Common.{
  ℕ, ◌≤◌, ◌≡◌, refl, ◌≢◌, ◌⊎◌, inl, inr, String, Bool, true, false, Option, none, some, List, [],
  ◌∷◌, arith, ◌==◌, ==_iff, Bool-cases, any, All, All-filter, All-implies,
}
use lawn_eve_intel_dashboard.Share.{
  Status, forbidden, missing, error, ok, Load, Report, Page, Response, responded, rejected,
  open_page, move, without, is_ok, respond, read_body, is_loading,
}
use lawn_eve_intel_dashboard.Share.Endings.{
  Among, here, there, Ending, answered, read, after_response, after_body, Reach, opens, moves,
  responds, reads, Outcome, unreachable, no_entry, not_there, broken, shown, IsOwn, last,
}

pub All-Among {κ} : (P : Load → Type κ) {l : Load} {ls : List Load} → Among l ls → All P ls → P l
All-Among P here h = h.0
All-Among P (there m) h = All-Among P m h.1

-- Dropping a run keeps every other one.
any-without :
    (l : Load) (run : ℕ) (ls : List Load)
    → l.run ≢ run
    → any (λ k. k.run == run) (without l ls) ≡ any (λ k. k.run == run) ls
any-without l run [] h = refl
any-without l run (k ∷ ls) h = ground (arith, any-without l run ls h)

module _ {ℓ} {R : Type ℓ} where
  pub record Inv (s : Page R) (es : List (Ending R)) : Type ℓ where
    pub fresh : All (λ l. l.run ≤ s.run) s.asked
    pub own : All (λ l. l.run ≡ s.run → l.token ≡ s.token) s.asked
    pub read : All (λ l. (l.run ≡ s.run) × (l.token ≡ s.token)) s.reading
    pub shown : (is_loading s ≡ true) ⊎ IsOwn es s

  open_page-Inv : (token : String) (authorized : Bool) → Inv (open_page token authorized) []
  unfolding open_page is_loading
  open_page-Inv token authorized = record {
    fresh = (omega arith, tt);
    own = (λ e. refl, tt);
    read = tt;
    shown = inl refl;
  }

  move-Inv :
      (token : String) (authorized : Bool) (s : Page R) (es : List (Ending R))
      → s.reading ≡ []
      → Inv s es
      → Inv (move token authorized s) []
  unfolding move is_loading
  move-Inv token authorized s es e v = record {
    fresh = (omega arith, All-implies _ _ s.asked (λ l h. omega arith) v.fresh);
    own = (λ e. refl, All-implies _ _ s.asked (λ l h e'. absurd (omega arith)) v.fresh);
    read = rw e tt;
    shown = inl (ground arith);
  }

  -- A page that shows the same as another one.
  IsOwn-same :
      (es : List (Ending R)) (s : Page R) (ls : List Load)
      → IsOwn es s
      → IsOwn es (record s { asked = ls })
  IsOwn-same _ s ls (last o) = last o

  -- A request that is not the current one.
  stale-Inv :
      (l : Load) (s : Page R) (es : List (Ending R))
      → l.run ≢ s.run
      → Inv s es
      → Inv (record s { asked = without l s.asked }) es
  unfolding is_loading
  stale-Inv l s es h v = record {
    fresh = All-filter _ _ s.asked v.fresh;
    own = All-filter _ _ s.asked v.own;
    read = v.read;
    shown =
        rw (any-without l s.run s.asked h)
          (elim v.shown [ inl on ↦ inl on | inr own ↦ inr (IsOwn-same es s _ own) ]);
  }

  -- The current request ends in a status of its own.
  ended-Inv :
      (l : Load) (r : Response) (t : Status) (s : Page R) (es : List (Ending R))
      → Outcome (answered r) s.token t s.report
      → Inv s es
      → Inv (record s { asked = without l s.asked; status = t }) (answered r ∷ es)
  ended-Inv l r t s es h v = record {
    fresh = All-filter _ _ s.asked v.fresh;
    own = All-filter _ _ s.asked v.own;
    read = v.read;
    shown = inr (last h);
  }

  -- The current request goes on to its body.
  reads-Inv :
      (l : Load) (s : Page R) (es : List (Ending R))
      → Among l s.asked
      → l.run ≡ s.run
      → Inv s es
      → Inv (record s { asked = without l s.asked; reading = l ∷ s.reading }) es
  unfolding is_loading
  reads-Inv l s es m e v = record {
    fresh = All-filter _ _ s.asked v.fresh;
    own = All-filter _ _ s.asked v.own;
    read = ((e, All-Among (λ k. k.run ≡ s.run → k.token ≡ s.token) m v.own e), v.read);
    shown = inl (ground arith);
  }

  no_entry-Outcome :
      (code : ℕ) (token : String) (o : Option (Report R))
      → (code == 403) ≡ true
      → Outcome (answered (responded code)) token forbidden o
  no_entry-Outcome code token o e = rw ((==_iff code 403).0 e) no_entry

  respond-Inv :
      (l : Load) (r : Response) (s : Page R) (es : List (Ending R))
      → Among l s.asked
      → Inv s es
      → Inv (respond l r s) (after_response l r s es)
  unfolding respond
  respond-Inv l rejected s es m v = elim (Bool-cases (l.run == s.run)) [
    | inl same ↦ rw same (ended-Inv l rejected error s es unreachable v)
    | inr other ↦ rw other (stale-Inv l s es (λ e. ground arith) v)
  ]
  respond-Inv l (responded code) s es m v = elim (Bool-cases (l.run == s.run)) [
    | inl same ↦ elim (Bool-cases (code == 403)) [
      | inl closed ↦
          rw (same, closed)
            (ended-Inv l (responded code) forbidden s es (no_entry-Outcome code _ _ closed) v)
      | inr entry ↦ elim (Bool-cases (is_ok code)) [
        | inl fine ↦ rw (same, entry, fine) (reads-Inv l s es m ((==_iff _ _).0 same) v)
        | inr bad ↦
            rw (same, entry, bad)
              (ended-Inv l (responded code) missing s es
                (not_there code (λ e. ground arith) (ground arith)) v)
      ]
    ]
    | inr other ↦ rw other (stale-Inv l s es (λ e. ground arith) v)
  ]

  is_current : (l : Load) (s : Page R) → l.run ≡ s.run → (l.run == s.run) ≡ true
  is_current l s e = ground arith

  shown-Outcome :
      (b : R) (token other : String)
      → other ≡ token
      → Outcome (read (some b)) token ok (some (record { token = other; body = b }))
  shown-Outcome b token other e = rw e (shown b)

  read_body-Inv :
      (l : Load) (b : Option R) (s : Page R) (es : List (Ending R))
      → Among l s.reading
      → Inv s es
      → Inv (read_body l b s) (after_body l b s es)
  unfolding read_body
  read_body-Inv l none s es m v =
      let e : l.run ≡ s.run = (All-Among (λ k. (k.run ≡ s.run) × (k.token ≡ s.token)) m v.read).0 in
      rw (is_current l s e) (record {
        fresh = v.fresh;
        own = v.own;
        read = All-filter _ _ s.reading v.read;
        shown = inr (last broken);
      })
  read_body-Inv l (some b) s es m v =
      let e = All-Among (λ k. (k.run ≡ s.run) × (k.token ≡ s.token)) m v.read in
      rw (is_current l s e.0) (record {
        fresh = v.fresh;
        own = v.own;
        read = All-filter _ _ s.reading v.read;
        shown = inr (last (shown-Outcome b s.token l.token e.1));
      })

  pub Reach-Inv : {s : Page R} {es : List (Ending R)} → Reach s es → Inv s es
  Reach-Inv (opens token authorized) = open_page-Inv token authorized
  Reach-Inv (moves {s} {es} token authorized r e) = move-Inv token authorized s es e (Reach-Inv r)
  Reach-Inv (responds {s} {es} l o r m) = respond-Inv l o s es m (Reach-Inv r)
  Reach-Inv (reads {s} {es} l b r m) = read_body-Inv l b s es m (Reach-Inv r)

-- If the page moves to another token, or another session, only while no body is being read: once the
-- requests for the token of the address have ended, in whatever order they and the earlier ones end,
-- one of them has ended the run, and the page shows what the last of them has to leave, whatever the
-- earlier ones gave: an error where there was no response or a broken body, "forbidden" after a 403,
-- "missing" after any other status that is no success, and after a body that could be read that
-- report, as sent for the token.
pub Reach-IsOwn {ℓ} :
    {R : Type ℓ} {s : Page R} {es : List (Ending R)}
    → Reach s es
    → is_loading s ≡ false
    → IsOwn es s
Reach-IsOwn r e = elim (Reach-Inv r).shown [ inl on ↦ cc | inr own ↦ own ]
