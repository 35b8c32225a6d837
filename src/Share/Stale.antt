-- ===== src/Share/Stale.antt =====
-- SharePage.jsx: a body that is still being read when the page moves on.
use lawn_eve_intel_dashboard.Common.{
  ℕ, suc, ◌≤◌, ◌≡◌, refl, ◌∙◌, ap, String, Bool, true, false, some, List, [], ◌∷◌, arith, ◌==◌, any,
  All, All-filter, All-implies,
}
use lawn_eve_intel_dashboard.Share.{
  ok, Load, Page, Response, responded, rejected, move, without, respond, read_body, is_loading,
}
use lawn_eve_intel_dashboard.Share.Endings.{Among, Ending, starts_reading, Reach}
use lawn_eve_intel_dashboard.Share.Loads.{All-Among, Reach-Inv}

any-fresh :
    (n : ℕ) (ls : List Load) → All (λ l. l.run ≤ n) ls → any (λ k. k.run == suc n) ls ≡ false
any-fresh n [] h = refl
any-fresh n (l ∷ ls) h = ground (arith, h.0, any-fresh n ls h.1)

any-fresh_asked :
    (n : ℕ) (token : String) (ls : List Load)
    → All (λ l. l.run ≤ n) ls
    → any
        (λ k. k.run == suc n)
        (without
          (record { run = suc n; token = token })
          (record { run = suc n; token = token } ∷ ls))
      ≡ false
any-fresh_asked n token ls h =
    let e : (suc n == suc n) ≡ true = ground arith in
    rw e (any-fresh n (without (record { run = suc n; token = token }) ls) (All-filter _ _ ls h))

module _ {ℓ} {R : Type ℓ} where
  -- The page moves on, its request ends, and then a body of before is read.
  abbrev pub overtaken : Load → R → String → Bool → Response → Page R → Page R
  overtaken l b token authorized r s =
      read_body l (some b)
        (respond (record { run = suc s.run; token = token }) r (move token authorized s))

  overtaken-asked :
      (l : Load) (b : R) (token : String) (authorized : Bool) (r : Response) (s : Page R)
      → (overtaken l b token authorized r s).asked
        ≡ without
            (record { run = suc s.run; token = token })
            (record { run = suc s.run; token = token } ∷ s.asked)
  unfolding read_body respond move
  overtaken-asked l b token authorized rejected s = ground arith
  overtaken-asked l b token authorized (responded code) s = ground arith

  overtaken-reading :
      (l : Load) (b : R) (token : String) (authorized : Bool) (r : Response) (s : Page R)
      → starts_reading r ≡ false
      → (overtaken l b token authorized r s).reading ≡ without l s.reading
  unfolding read_body respond move
  overtaken-reading l b token authorized rejected s h = ground arith
  overtaken-reading l b token authorized (responded code) s h = ground arith

  overtaken-run :
      (l : Load) (b : R) (token : String) (authorized : Bool) (r : Response) (s : Page R)
      → ((overtaken l b token authorized r s).run ≡ suc s.run)
        × ((overtaken l b token authorized r s).token ≡ token)
  unfolding read_body respond move
  overtaken-run l b token authorized rejected s = (ground arith, ground arith)
  overtaken-run l b token authorized (responded code) s = (ground arith, ground arith)

  overtaken-loading :
      (l : Load) (b : R) (token : String) (authorized : Bool) (r : Response) (s : Page R)
      → starts_reading r ≡ false
      → All (λ k. k.run ≤ s.run) s.asked
      → All (λ k. k.run ≤ s.run) s.reading
      → is_loading (overtaken l b token authorized r s) ≡ false
  unfolding is_loading
  overtaken-loading l b token authorized r s h asked reading =
      rw
        (
          overtaken-asked l b token authorized r s,
          overtaken-reading l b token authorized r s h,
          (overtaken-run l b token authorized r s).0,
          any-fresh_asked s.run token s.asked asked,
          any-fresh s.run (without l s.reading) (All-filter _ _ s.reading reading),
        )
        refl

  shown-overtaken :
      (l : Load) (b : R) (token : String) (authorized : Bool) (r : Response) (s : Page R)
      → ((overtaken l b token authorized r s).status ≡ ok)
        × ((overtaken l b token authorized r s).report
            ≡ some (record { token = l.token; body = b }))
  unfolding read_body
  shown-overtaken l b token authorized r s = (refl, refl)

  -- If the page moves on to another token, or another session, while the body of a report is being
  -- read, and its new request ends without a report, "forbidden" included, before that body has been
  -- read, then nothing of the new run is under way any more, and the page shows, with the status ok,
  -- the report of the token that it had before.
  pub stale_body :
      (s : Page R) (es : List (Ending R)) (l : Load) (b : R) (token : String) (authorized : Bool)
      (r : Response)
      → Reach s es
      → Among l s.reading
      → starts_reading r ≡ false
      → (is_loading (overtaken l b token authorized r s) ≡ false)
        × ((overtaken l b token authorized r s).token ≡ token)
        × ((overtaken l b token authorized r s).status ≡ ok)
        × ((overtaken l b token authorized r s).report
            ≡ some (record { token = s.token; body = b }))
  stale_body s es l b token authorized r run m h =
      let v = Reach-Inv run in
      let own = (All-Among (λ k. (k.run ≡ s.run) × (k.token ≡ s.token)) m v.read).1 in
      let shown = shown-overtaken l b token authorized r s in
      (
        overtaken-loading l b token authorized r s h v.fresh
            (All-implies _ _ s.reading (λ k e. omega (arith, e.0)) v.read),
        (overtaken-run l b token authorized r s).1,
        shown.0,
        shown.1 ∙ ap (λ t. some (record { token = t; body = b })) own,
      )
