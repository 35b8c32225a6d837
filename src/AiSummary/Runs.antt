-- ===== src/AiSummary/Runs.antt =====
-- useAiSummary.js: the invariant of its runs, and requests that are no longer current.
use lawn_eve_intel_dashboard.Common.{
  ℕ, suc, ◌<◌, ◌≡◌, refl, ap, ◌∙◌, ◌≢◌, ◌⊎◌, inl, inr, true, false, not, ◌&&◌, Option, none, some,
  List, [], ◌∷◌, arith, ◌==◌, ==_iff, ==_refl, Bool-cases, filter, All, All-filter,
}
use lawn_eve_intel_dashboard.AiSummary.{
  State, Outcome, answered, failed, abort_error, init, mem, abort_signal, reset, generate,
  is_current, receive, finish, settle, Possible, Step, edits, asks, ends, Reach, start, after,
}

pub record Inv (s : State) : Type 0 where
  pub fresh : All (λ k. k < s.next) s.pending
  pub fresh_aborted : All (λ k. k < s.next) s.aborted
  pub current :
      (k : ℕ)
      → s.active ≡ some k
      → (mem k s.pending ≡ true) × (mem k s.aborted ≡ false) × (s.generating ≡ true)
  pub stale : (k : ℕ) → mem k s.pending ≡ true → (s.active ≡ some k) ⊎ (mem k s.aborted ≡ true)

All-lt-suc : (n : ℕ) (ks : List ℕ) → All (λ k. k < n) ks → All (λ k. k < suc n) ks
All-lt-suc n [] h = tt
All-lt-suc n (k ∷ ks) h = (omega arith, All-lt-suc n ks h.1)

not-mem-fresh : (n : ℕ) (ks : List ℕ) → All (λ k. k < n) ks → mem n ks ≡ false
not-mem-fresh n [] h = refl
not-mem-fresh n (k ∷ ks) h = ground (arith, h.0, not-mem-fresh n ks h.1)

mem-lt : (n k : ℕ) (ks : List ℕ) → All (λ j. j < n) ks → mem k ks ≡ true → k < n
mem-lt n k [] h m = cc
mem-lt n k (j ∷ ks) h m = ground (arith, h.0, mem-lt n k ks h.1)

init-Inv : Inv init
unfolding init
init-Inv = record { fresh = tt; fresh_aborted = tt; current = λ k e. cc; stale = λ k m. cc }

abort-fresh :
    (o : Option ℕ) (n : ℕ) (s : State)
    → Inv s
    → s.active ≡ o
    → All (λ k. k < s.next) (abort_signal o s.aborted)
abort-fresh none n s v e = v.fresh_aborted
abort-fresh (some k) n s v e =
    (mem-lt s.next k s.pending v.fresh (v.current k e).0, v.fresh_aborted)

-- An aborted controller, and every older request, is aborted.
abort-stale :
    (o : Option ℕ) (s : State) (k : ℕ)
    → Inv s
    → s.active ≡ o
    → mem k s.pending ≡ true
    → mem k (abort_signal o s.aborted) ≡ true
abort-stale none s k v e m = elim (v.stale k m) [ inl live ↦ cc | inr gone ↦ gone ]
abort-stale (some j) s k v e m = elim (v.stale k m) [
  | inl live ↦ ground (arith, live, e)
  | inr gone ↦ ground (arith, gone)
]

reset-Inv : (s : State) → Inv s → Inv (reset s)
unfolding reset
reset-Inv s v = record {
  fresh = v.fresh;
  fresh_aborted = abort-fresh s.active s.next s v refl;
  current = λ k e. cc;
  stale = λ k m. inr (abort-stale s.active s k v refl m);
}

generate-Inv : (s : State) → Inv s → Inv (generate s)
unfolding generate
generate-Inv s v = record {
  fresh = (omega arith, All-lt-suc s.next s.pending v.fresh);
  fresh_aborted = All-lt-suc s.next _ (abort-fresh s.active s.next s v refl);
  current = λ k e.
      let same : s.next ≡ k = ground arith in
      rw (← same) (
        rw (==_refl s.next) refl,
        not-mem-fresh s.next _ (abort-fresh s.active s.next s v refl),
        refl,
      );
  stale = λ k m. elim (Bool-cases (s.next == k)) [
    | inl same ↦ inl (ap some ((==_iff s.next k).0 same))
    | inr other ↦ inr (abort-stale s.active s k v refl (rw other at m))
  ];
}

mem-filter :
    (j k : ℕ) (ks : List ℕ) → mem j (filter (λ i. not (i == k)) ks) ≡ (mem j ks && not (j == k))
mem-filter j k [] = refl
mem-filter j k (i ∷ ks) = ground (arith, mem-filter j k ks)

abbrev ended : ℕ → State → State
ended k s = record s { pending = filter (λ i. not (i == k)) s.pending }

-- What is shown, and what is in flight, are set apart from one another.
settle-receive : (k : ℕ) (o : Outcome) (s : State) → settle k o s ≡ receive o (finish k (ended k s))
unfolding settle
settle-receive k (answered text) s = elim (Bool-cases (is_current k s.active)) [
  | inl live ↦ rw live refl
  | inr gone ↦ rw gone refl
]
settle-receive k (failed message) s = elim (Bool-cases (is_current k s.active)) [
  | inl live ↦ rw live refl
  | inr gone ↦ rw gone refl
]
settle-receive k abort_error s = refl

receive-Inv : (o : Outcome) (s : State) → Inv s → Inv (receive o s)
receive-Inv (answered text) s v = record {
  fresh = v.fresh;
  fresh_aborted = v.fresh_aborted;
  current = v.current;
  stale = v.stale;
}
receive-Inv (failed message) s v = record {
  fresh = v.fresh;
  fresh_aborted = v.fresh_aborted;
  current = v.current;
  stale = v.stale;
}
receive-Inv abort_error s v = v

-- Where the request is current, and where it is not.
finish-Inv_current :
    (k : ℕ) (s : State)
    → Inv s
    → s.active ≡ some k
    → Inv (record (ended k s) { generating = false; active = none })
finish-Inv_current k s v e = record {
  fresh = All-filter _ (λ i. not (i == k)) s.pending v.fresh;
  fresh_aborted = v.fresh_aborted;
  current = λ j h. cc;
  stale = λ j m. elim (v.stale j (ground (arith, mem-filter j k s.pending))) [
    | inl live ↦ absurd (ground (arith, mem-filter j k s.pending, live, e))
    | inr gone ↦ inr gone
  ];
}

finish-Inv_other : (k : ℕ) (s : State) → Inv s → is_current k s.active ≡ false → Inv (ended k s)
finish-Inv_other k s v e = record {
  fresh = All-filter _ (λ i. not (i == k)) s.pending v.fresh;
  fresh_aborted = v.fresh_aborted;
  current = λ j h.
      let (there, live, on) = v.current j h in
      (mem-filter j k s.pending ∙ rw (there, other j h) refl, live, on);
  stale = λ j m. v.stale j (ground (arith, mem-filter j k s.pending));
}
  where
    other : (j : ℕ) → s.active ≡ some j → (j == k) ≡ false
    other j h = rw h at e

current_of_test : (k : ℕ) (o : Option ℕ) → is_current k o ≡ true → o ≡ some k
current_of_test k none h = cc
current_of_test k (some j) h = ap some ((==_iff j k).0 h)

settle-Inv : (k : ℕ) (o : Outcome) (s : State) → Inv s → Inv (settle k o s)
settle-Inv k o s v = rw (settle-receive k o s) (
    receive-Inv o (finish k (ended k s)) (elim (Bool-cases (is_current k s.active)) [
      | inl live ↦ rw live (finish-Inv_current k s v (current_of_test k s.active live))
      | inr gone ↦ rw gone (finish-Inv_other k s v gone)
    ]))

pub Step-Inv : {s t : State} → Step s t → Inv s → Inv t
Step-Inv {s} edits v = reset-Inv s v
Step-Inv {s} asks v = generate-Inv s v
Step-Inv {s} (ends k o m p) v = settle-Inv k o s v

pub Reach-Inv : {s : State} → Reach s → Inv s
Reach-Inv start = init-Inv
Reach-Inv (after r st) = Step-Inv st (Reach-Inv r)

not_current : (k : ℕ) (o : Option ℕ) → o ≢ some k → is_current k o ≡ false
not_current k none h = refl
not_current k (some j) h = elim (Bool-cases (j == k)) [
  | inl same ↦ absurd (h (ap some ((==_iff j k).0 same)))
  | inr other ↦ other
]

settle_aborted :
    (s : State) (k : ℕ) (o : Outcome)
    → Possible k o s.aborted
    → mem k s.aborted ≡ true
    → is_current k s.active ≡ false
    → ((settle k o s).summary ≡ s.summary)
      × ((settle k o s).error ≡ s.error)
      × ((settle k o s).generating ≡ s.generating)
      × ((settle k o s).active ≡ s.active)
unfolding settle
settle_aborted s k (answered text) p gone e = cc
settle_aborted s k (failed message) p gone e = cc
settle_aborted s k abort_error p gone e = rw e (refl, refl, refl, refl)

-- In any state that the hook can reach, the end of a request that is not the current one leaves the
-- summary, the error, the spinner and the current request as they are.
pub settle_stale :
    (s : State) (k : ℕ) (o : Outcome)
    → Reach s
    → mem k s.pending ≡ true
    → Possible k o s.aborted
    → s.active ≢ some k
    → ((settle k o s).summary ≡ s.summary)
      × ((settle k o s).error ≡ s.error)
      × ((settle k o s).generating ≡ s.generating)
      × ((settle k o s).active ≡ s.active)
settle_stale s k o r m p other = elim ((Reach-Inv r).stale k m) [
  | inl live ↦ absurd (other live)
  | inr gone ↦ settle_aborted s k o p gone (not_current k s.active other)
]
