-- ===== src/Supervisor/Transition/Waiting.antt =====
-- The bounded wait of crates/servicemanager-supervisor/src/transition.rs.
use ngsm.Prelude.{
  ℕ, ◌+◌, ◌≤◌, ◌<◌, ◌≡◌, refl, sym, ap, ◌∙◌, subst, ◌≢◌, ◌⊎◌, inl, inr, true, false, none, some,
  List, [], ◌∷◌, arith, leb, Bool-cases, Option-cases,
}
use ngsm.Result.{Result, err}
use ngsm.Text.{Text}
use ngsm.Supervisor.Transition.{
  TransitionOutcome, Phase, State, Round, queued, executing, finished, cancel, outcome, verdict,
  wait_tests, wait_loop, wait, still_pending,
}

-- A round is prompt if less than the five seconds of grace pass between its two clock readings.
abbrev pub Prompt : List Round → Type 0
Prompt [] = Unit
Prompt (r ∷ rs) = (r.later < r.now + 5000) × Prompt rs

-- Some round reads the clock after the hard deadline.
abbrev pub Expires : ℕ → List Round → Type 0
Expires hard [] = ⊥
Expires hard (r ∷ rs) = (hard ≤ r.later) ⊎ Expires hard rs

-- What a wait may answer: the verdict of the outcome that is stored, or that the request is pending. In the
-- second case it was asked to cancel, and is executing or has an outcome by then.
abbrev pub Answers : State → Result Text (Unit {0}) → Type 0
Answers s v =
    ((o : TransitionOutcome) × (outcome s ≡ some o) × (v ≡ verdict o))
    ⊎ ((v ≡ err still_pending) × (s.cancel_flag ≡ true) × (s.phase ≢ queued))

cancel_not_queued : (s : State) → ((cancel s).0.cancel_flag ≡ true) × ((cancel s).0.phase ≢ queued)
unfolding cancel
cancel_not_queued s = (refl, left s.phase)
  where
    left : (p : Phase) → (cancel (record { phase = p; cancel_flag = true })).0.phase ≢ queued
    left queued = λ e. cc
    left executing = λ e. cc
    left (finished o) = λ e. cc

tests_answer :
    (deadline : ℕ) (r : Round) (s s' : State) (v : Result Text (Unit {0}))
    → r.later < r.now + 5000
    → wait_tests deadline (deadline + 5000) r s ≡ (s', some v)
    → (v ≡ err still_pending) × (s'.cancel_flag ≡ true) × (s'.phase ≢ queued)
unfolding wait_tests
tests_answer deadline r s s' v prompt e = elim (Bool-cases (leb (deadline + 5000) r.later)) [
  | inr early ↦ cc (rw early at (ap (λ p. p.1) e))
  | inl late ↦
      let past : leb deadline r.now ≡ true = ground arith in
      let same : (cancel s).0 ≡ s' = rw past at (ap (λ p. p.0) e) in
      let pending : some (err still_pending) ≡ some v = rw late at (ap (λ p. p.1) e) in
      let facts = cancel_not_queued s in
      (
        cc pending,
        subst (λ t. t.cancel_flag ≡ true) same facts.0,
        subst (λ t. t.phase ≢ queued) same facts.1,
      )
]

module _ (deadline hard : ℕ) (r : Round) (rs : List Round) (s : State) where
  loop_settled :
      (o : TransitionOutcome)
      → outcome (r.meanwhile s) ≡ some o
      → wait_loop deadline hard (r ∷ rs) s ≡ (r.meanwhile s, some (verdict o))
  unfolding wait_loop
  loop_settled o e = ground arith

  loop_stops :
      outcome (r.meanwhile s) ≡ none
      → leb hard r.later ≡ true
      → wait_loop deadline hard (r ∷ rs) s ≡ wait_tests deadline hard r (r.between (r.meanwhile s))
  unfolding wait_loop
  loop_stops e late = ground arith

  loop_goes_on :
      outcome (r.meanwhile s) ≡ none
      → leb hard r.later ≡ false
      → wait_loop deadline hard (r ∷ rs) s
        ≡ wait_loop deadline hard rs (wait_tests deadline hard r (r.between (r.meanwhile s))).0
  unfolding wait_loop
  loop_goes_on e early = ground arith

loop_empty : (deadline hard : ℕ) (s : State) → wait_loop deadline hard [] s ≡ (s, none)
unfolding wait_loop
loop_empty deadline hard s = refl

wait_loop-Answers :
    (deadline : ℕ) (rs : List Round) (s s' : State) (v : Result Text (Unit {0}))
    → Prompt rs
    → wait_loop deadline (deadline + 5000) rs s ≡ (s', some v)
    → Answers s' v
wait_loop-Answers deadline [] s s' v p e = cc (loop_empty deadline (deadline + 5000) s)
wait_loop-Answers deadline (r ∷ rs) s s' v p e = elim (Option-cases (outcome (r.meanwhile s))) [
  | inr (o, settled) ↦
      let here = sym (loop_settled deadline (deadline + 5000) r rs s o settled) ∙ e in
      let same : r.meanwhile s ≡ s' = ap (λ t. t.0) here in
      inl (o, subst (λ t. outcome t ≡ some o) same settled, cc here)
  | inl pending ↦ elim (Bool-cases (leb (deadline + 5000) r.later)) [
    | inl late ↦ inr (
        tests_answer deadline r (r.between (r.meanwhile s)) s' v p.0
          (sym (loop_stops deadline (deadline + 5000) r rs s pending late) ∙ e))
    | inr early ↦
        wait_loop-Answers deadline rs
          (wait_tests deadline (deadline + 5000) r (r.between (r.meanwhile s))).0 s' v p.1
          (sym (loop_goes_on deadline (deadline + 5000) r rs s pending early) ∙ e)
  ]
]

-- A wait whose rounds are prompt (in each, less than five seconds pass between the two readings of the clock)
-- answers with the verdict of the outcome that is stored, or that the request is pending. In the second case its
-- cancellation flag is set and it is not queued: it is executing, or it has an outcome by then. Other threads may act between any two critical sections of the wait.
pub wait-Answers :
    (start timeout : ℕ) (rs : List Round) (s s' : State) (v : Result Text (Unit {0}))
    → Prompt rs
    → wait start timeout rs s ≡ (s', some v)
    → Answers s' v
unfolding wait
wait-Answers start timeout rs s s' v p e = wait_loop-Answers (start + timeout) rs s s' v p e

wait_loop_returns :
    (deadline hard : ℕ) (rs : List Round) (s : State)
    → Expires hard rs
    → (v : Result Text (Unit {0})) × ((wait_loop deadline hard rs s).1 ≡ some v)
wait_loop_returns deadline hard [] s x = absurd x
wait_loop_returns deadline hard (r ∷ rs) s x = elim (Option-cases (outcome (r.meanwhile s))) [
  | inr (o, settled) ↦ (verdict o, rw (loop_settled deadline hard r rs s o settled) refl)
  | inl pending ↦ elim (Bool-cases (leb hard r.later)) [
    | inl late ↦ (
      err still_pending,
      rw (loop_stops deadline hard r rs s pending late) (unfold wait_tests in rw late),
    )
    | inr early ↦ rw (loop_goes_on deadline hard r rs s pending early) (
        wait_loop_returns deadline hard rs
          (wait_tests deadline hard r (r.between (r.meanwhile s))).0
          (elim x [ inl late ↦ absurd (ground arith) | inr more ↦ more ]))
  ]
]

-- A wait ends: it answers at the latest in the first round that reads the clock five seconds after
-- its deadline.
pub wait_returns :
    (start timeout : ℕ) (rs : List Round) (s : State)
    → Expires (start + timeout + 5000) rs
    → (v : Result Text (Unit {0})) × ((wait start timeout rs s).1 ≡ some v)
unfolding wait
wait_returns start timeout rs s x =
    wait_loop_returns (start + timeout) (start + timeout + 5000) rs s x
