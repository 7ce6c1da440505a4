-- ===== src/Ops/Lifecycle/Started.antt =====
-- When the restart of crates/servicemanager-ops/src/lifecycle.rs starts the service.
use ngsm.Prelude.{
  ℕ, zero, suc, ◌-◌, min, ◌≡◌, refl, ap, ◌⊎◌, inl, inr, Bool, true, false, not, Option, none, some,
  leb, if◌then◌else◌, Bool-cases,
}
use ngsm.Text.{Text}
use ngsm.Result.{Result, ok, err}
use ngsm.Core.Error.{Error}
use ngsm.Core.Model.{is_disabled, counts_as_stopped}
use ngsm.Ops.Lifecycle.{
  RestartBackend, RestartSnapshot, is_stopped, poll_round, late_error, wait_for_stop, start_again,
  started_text, after_wait, after_stop, restart_known, stop_first, restart_allowed, restart_using,
}

module _ (b : RestartBackend) (name : Text) (stop_timeout_ms : ℕ) where
  -- The world `u` is that after a query which saw what `test` looks for.
  abbrev pub Seen : (RestartSnapshot → Bool) → b.World → Type 0
  Seen test u = (v : b.World) × (s : RestartSnapshot) × (b.query v ≡ (ok s, u)) × (test s ≡ true)

  -- The service is started in `u`: on a query that saw it inactive, or a quarter of a second after one
  -- that saw it stopped.
  abbrev pub IsStopped : b.World → Type 0
  IsStopped u =
      Seen (λ s. counts_as_stopped s.state) u
      ⊎ ((v : b.World) × Seen (λ s. is_stopped s.state) v × (u ≡ b.sleep 250 v))

  abbrev Waited : Option (Result Error (Unit {0})) × b.World → Type 0
  Waited (none, w) = Unit
  Waited (some (err e), w) = Unit
  Waited (some (ok u), w) = Seen (λ s. is_stopped s.state) w

  poll_round-Waited :
      (more : b.World → Option (Result Error (Unit {0})) × b.World) (began : ℕ) (v w : b.World)
      → ((u : b.World) → Waited (more u))
      → (r : Result Error RestartSnapshot) → b.query v ≡ (r, w)
      → Waited (poll_round b name stop_timeout_ms more began r w)
  unfolding poll_round
  poll_round-Waited more began v w again (err e) q = tt
  poll_round-Waited more began v w again (ok s) q = stopping (is_stopped s.state) refl
    where
      timing :
          (c : Bool)
          → Waited (
              if c
              then (some (err (late_error name stop_timeout_ms)), (b.now w).1)
              else more (b.sleep (min 200 (stop_timeout_ms - ((b.now w).0 - began))) (b.now w).1))
      timing true = tt
      timing false = again _

      stopping :
          (c : Bool)
          → is_stopped s.state ≡ c
          → Waited (
              if c
              then (some (ok tt), w)
              else if leb stop_timeout_ms ((b.now w).0 - began)
              then (some (err (late_error name stop_timeout_ms)), (b.now w).1)
              else more (b.sleep (min 200 (stop_timeout_ms - ((b.now w).0 - began))) (b.now w).1))
      stopping true done = (v, s, q, done)
      stopping false waiting = timing (leb stop_timeout_ms ((b.now w).0 - began))

  wait_for_stop-Waited :
      (fuel began : ℕ) (w : b.World) → Waited (wait_for_stop b name stop_timeout_ms fuel began w)
  unfolding wait_for_stop
  wait_for_stop-Waited zero began w = tt
  wait_for_stop-Waited (suc fuel) began w =
      poll_round-Waited (λ u. wait_for_stop b name stop_timeout_ms fuel began u) began w
        (b.query w).1 (λ u. wait_for_stop-Waited fuel began u) (b.query w).0 refl

  -- What a successful restart has done last.
  abbrev pub Restarted : Option (Result Error Text) × b.World → Type 0
  Restarted (none, w) = Unit
  Restarted (some (err e), w) = Unit
  Restarted (some (ok m), w) =
      ((u : b.World) × Seen (λ s. not (is_disabled s.startup)) u)
      × ((u : b.World) × IsStopped u × (b.start u ≡ (ok tt, w)))

  start_again-Restarted :
      (u : b.World)
      → ((v : b.World) × Seen (λ s. not (is_disabled s.startup)) v)
      → IsStopped u
      → Restarted (start_again b name stop_timeout_ms u)
  unfolding start_again
  start_again-Restarted u enabled idle = go (b.start u).0 refl
    where
      go :
          (r : Result Error (Unit {0}))
          → (b.start u).0 ≡ r
          → Restarted (some (started_text b name stop_timeout_ms r), (b.start u).1)
      go (err e) h = tt
      go (ok tt) h = (enabled, (u, idle, ap (λ r. (r, (b.start u).1)) h))

  after_wait-Restarted :
      (r : Option (Result Error (Unit {0}))) (w : b.World)
      → ((v : b.World) × Seen (λ s. not (is_disabled s.startup)) v)
      → Waited (r, w)
      → Restarted (after_wait b name stop_timeout_ms r w)
  unfolding after_wait
  after_wait-Restarted none w enabled h = tt
  after_wait-Restarted (some (err e)) w enabled h = tt
  after_wait-Restarted (some (ok u)) w enabled h =
      start_again-Restarted (b.sleep 250 w) enabled (inr (w, h, refl))

  after_stop-Restarted :
      (r : Result Error (Unit {0})) (w : b.World)
      → ((v : b.World) × Seen (λ s. not (is_disabled s.startup)) v)
      → Restarted (after_stop b name stop_timeout_ms r w)
  unfolding after_stop
  after_stop-Restarted (err e) w enabled = tt
  after_stop-Restarted (ok u) w enabled =
      let waited = wait_for_stop-Waited (suc stop_timeout_ms) (b.now w).0 (b.now w).1 in
      after_wait-Restarted
        (wait_for_stop b name stop_timeout_ms (suc stop_timeout_ms) (b.now w).0 (b.now w).1).0
        (wait_for_stop b name stop_timeout_ms (suc stop_timeout_ms) (b.now w).0 (b.now w).1).1
        enabled waited

  restart_known-Restarted :
      (r : Result Error RestartSnapshot) (v w : b.World)
      → b.query v ≡ (r, w)
      → Restarted (restart_known b name stop_timeout_ms r w)
  unfolding restart_known
  restart_known-Restarted (err e) v w q = tt
  restart_known-Restarted (ok s) v w q = elim (Bool-cases (is_disabled s.startup)) [
    | inl off ↦ rw off tt
    | inr on ↦
        let enabled : ((u : b.World) × Seen (λ t. not (is_disabled t.startup)) u) =
          (w, (v, s, q, rw on refl)) in
        elim (Bool-cases (counts_as_stopped s.state)) [
          | inl idle ↦ rw (on, idle) (start_again-Restarted w enabled (inl (v, s, q, idle)))
          | inr active ↦
              rw (on, active)
                (after_stop-Restarted (stop_first b name stop_timeout_ms s w).0
                  (stop_first b name stop_timeout_ms s w).1 enabled)
        ]
  ]

  restart_allowed-Restarted :
      (r : Result Error (Unit {0})) (w : b.World)
      → Restarted (restart_allowed b name stop_timeout_ms r w)
  unfolding restart_allowed
  restart_allowed-Restarted (err e) w = tt
  restart_allowed-Restarted (ok u) w = restart_known-Restarted (b.query w).0 w (b.query w).1 refl

  -- A restart that reports success ended with a successful start of the service. A query had seen that
  -- the service is not disabled; and the start came right after a query that saw the service
  -- inactive, or 250 milliseconds after one that saw it stopped.
  pub restart_using-Restarted :
      (force_native : Bool) (w : b.World)
      → Restarted (restart_using b name stop_timeout_ms force_native w)
  unfolding restart_using
  restart_using-Restarted true w = restart_allowed-Restarted (ok tt) w
  restart_using-Restarted false w =
      restart_allowed-Restarted (b.ensure_managed w).0 (b.ensure_managed w).1
