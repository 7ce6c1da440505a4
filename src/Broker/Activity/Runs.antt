-- ===== src/Broker/Activity/Runs.antt =====
-- The runs of the threads of a broker (crates/servicemanager-broker/src/pipe.rs) that share an activity.
use ngsm.Prelude.{ℕ, ◌+◌, ◌-◌, ◌<◌, ◌≡◌, refl, inl, inr, Bool, true, false, ◌||◌, arith, Bool-cases}
use ngsm.Broker.Activity.{
  ActivityState, new_activity, admit_at, finish_work, drain, claim_idle_shutdown,
}

-- A call of a thread. A guard is dropped once, and only one that was given.
pub data Call : Type 0 where
  admit : Bool → ℕ → Call
  drop_guard : Bool → ℕ → Call
  claim : ℕ → ℕ → Call

-- The state, with the guards that are held: those of authenticated work, and the others.
pub record Server : Type 0 where
  pub activity : ActivityState
  pub authenticated : ℕ
  pub others : ℕ

abbrev pub start : ℕ → Server
start now = record { activity = new_activity now; authenticated = 0; others = 0 }

abbrev pub given : Bool → Bool × ActivityState → Server → Server
given is_authenticated (false, s) server = record server { activity = s }
given true (true, s) server = record server {
  activity = s;
  authenticated = server.authenticated + 1;
}
given false (true, s) server = record server { activity = s; others = server.others + 1 }

unfoldable pub after : Call → Server → Server
unfolding admit_at finish_work claim_idle_shutdown
after (admit is_authenticated now) server =
    given is_authenticated (admit_at is_authenticated now server.activity) server
after (drop_guard true now) server = record server {
  activity = finish_work true now server.activity;
  authenticated = server.authenticated - 1;
}
after (drop_guard false now) server = record server {
  activity = finish_work false now server.activity;
  others = server.others - 1;
}
after (claim now timeout) server = record server {
  activity = (claim_idle_shutdown now timeout server.activity).1;
}

-- A guard can be dropped only while it is held.
abbrev pub CanCall : Call → Server → Type 0
CanCall (admit is_authenticated now) server = Unit
CanCall (drop_guard true now) server = 0 < server.authenticated
CanCall (drop_guard false now) server = 0 < server.others
CanCall (claim now timeout) server = Unit

-- A run of calls, in the order in which they take the lock.
pub data Run (first : Server) : Server → Type 0 where
  here : Run first first
  next :
      {server : Server}
      → Run first server
      → (call : Call) → CanCall call server
      → Run first (after call server)

-- The counters are the numbers of the guards that are held, and a shutdown that was claimed leaves none.
pub record IsConsistent (server : Server) : Type 0 where
  pub active : server.activity.active_work ≡ server.authenticated + server.others
  pub authenticated_work : server.activity.authenticated_work ≡ server.authenticated
  pub claimed : server.activity.shutdown_claimed ≡ true → server.activity.active_work ≡ 0
  pub drained : server.activity.shutdown_claimed ≡ true → server.activity.draining ≡ true

start-IsConsistent : (now : ℕ) → IsConsistent (start now)
unfolding new_activity
start-IsConsistent now = record {
  active = refl;
  authenticated_work = refl;
  claimed = λ h. cc;
  drained = λ h. cc;
}

opened-IsConsistent :
    (is_authenticated : Bool) (now : ℕ) (server : Server)
    → IsConsistent server
    → (server.activity.draining || server.activity.shutdown_claimed) ≡ false
    → IsConsistent (after (admit is_authenticated now) server)
unfolding after admit_at
opened-IsConsistent true now server i opened = rw opened (record {
  active = ground arith;
  authenticated_work = ground arith;
  claimed = λ h. ground arith;
  drained = i.drained;
})
opened-IsConsistent false now server i opened = rw opened (record {
  active = ground arith;
  authenticated_work = ground arith;
  claimed = λ h. ground arith;
  drained = i.drained;
})

admit-IsConsistent :
    (is_authenticated : Bool) (now : ℕ) (server : Server)
    → IsConsistent server
    → IsConsistent (after (admit is_authenticated now) server)
unfolding after admit_at
admit-IsConsistent is_authenticated now server i =
    elim (Bool-cases (server.activity.draining || server.activity.shutdown_claimed)) [
      | inl closed ↦ rw closed (record {
        active = i.active;
        authenticated_work = i.authenticated_work;
        claimed = i.claimed;
        drained = i.drained;
      })
      | inr opened ↦ opened-IsConsistent is_authenticated now server i opened
    ]

after-IsConsistent :
    (call : Call) (server : Server)
    → CanCall call server
    → IsConsistent server
    → IsConsistent (after call server)
unfolding after finish_work claim_idle_shutdown drain
after-IsConsistent (admit is_authenticated now) server c i =
    admit-IsConsistent is_authenticated now server i
after-IsConsistent (drop_guard true now) server c i = record {
  active = ground arith;
  authenticated_work = ground arith;
  claimed = λ h. ground arith;
  drained = i.drained;
}
after-IsConsistent (drop_guard false now) server c i = record {
  active = ground arith;
  authenticated_work = ground arith;
  claimed = λ h. ground arith;
  drained = i.drained;
}
after-IsConsistent (claim now timeout) server c i = record {
  active = ground arith;
  authenticated_work = ground arith;
  claimed = λ h. ground arith;
  drained = λ h. ground arith;
}

-- In every run from a new activity, whatever the threads do, `active_work` and `authenticated_work` are the numbers of the
-- guards that are held, and a shutdown that was claimed leaves no guard and keeps the activity draining.
pub Run-IsConsistent : (now : ℕ) (server : Server) → Run (start now) server → IsConsistent server
Run-IsConsistent now _ here = start-IsConsistent now
Run-IsConsistent now _ (next {server} run call can) =
    after-IsConsistent call server can (Run-IsConsistent now server run)
