-- ===== src/Broker/Activity.antt =====
-- The admission of work and the idle shutdown of crates/servicemanager-broker/src/pipe.rs. Each method takes the lock of the
-- state for its whole body, so a run of several threads is a sequence of calls.
pub mod Runs
pub mod Shutdown
use ngsm.Prelude.{
  ℕ, zero, suc, ◌+◌, ◌-◌, ◌*◌, ◌/◌, ◌%◌, ◌^◌, ◌≤◌, ◌<◌, min, max, String, ◌≡◌, refl, sym, ap, ◌∙◌,
  subst, ◌≢◌, ◌↔◌, ◌⊎◌, inl, inr, Bool, true, false, not, ◌&&◌, ◌||◌, Option, none, some, List, [],
  ◌∷◌, ◌++◌, map, reverse, arith, ltb, leb, ◌==◌, if◌then◌else◌, ==_iff, ==_refl, &&-left, &&-right,
  ||-left, ||-right, Bool-cases, Option-cases, length, length-append, get_elem?, take, drop,
  replicate, any, all, find, retain, span_not, is_some, is_none, get_or, is_some_and,
}

pub record ActivityState : Type 0 where
  pub last_activity : ℕ
  pub active_work : ℕ
  pub authenticated_work : ℕ
  pub draining : Bool
  pub shutdown_claimed : Bool

unfoldable pub new_activity : ℕ → ActivityState
new_activity now = record {
  last_activity = now;
  active_work = 0;
  authenticated_work = 0;
  draining = false;
  shutdown_claimed = false;
}

-- The answer says whether a guard is given, which `finish_work` is called for when it is dropped.
unfoldable pub admit_at : Bool → ℕ → ActivityState → Bool × ActivityState
admit_at authenticated now s = if s.draining || s.shutdown_claimed then (false, s) else (
  true,
  record s {
    active_work = s.active_work + 1;
    authenticated_work = if authenticated then s.authenticated_work + 1 else s.authenticated_work;
    last_activity = if authenticated then now else s.last_activity;
  },
)

-- A counter stops at 0 here; the source panics or wraps there.
unfoldable pub finish_work : Bool → ℕ → ActivityState → ActivityState
finish_work authenticated now s = record s {
  active_work = s.active_work - 1;
  authenticated_work = if authenticated then s.authenticated_work - 1 else s.authenticated_work;
  last_activity = if authenticated then now else s.last_activity;
}

-- `saturating_duration_since` stops at 0, as subtraction does.
unfoldable pub drain : ℕ → ℕ → ActivityState → ActivityState
drain now timeout s = record s { draining = s.draining || leb timeout (now - s.last_activity) }

unfoldable pub claim_idle_shutdown : ℕ → ℕ → ActivityState → Bool × ActivityState
unfolding drain
claim_idle_shutdown now timeout s =
    if s.shutdown_claimed || not (s.authenticated_work == 0)
    then (false, s)
    else if (drain now timeout s).draining && s.active_work == 0
    then (true, record (drain now timeout s) { shutdown_claimed = true })
    else (false, drain now timeout s)
