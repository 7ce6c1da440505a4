-- ===== src/Gui/Uptime/Timeline.antt =====
-- The intervals of crates/servicemanager-gui/src/metrics.rs are a timeline.
use ngsm.Prelude.{
  ℕ, ◌≤◌, ◌<◌, max, inl, inr, Option, none, some, List, [], ◌∷◌, ◌++◌, arith, ltb, Bool-cases,
}
use ngsm.Core.Model.{ServiceState}
use ngsm.Core.Events.{EventKind}
use ngsm.Gui.Uptime.{
  Interval, Progress, is_up_event, is_live, opened, closed, record_event, replay, finish,
  build_up_intervals,
}

-- Intervals that are not empty, disjoint and ordered, between two times.
abbrev pub Between : ℕ → List Interval → ℕ → Type 0
Between from [] to = from ≤ to
Between from ((s, e) ∷ rest) to = (from ≤ s) × (s < e) × Between e rest to

-- Events in the order of their times, from one time to another.
abbrev pub Ascending : ℕ → List (ℕ × EventKind) → ℕ → Type 0
Ascending from [] to = from ≤ to
Ascending from ((ts, kind) ∷ rest) to = (from ≤ ts) × Ascending ts rest to

Between-mono :
    (from : ℕ) (xs : List Interval) (a b : ℕ) → Between from xs a → a ≤ b → Between from xs b
Between-mono from [] a b h le = omega arith
Between-mono from ((s, e) ∷ rest) a b h le = (h.0, h.1, Between-mono e rest a b h.2 le)

Between-snoc :
    (from : ℕ) (xs : List Interval) (a s e : ℕ)
    → Between from xs a
    → a ≤ s
    → s < e
    → Between from (xs ++ ((s, e) ∷ [])) e
Between-snoc from [] a s e h le lt = (omega arith, lt, omega arith)
Between-snoc from ((s₁, e₁) ∷ rest) a s e h le lt = (h.0, h.1, Between-snoc e₁ rest a s e h.2 le lt)

-- What the loop keeps, at a time that no later event precedes.
abbrev IsSound : ℕ → ℕ → List Interval → Option ℕ → Type 0
IsSound start at xs none = Between start xs at
IsSound start at xs (some s) = Between start xs s × (s ≤ at)

closed-Between :
    (start at at' : ℕ) (xs : List Interval) (up : Option ℕ)
    → IsSound start at xs up
    → at ≤ at'
    → Between start (closed xs up at') at'
unfolding closed
closed-Between start at at' xs none h le = Between-mono start xs at at' h le
closed-Between start at at' xs (some s) h le = elim (Bool-cases (ltb s at')) [
  | inl longer ↦ rw longer (Between-snoc start xs s s at' h.0 (omega arith) (ground arith))
  | inr empty ↦ rw empty (Between-mono start xs s at' h.0 (omega (arith, h.1)))
]

opened-IsSound :
    (start at at' : ℕ) (xs : List Interval) (up : Option ℕ)
    → IsSound start at xs up
    → at ≤ at'
    → IsSound start at' xs (opened up at')
unfolding opened
opened-IsSound start at at' xs none h le = (Between-mono start xs at at' h le, omega arith)
opened-IsSound start at at' xs (some s) h le = (h.0, omega (arith, h.1))

record_event-IsSound :
    (start at at' : ℕ) (kind : EventKind) (p : Progress)
    → IsSound start at p.intervals p.up_since
    → at ≤ at'
    → IsSound start at' (record_event at' kind p).intervals (record_event at' kind p).up_since
unfolding record_event
record_event-IsSound start at at' kind p h le = elim (Bool-cases (is_up_event kind)) [
  | inl up ↦ rw up (opened-IsSound start at at' p.intervals p.up_since h le)
  | inr down ↦ rw down (closed-Between start at at' p.intervals p.up_since h le)
]

replay-IsSound :
    (start from now : ℕ) (events : List (ℕ × EventKind)) (p : Progress)
    → start ≤ now
    → Ascending from events now
    → IsSound start (max from start) p.intervals p.up_since
    → IsSound start now (replay start events p).intervals (replay start events p).up_since
unfolding replay
replay-IsSound start from now [] p order asc h = later p.intervals p.up_since h
  where
    later :
        (xs : List Interval) (up : Option ℕ)
        → IsSound start (max from start) xs up
        → IsSound start now xs up
    later xs none q = Between-mono start xs (max from start) now q (omega arith)
    later xs (some s) q = (q.0, omega (arith, q.1))
replay-IsSound start from now ((ts, kind) ∷ events) p order asc h =
    replay-IsSound start ts now events (record_event (max ts start) kind p) order asc.1
      (record_event-IsSound start (max from start) (max ts start) kind p h (omega (arith, asc.0)))

-- From events in the order of their times, none of them later than `now`, the up-intervals of a service
-- come out as a timeline: each has a length, each begins when the one before it has ended or later, and
-- all lie between `start` and `now`, also where events precede `start`.
pub build_up_intervals-Between :
    (events : List (ℕ × EventKind)) (start now : ℕ) (state : Option ServiceState)
    → start ≤ now
    → Ascending 0 events now
    → Between start (build_up_intervals events start now state).0 now
unfolding build_up_intervals finish
build_up_intervals-Between events start now state order asc =
    let p = replay start events (record { intervals = []; up_since = none }) in
    ended p.intervals p.up_since (
      replay-IsSound start 0 now events (record { intervals = []; up_since = none }) order asc
        (omega arith))
  where
    ended :
        (xs : List Interval) (up : Option ℕ)
        → IsSound start now xs up
        → Between start (finish now state (record { intervals = xs; up_since = up })).0 now
    ended xs none h = h
    ended xs (some s) h = elim (Bool-cases (is_live state)) [
      | inl live ↦ rw live (closed-Between start now now xs (some s) h (omega arith))
      | inr unknown ↦ rw unknown (Between-mono start xs s now h.0 h.1)
    ]
