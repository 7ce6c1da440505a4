-- ===== src/Broker/Activity/Shutdown.antt =====
-- The claim of the idle shutdown of crates/servicemanager-broker/src/pipe.rs, in the runs of Broker/Activity/Runs.
use ngsm.Prelude.{ℕ, ◌+◌, ◌≡◌, sym, ◌∙◌, Bool, true, false, ◌||◌, arith}
use ngsm.Broker.Activity.{ActivityState, admit_at, finish_work, drain, claim_idle_shutdown}
use ngsm.Broker.Activity.Runs.{
  Call, Server, start, after, Run, Run-IsConsistent, admit, drop_guard, claim, here, next,
}

-- No call takes back a claim.
after-claimed :
    (call : Call) (server : Server)
    → server.activity.shutdown_claimed ≡ true
    → (after call server).activity.shutdown_claimed ≡ true
unfolding after admit_at finish_work claim_idle_shutdown drain
after-claimed (admit is_authenticated now) server claimed = rw claimed_guard claimed
  where
    claimed_guard : (server.activity.draining || server.activity.shutdown_claimed) ≡ true
    claimed_guard = ground arith
after-claimed (drop_guard true now) server claimed = claimed
after-claimed (drop_guard false now) server claimed = claimed
after-claimed (claim now timeout) server claimed = ground arith

Run-append : {first middle last : Server} → Run first middle → Run middle last → Run first last
Run-append run here = run
Run-append run (next rest call can) = next (Run-append run rest) call can

Run-claimed :
    {first last : Server}
    → first.activity.shutdown_claimed ≡ true
    → Run first last
    → last.activity.shutdown_claimed ≡ true
Run-claimed claimed here = claimed
Run-claimed claimed (next {server} run call can) =
    after-claimed call server (Run-claimed claimed run)

claimed-refused :
    (s : ActivityState)
    → s.shutdown_claimed ≡ true
    → ((is_authenticated : Bool) (t : ℕ) → (admit_at is_authenticated t s).0 ≡ false)
      × ((t limit : ℕ) → (claim_idle_shutdown t limit s).0 ≡ false)
unfolding admit_at claim_idle_shutdown
claimed-refused s claimed = (λ is_authenticated t. ground arith, λ t limit. ground arith)

claim-idle :
    (s : ActivityState) (t limit : ℕ) → (claim_idle_shutdown t limit s).0 ≡ true → s.active_work ≡ 0
unfolding claim_idle_shutdown drain
claim-idle s t limit h = ground arith

claim-claimed :
    (server : Server) (t limit : ℕ)
    → (claim_idle_shutdown t limit server.activity).0 ≡ true
    → (after (claim t limit) server).activity.shutdown_claimed ≡ true
unfolding after claim_idle_shutdown
claim-claimed server t limit h = ground arith

-- In every run from a new activity, when a claim of the shutdown is granted, no guard is held then nor at any later state of
-- the run, every later admission is refused, and no later claim is granted.
pub claim-IsFinal :
    (now : ℕ) (server : Server) (t limit : ℕ) (later : Server)
    → Run (start now) server
    → (claim_idle_shutdown t limit server.activity).0 ≡ true
    → Run (after (claim t limit) server) later
    → (server.authenticated + server.others ≡ 0)
      × (later.authenticated + later.others ≡ 0)
      × ((is_authenticated : Bool) (u : ℕ) → (admit_at is_authenticated u later.activity).0 ≡ false)
      × ((u d : ℕ) → (claim_idle_shutdown u d later.activity).0 ≡ false)
claim-IsFinal now server t limit later run granted rest =
    let claimed = Run-claimed (claim-claimed server t limit granted) rest in
    let i = Run-IsConsistent now later (Run-append (next run (claim t limit) tt) rest) in
    (
      sym (Run-IsConsistent now server run).active ∙ claim-idle server.activity t limit granted,
      sym i.active ∙ i.claimed claimed,
      (claimed-refused later.activity claimed).0,
      (claimed-refused later.activity claimed).1,
    )
