-- ===== src/Sync/Runs.antt =====
-- The runs of the workers of src/sync/.
use redis_pool.Base.{ℕ, List, ◌<◌, ◌≡◌, refl, true, false, none, some, arith, ◌==◌}
use redis_pool.Sync.{
  Sync, SyncArgs, Event, events_of, call_sync, process_kind, thread_kind, not_start,
  process_main_start, process_child_start, thread_started,
}
use redis_pool.Sync.Order.{IsRun, events_of-IsRun}
use redis_pool.Sync.Process.{
  Fork, child, parent, returns, exits, process_join, process_deal, deal_and_exit, process_start,
}
use redis_pool.Sync.Thread.{thread_join, thread_start, thread_deal}

-- A worker that has not been started.
pub record IsNew (kind : ℕ) (sc : Sync) (a : SyncArgs) : Type 0 where
  pub kind_is : sc.kind ≡ kind
  pub start_is : sc.start ≡ not_start
  pub args_are : sc.args ≡ some a

process_deal-child :
    (sc : Sync) (a : SyncArgs) (pid : ℕ)
    → IsNew process_kind sc a
    → process_deal (record sc { id = pid; start = process_child_start }) ≡ some (events_of a pid)
unfolding process_deal call_sync
process_deal-child sc a pid new =
    let kind : (sc.kind == process_kind) ≡ true = ground (arith, new.kind_is) in
    rw (kind, new.args_are) refl

thread_start-new :
    (sc : Sync) (a : SyncArgs) (tid : ℕ)
    → IsNew thread_kind sc a
    → thread_start tid sc ≡ record sc { id = tid }
unfolding thread_start
thread_start-new sc a tid new =
    let kind : (sc.kind == thread_kind) ≡ true = ground (arith, new.kind_is) in
    let start : (sc.start == not_start) ≡ true = ground (arith, new.start_is) in
    rw (kind, start) refl

thread_deal-new :
    (sc : Sync) (a : SyncArgs) (tid : ℕ)
    → IsNew thread_kind sc a
    → ((thread_deal (record sc { id = tid })).events ≡ some (events_of a tid))
      × ((thread_deal (record sc { id = tid })).sync.start ≡ thread_started)
unfolding thread_deal call_sync
thread_deal-new sc a tid new =
    let kind : (sc.kind == thread_kind) ≡ true = ground (arith, new.kind_is) in
    let start : (sc.start == not_start) ≡ true = ground (arith, new.start_is) in
    (rw (kind, start, new.args_are) refl, rw (kind, start, new.args_are) refl)

thread_join-new :
    (sc : Sync) (a : SyncArgs) (tid : ℕ)
    → IsNew thread_kind sc a
    → thread_join (record sc { id = tid }) ≡ none
unfolding thread_join
thread_join-new sc a tid new = ground (arith, new.start_is)

-- For a new process worker that is not to be detached, and a child with a positive id: processStart in
-- the child calls each callback that is there once, and no other, in the order start, run, end, with the
-- child's id and the result of the run for the end, frees that result once behind them unless it is NULL,
-- and ends the child. In the parent it returns, a join after it waits for exactly this
-- child, and another processStart changes nothing, whatever fork would answer.
pub process_start-runs :
    (sc : Sync) (a : SyncArgs) (pid : ℕ) (d : Fork)
    → IsNew process_kind sc a
    → sc.flag ≡ 0
    → 0 < pid
    → ((es : List Event) × (process_start (child pid) d sc ≡ exits es) × IsRun a pid es)
      × ((sc' : Sync) × (process_start (parent pid) d sc ≡ returns sc')
          × (process_join sc' ≡ some pid)
          × ((f : Fork) → process_start f d sc' ≡ returns sc'))
unfolding process_start process_join
process_start-runs sc a pid d new attached positive =
    let kind : (sc.kind == process_kind) ≡ true = ground (arith, new.kind_is) in
    let start : (sc.start == not_start) ≡ true = ground (arith, new.start_is) in
    let flag : (sc.flag == 0) ≡ true = ground (arith, attached) in
    let set : (pid == 0) ≡ false = ground (arith, positive) in
    (
      (
        events_of a pid,
        rw (kind, start, flag, deal_and_exit, process_deal-child sc a pid new) refl,
        events_of-IsRun a pid,
      ),
      (
        record sc { id = pid; start = process_main_start },
        rw (kind, start) refl,
        rw (kind, set) refl,
        λ f. rw kind refl,
      ),
    )

-- For a new thread worker: threadDeal in the thread calls each callback that is there once, and no
-- other, in the order start, run, end, with the id that is in the struct and the result of the run for the
-- end, frees that result once behind them unless it is NULL, and marks the worker as started; but a
-- join right behind threadStart, before the thread has run, does not wait.
pub thread_start-runs :
    (sc : Sync) (a : SyncArgs) (tid : ℕ)
    → IsNew thread_kind sc a
    → ((es : List Event) × ((thread_deal (thread_start tid sc)).events ≡ some es) × IsRun a tid es)
      × ((thread_deal (thread_start tid sc)).sync.start ≡ thread_started)
      × (thread_join (thread_start tid sc) ≡ none)
thread_start-runs sc a tid new =
    let (events, marked) = thread_deal-new sc a tid new in
    rw (thread_start-new sc a tid new)
      ((events_of a tid, events, events_of-IsRun a tid), marked, thread_join-new sc a tid new)
