-- ===== src/Sync/Tests.antt =====
-- Runs of the workers of src/sync/, and the theorems applied to them.
use Prim.Native.Nat.{min}
use redis_pool.Types.Memory.{zeros}
use redis_pool.Sync.Title.{set_process_title, set_process_title-take}
use redis_pool.Base.{List, take, ◌++◌, ◌-◌, ℕ, ◌≡◌, refl, true, false, none, some, [], ◌∷◌, arith}
use redis_pool.Sync.{Sync, SyncArgs, Event, created, new_sync, not_start, thread_started}
use redis_pool.Sync.Order.{IsRun}
use redis_pool.Sync.Process.{
  Fork, failed, child, parent, returns, exits, process_join, process_start, exited, signaled,
  release_child,
}
use redis_pool.Sync.Thread.{thread_join, thread_start, thread_deal}
use redis_pool.Sync.Runs.{IsNew, process_start-runs, thread_start-runs}

abbrev callbacks : SyncArgs
callbacks = record { on_start = true; on_end = false; on_run = some 9; name = [] }

abbrev worker : ℕ → Sync
worker kind = record { id = 0; kind = kind; flag = 0; start = not_start; args = some callbacks }

worker-IsNew : (kind : ℕ) → IsNew kind (worker kind) callbacks
worker-IsNew kind = record { kind_is = refl; start_is = refl; args_are = refl }

-- No kind is refused.
new_sync_run : new_sync true true 7 0 callbacks ≡ created (worker 7)
unfolding new_sync
new_sync_run = refl

release_child_run :
    release_child true ((5, exited 13) ∷ (6, signaled 9) ∷ []) ≡ (5, (0, 13)) ∷ (6, (1, 9)) ∷ []
unfolding release_child
release_child_run = refl

process_start-runs_example :
    ((es : List Event) × (process_start (child 5) failed (worker 2) ≡ exits es)
      × IsRun callbacks 5 es)
    × ((sc' : Sync) × (process_start (parent 5) failed (worker 2) ≡ returns sc')
        × (process_join sc' ≡ some 5)
        × ((f : Fork) → process_start f failed sc' ≡ returns sc'))
process_start-runs_example =
    process_start-runs (worker 2) callbacks 5 failed (worker-IsNew 2) refl (omega arith)

thread_start-runs_example :
    ((es : List Event) × ((thread_deal (thread_start 8 (worker 1))).events ≡ some es)
      × IsRun callbacks 8 es)
    × ((thread_deal (thread_start 8 (worker 1))).sync.start ≡ thread_started)
    × (thread_join (thread_start 8 (worker 1)) ≡ none)
thread_start-runs_example = thread_start-runs (worker 1) callbacks 8 (worker-IsNew 1)

-- "ab" in a buffer of two bytes.
set_process_title-take_example :
    set_process_title (b'a' ∷ b'b' ∷ []) (7 ∷ 7 ∷ [])
    ≡ take 1 (b'a' ∷ b'b' ∷ []) ++ zeros (2 - min 1 2)
set_process_title-take_example =
    set_process_title-take (b'a' ∷ b'b' ∷ []) (7 ∷ 7 ∷ []) (omega arith) (omega arith)
