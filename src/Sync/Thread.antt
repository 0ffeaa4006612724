-- ===== src/Sync/Thread.antt =====
-- src/sync/thread.c: the workers that are threads. The struct is shared by the thread and its creator.
use redis_pool.Base.{ℕ, not, ◌||◌, Option, none, some, List, [], ◌==◌, if◌then◌else◌}
use redis_pool.Sync.{Sync, Event, call_sync, has_args, thread_kind, not_start, thread_started}

-- The id that pthread_join waits for, if it is called.
unfoldable pub thread_join : Sync → Option ℕ
thread_join sc =
    if not (sc.kind == thread_kind) || ((sc.id == 0) || (sc.start == not_start))
    then none
    else some sc.id

-- `tid` is what pthread_create has written, whether it succeeds or not.
unfoldable pub thread_start : (tid : ℕ) → Sync → Sync
thread_start tid sc =
    if not (sc.kind == thread_kind) || not (sc.start == not_start)
    then sc
    else record sc { id = tid }

-- The id that pthread_detach is called with, if it is.
unfoldable pub thread_detach : Sync → Option ℕ
thread_detach sc =
    if not (sc.kind == thread_kind) || not (sc.start == not_start) then none else some sc.id

pub record ThreadRun : Type 0 where
  pub sync : Sync
  pub detached : Option ℕ
  pub events : Option (List Event)

-- In the thread; `none` is the use of args where it is NULL.
unfoldable pub thread_deal : Sync → ThreadRun
thread_deal sc =
    if not (sc.kind == thread_kind) || (not (has_args sc) || not (sc.start == not_start))
    then record { sync = sc; detached = none; events = some [] }
    else (let sc' = record sc { start = thread_started } in
        record {
          sync = sc';
          detached = if sc.flag == 0 then none else thread_detach sc;
          events = call_sync sc';
        })
