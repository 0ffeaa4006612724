-- ===== src/Sync/Dispatch.antt =====
-- The macro CALL of src/sync/interface.h: join and start by the kind of a worker.
use redis_pool.Base.{ℕ, Option, none, ◌==◌, if◌then◌else◌}
use redis_pool.Sync.{Sync, thread_kind, process_kind}
use redis_pool.Sync.Process.{Fork, ProcessRun, returns, process_join, process_start}
use redis_pool.Sync.Thread.{thread_join, thread_start}

-- The id that is waited for, if any.
pub join : Sync → Option ℕ
join sc =
    if sc.kind == thread_kind
    then thread_join sc
    else if sc.kind == process_kind
    then process_join sc
    else none

pub start : (tid : ℕ) (fork detach : Fork) → Sync → ProcessRun
start tid f d sc =
    if sc.kind == thread_kind
    then returns (thread_start tid sc)
    else if sc.kind == process_kind
    then process_start f d sc
    else returns sc
