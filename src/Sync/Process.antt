-- ===== src/Sync/Process.antt =====
-- src/sync/process.c: the workers that are processes. fork returns in both processes; a run follows one.
use redis_pool.Base.{
  ℕ, Bool, true, false, not, ◌||◌, Option, none, some, List, [], ◌∷◌, ◌==◌, if◌then◌else◌,
}
use redis_pool.Sync.{
  Sync, Event, call_sync, has_args, process_kind, not_start, process_main_start,
  process_child_start,
}

-- In the child `pid` is its own id, from getpid.
pub data Fork : Type 0 where
  failed : Fork
  child parent : (pid : ℕ) → Fork

-- A function returns, or ends the process.
pub data ProcessRun : Type 0 where
  returns : Sync → ProcessRun
  exits : List Event → ProcessRun
  fault : ProcessRun

-- The id that waitpid waits for, if it is called.
unfoldable pub process_join : Sync → Option ℕ
process_join sc =
    if not (sc.kind == process_kind) || ((sc.id == 0) || not (sc.start == process_main_start))
    then none
    else some sc.id

unfoldable pub process_detach : Fork → Sync → ProcessRun
process_detach f sc =
    if not (sc.kind == process_kind) || not (sc.start == process_child_start)
    then returns sc
    else elim f [
      | failed ↦ returns sc
      | child pid ↦ returns (record sc { id = pid })
      | parent pid ↦ exits []
    ]

unfoldable pub process_deal : Sync → Option (List Event)
process_deal sc =
    if not (sc.kind == process_kind) || (not (has_args sc) || not (sc.start == process_child_start))
    then some []
    else call_sync sc

-- The end of the child: deleteSync and exit.
abbrev pub deal_and_exit : Sync → ProcessRun
deal_and_exit sc = elim (process_deal sc) [ none ↦ fault | some events ↦ exits events ]

abbrev pub child_run : (detach : Fork) → Sync → ProcessRun
child_run d sc = if sc.flag == 0 then deal_and_exit sc else elim (process_detach d sc) [
  | returns sc' ↦ deal_and_exit sc'
  | exits events ↦ exits events
  | fault ↦ fault
]

unfoldable pub process_start : (fork detach : Fork) → Sync → ProcessRun
process_start f d sc =
    if not (sc.kind == process_kind) || not (sc.start == not_start) then returns sc else elim f [
      | failed ↦ returns sc
      | child pid ↦ child_run d (record sc { id = pid; start = process_child_start })
      | parent pid ↦ returns (record sc { id = pid; start = process_main_start })
    ]

-- A status of waitpid, by the macros that test it.
pub data WaitStatus : Type 0 where
  exited signaled : (code : ℕ) → WaitStatus
  stopped other : WaitStatus

-- process.h: the type and the code for the callback of releaseChild.
abbrev pub exit_of : WaitStatus → ℕ × ℕ
exit_of (exited code) = (0, code)
exit_of (signaled code) = (1, code)
exit_of stopped = (2, 0)
exit_of other = (3, 0)

abbrev call_if : Bool → ℕ × (ℕ × ℕ) → List (ℕ × (ℕ × ℕ)) → List (ℕ × (ℕ × ℕ))
call_if true call calls = call ∷ calls
call_if false call calls = calls

-- The calls of the callback `func`, where it is not NULL, for the children that waitpid gives until
-- there is none.
unfoldable pub release_child : (func : Bool) (children : List (ℕ × WaitStatus)) → List (ℕ × (ℕ × ℕ))
release_child func [] = []
release_child func ((pid, status) ∷ children) =
    call_if func (pid, exit_of status) (release_child func children)
