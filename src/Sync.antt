-- ===== src/Sync.antt =====
-- src/sync/: the workers, which are processes or threads with callbacks at their start, in their run and at
-- their end. What fork, waitpid and the thread calls answer are arguments. A callback is there or
-- NULL; a pointer that one returns is a number, and NULL is 0. The arguments of a callback but for the
-- id are left out.
pub mod Process
pub mod Thread
pub mod Dispatch
pub mod Order
pub mod Runs
pub mod Title
mod Tests
use redis_pool.Base.{
  ℕ, Bool, true, false, not, ◌||◌, Option, none, some, List, [], ◌∷◌, ◌++◌, ltb, leb, ◌==◌,
  if◌then◌else◌, length,
}

-- interface.h
abbrev pub thread_kind : ℕ
thread_kind = 1

abbrev pub process_kind : ℕ
process_kind = 2

abbrev pub not_start : ℕ
not_start = 0

abbrev pub thread_started : ℕ
thread_started = 1

abbrev pub process_main_start : ℕ
process_main_start = 2

abbrev pub process_child_start : ℕ
process_child_start = 3

abbrev pub max_name_length : ℕ
max_name_length = 20

-- struct sync_args; `on_run` has what the callback returns.
pub record SyncArgs : Type 0 where
  pub on_start : Bool
  pub on_end : Bool
  pub on_run : Option ℕ
  pub name : List ℕ

-- struct _sync
pub record Sync : Type 0 where
  pub id : ℕ
  pub kind : ℕ
  pub flag : ℕ
  pub start : ℕ
  pub args : Option SyncArgs

-- What a worker does: it calls the callbacks, and frees the result.
pub data Event : Type 0 where
  called_start : (id : ℕ) → Event
  called_run : (id : ℕ) → Event
  called_end : (id result : ℕ) → Event
  freed : (result : ℕ) → Event

-- The byte that isValidType returns.
abbrev pub is_valid_type : (kind : ℕ) → ℕ
is_valid_type kind = if (kind == thread_kind) || (kind == process_kind) then 1 else 0

-- `overrun` is a strcpy behind the end of `name`.
pub data Created : Type 0 where
  no_sync : Created
  created : Sync → Created
  overrun : Created

unfoldable pub new_sync : (sync_ok args_ok : Bool) (kind flag : ℕ) → SyncArgs → Created
new_sync sync_ok args_ok kind flag args =
    if ltb (is_valid_type kind) 0
    then no_sync
    else if not sync_ok || not args_ok
    then no_sync
    else if leb max_name_length (length args.name)
    then overrun
    else created (record { id = 0; kind = kind; flag = flag; start = not_start; args = some args })

abbrev result_of : SyncArgs → ℕ
result_of a = elim a.on_run [ none ↦ 0 | some r ↦ r ]

abbrev event_if : Bool → Event → List Event
event_if true e = e ∷ []
event_if false e = []

abbrev run_events : SyncArgs → (id : ℕ) → List Event
run_events a id = elim a.on_run [ none ↦ [] | some r ↦ called_run id ∷ [] ]

-- The callbacks that are there, in their order.
pub events_of : SyncArgs → (id : ℕ) → List Event
events_of a id =
    event_if a.on_start (called_start id)
    ++ (run_events a id
        ++ (event_if a.on_end (called_end id (result_of a))
            ++ event_if (not (result_of a == 0)) (freed (result_of a))))

-- `none` is the use of args where it is NULL.
unfoldable pub call_sync : Sync → Option (List Event)
call_sync sc =
    if sc.start == not_start
    then some []
    else elim sc.args [ none ↦ none | some a ↦ some (events_of a sc.id) ]

abbrev pub has_args : Sync → Bool
has_args sc = elim sc.args [ none ↦ false | some a ↦ true ]
