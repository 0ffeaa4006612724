-- ===== src/Server/Worker.antt =====
-- worker and task of src/net/server.c: what a worker sets up before its loop of events, and the thread
-- that accepts clients. The configuration, setCmds, the title, the signals and the events of the loop are
-- left out.
use redis_pool.Base.{
  ℕ, Bool, false, not, ◌&&◌, ◌||◌, Option, none, some, List, [], ◌∷◌, ◌==◌, if◌then◌else◌,
}
use redis_pool.Client.{Client}
use redis_pool.Map.Tree.Ops.{new_tree}
use redis_pool.Map.Hash.{new_hash}
use redis_pool.Pool.{Pool, Dial}
use redis_pool.Pool.Init.{Settings, Made, refused, made, init_pool}
use redis_pool.Server.{Server}
use redis_pool.Server.Socks.{Chan}

-- The answers of the system: the base of the events, and malloc for the parts.
pub record WorkerWorld : Type 0 where
  pub base_ok : Bool
  pub clients_ok : Bool
  pub c_to_r_ok : Bool
  pub r_to_c_ok : Bool
  pub pool_ok : Bool
  pub redises : ℕ
  pub dials : ℕ → Dial
  pub conns : ℕ → Client
  pub sync_ok : Bool

-- An event of the base for the descriptor of a pipe.
pub data PipeEvent : Type 0 where
  on_read on_write : (fd : ℕ) → PipeEvent

-- `exits` is exit(-1). `loops` goes on to the events.
pub data WorkerRun : Type 0 where
  exits : WorkerRun
  loops : Server → List PipeEvent → WorkerRun
  fault : WorkerRun

-- The loop over the channels: the own one is read from, and the others are written to.
unfoldable pub pipe_events : (own : Chan) → List Chan → List PipeEvent
pipe_events own [] = []
pipe_events own (c ∷ cs) =
    (if (c.r == own.r) && (c.w == own.w) then on_read own.r else on_write c.w) ∷ pipe_events own cs

abbrev pub new_server : WorkerWorld → (max_client_size : ℕ) → Pool → Server
new_server w size rps = record {
  rps = rps;
  conns = w.conns;
  peers = λ c. none;
  c_to_r = new_hash;
  r_to_c = new_hash;
  clients = new_tree size;
  is_exit = false;
  out = [];
}

abbrev with_pool : WorkerWorld → (size : ℕ) → List PipeEvent → Made → WorkerRun
with_pool w size events refused = exits
with_pool w size events (made rps) =
    if w.sync_ok then loops (new_server w size rps) events else exits
with_pool w size events Made.fault = fault

-- `socks` has the channels, and the own one, where there are pipes.
unfoldable pub worker :
    WorkerWorld → (size : ℕ) → Settings → (socks : Option (Chan × List Chan)) → WorkerRun
unfolding pipe_events
worker w size settings socks =
    if not w.base_ok || (not w.clients_ok || (not w.c_to_r_ok || not w.r_to_c_ok))
    then exits
    else with_pool w size (elim socks [ none ↦ [] | some (own, chs) ↦ pipe_events own chs ])
        (init_pool w.pool_ok settings w.redises w.dials)

-- task: acceptC, until isExit is set behind one. The answers are those of accept, with isExit then.
pub task : {A : Type 0} → List (A × Bool) → List A
task [] = []
task ((a, is_exit) ∷ rest) = a ∷ (let more = task rest in if is_exit then [] else more)
