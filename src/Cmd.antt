-- ===== src/Cmd.antt =====
-- src/cmd.c: the commands start, restart and stop, and the signals. The words of the command line are
-- lists of bytes, signals are numbers, and a child is known by its key in the tree of the children, its
-- id as the distance from INT_MIN.
pub mod Hangup
mod Tests
use redis_pool.Base.{
  ℕ, zero, suc, ◌+◌, ◌-◌, ◌^◌, Bool, true, false, not, ◌&&◌, ◌||◌, Option, none, some, List, [],
  ◌∷◌, ltb, leb, ◌==◌, if◌then◌else◌, length,
}
use redis_pool.Map.Tree.Store.{Tree}
use redis_pool.Map.Tree.Store as Store
use redis_pool.Map.Tree.Ops.{new_tree, tree_put, free_tree}
use redis_pool.Map.Tree.Foreach.{foreach_tree}

-- tolower of the C library, in the locale "C".
abbrev pub to_lower : ℕ → ℕ
to_lower c = if leb b'A' c && leb c b'Z' then c + 32 else c

-- strcasecmp(a, b) == 0
unfoldable pub same_word : (a b : List ℕ) → Bool
same_word [] [] = true
same_word [] (d ∷ b) = false
same_word (c ∷ a) [] = false
same_word (c ∷ a) (d ∷ b) = (to_lower c == to_lower d) && same_word a b

-- cmd.h
abbrev pub start_cmd : List ℕ
start_cmd = b's' ∷ b't' ∷ b'a' ∷ b'r' ∷ b't' ∷ []

abbrev pub restart_cmd : List ℕ
restart_cmd = b'r' ∷ b'e' ∷ b's' ∷ b't' ∷ b'a' ∷ b'r' ∷ b't' ∷ []

abbrev pub stop_cmd : List ℕ
stop_cmd = b's' ∷ b't' ∷ b'o' ∷ b'p' ∷ []

abbrev is_word : List ℕ → Option (List ℕ) → Bool
is_word word none = false
is_word word (some cmd) = same_word cmd word

unfoldable pub is_start : Option (List ℕ) → Bool
unfolding same_word
is_start cmd = is_word start_cmd cmd

unfoldable pub is_restart : Option (List ℕ) → Bool
unfolding same_word
is_restart cmd = is_word restart_cmd cmd

unfoldable pub is_stop : Option (List ℕ) → Bool
unfolding same_word
is_stop cmd = is_word stop_cmd cmd

-- signal.h
abbrev pub sig_hup : ℕ
sig_hup = 1

abbrev pub sig_int : ℕ
sig_int = 2

abbrev pub sig_quit : ℕ
sig_quit = 3

abbrev pub sig_term : ℕ
sig_term = 15

-- What iniCmd finds: whether there is a configuration, the length of the name of the pid file, whether it
-- can be opened, and the number in it, 0 for a negative one.
pub record PidFile : Type 0 where
  pub ini : Bool
  pub name : Option (List ℕ)
  pub opens : Bool
  pub pid : ℕ

abbrev has_name : Option (List ℕ) → Bool
has_name none = false
has_name (some name) = ltb 0 (length name)

-- The result, and the signal that is sent to a process, if any.
unfoldable pub ini_cmd : PidFile → (argc : ℕ) (cmd : Option (List ℕ)) → Bool × Option (ℕ × ℕ)
unfolding is_start is_restart is_stop
ini_cmd f argc cmd =
    if leb argc 1
    then (true, none)
    else if is_start cmd
    then (true, none)
    else if not (is_restart cmd) && not (is_stop cmd)
    then (false, none)
    else if not f.ini || (not (has_name f.name) || not f.opens)
    then (false, none)
    else if f.pid == 0
    then (false, none)
    else (false, some (f.pid, if is_stop cmd then sig_term else sig_hup))

-- globals, as far as the signals use it; NULL is `none`.
pub record Globals : Type 0 where
  pub is_exit : Bool
  pub children : Option Tree

-- The answers of the allocator: the new tree, the stack and its slots, and the address of each node.
pub record StopWorld : Type 0 where
  pub tree_ok : Bool
  pub stack_ok : Bool
  pub slots : Option (List ℕ)
  pub node : ℕ → ℕ
  pub fuel : ℕ

-- `kills` has the signals that are sent, with the keys of the children; `exits` is a call of exit.
pub data StopRun : Type 0 where
  done : Globals → (kills : List (ℕ × ℕ)) → StopRun
  exits : StopRun
  fault : StopRun
  out_of_fuel : StopRun

-- The body of the loop, on the tree of globals: the first child changes the signal for the others.
unfoldable pub kill_loop : StopWorld → (i signo : ℕ) → List (ℕ × ℕ) → Store.M (ℕ × List (ℕ × ℕ))
kill_loop w i signo [] = Store.pure (signo, [])
kill_loop w i signo ((key, value) ∷ rest) =
    let signo' = if signo == sig_hup then sig_term else signo in
    λ t.
      Store.and_then
        (if signo == sig_hup
          then Store.and_then (tree_put w.fuel (w.node i) key value t) (λ status. Store.pure tt)
          else Store.pure tt t)
        (λ u t'.
          Store.and_then (kill_loop w (i + 1) signo' rest t')
            (λ (last, kills). Store.pure (last, (key, signo') ∷ kills)))

abbrev pub is_ending : (signo : ℕ) → Bool
is_ending signo = (signo == sig_term) || ((signo == sig_int) || (signo == sig_quit))

abbrev children_left : Store.Run (Unit {0}) → (rest : StopRun) → StopRun
children_left (Store.done u t) rest = rest
children_left Store.fault rest = fault
children_left Store.out_of_fuel rest = out_of_fuel

-- Behind the loop: `children` is the tree that was visited.
abbrev after_loop : StopWorld → Globals → (children : Tree) → Store.Run (ℕ × List (ℕ × ℕ)) → StopRun
after_loop w g children (Store.done (last, kills) t) =
    let end = done (record g { children = some t }) kills in
    if last == sig_hup then children_left (free_tree w.fuel children) end else end
after_loop w g children Store.fault = fault
after_loop w g children Store.out_of_fuel = out_of_fuel

-- The loop on the tree `children`; `own` is the tree of globals.
abbrev visit_children :
    StopWorld → (signo : ℕ) → Globals → (children own : Tree) → Store.Run (List (ℕ × ℕ)) → StopRun
visit_children w signo g children own (Store.done es t) =
    after_loop w g children (kill_loop w 0 signo es own)
visit_children w signo g children own Store.fault = fault
visit_children w signo g children own Store.out_of_fuel = out_of_fuel

abbrev signal_children : StopWorld → (signo : ℕ) → Globals → (children : Tree) → StopRun
signal_children w signo g children =
    if children.total == 0
    then done g []
    else if (signo == sig_hup) && not w.tree_ok
    then done g []
    else visit_children w signo g children
        (if signo == sig_hup then new_tree children.max else children)
        (foreach_tree w.fuel w.stack_ok w.slots children)

abbrev signal_all : StopWorld → (signo : ℕ) → Globals → Option Tree → StopRun
signal_all w signo g none = done g []
signal_all w signo g (some children) = signal_children w signo g children

-- `clients` is the number of clients of a worker.
unfoldable pub stop_worker :
    StopWorld → (signo : ℕ) (parent : Bool) (clients : ℕ) → Globals → StopRun
unfolding kill_loop
stop_worker w signo parent clients g =
    let g' : Globals = record g { is_exit = is_ending signo || g.is_exit } in
    if not parent
    then (if clients == 0 then exits else done (record g { is_exit = true }) [])
    else signal_all w signo g' g'.children

-- The table SIGNAL_ON: the handler of a signal, and whether it is that of the parent.
unfoldable pub install_signal : (parent : Bool) → (signo : ℕ) → Option Bool
install_signal parent signo =
    if (signo == sig_term) || ((signo == sig_int) || ((signo == sig_quit) || (signo == sig_hup)))
    then some parent
    else none

-- dealSingal with the table that installSignal has left.
unfoldable pub deal_signal :
    StopWorld → (table : ℕ → Option Bool) (signo clients : ℕ) → Globals → StopRun
unfolding stop_worker
deal_signal w table signo clients g = elim (table signo) [
  | none ↦ done g []
  | some parent ↦ stop_worker w signo parent clients g
]
