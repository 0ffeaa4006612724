-- ===== src/Server/Restart.antt =====
-- restartWorker of src/net/server.c, which releaseChild of src/sync/process.c calls for each child that
-- has ended: a new child takes its place, unless it has failed.
use redis_pool.Base.{
  ℕ, ◌≡◌, ◌≢◌, Bool, true, false, not, ◌&&◌, ◌||◌, Option, none, some, ◌==◌, if◌then◌else◌,
}
use redis_pool.Map.Tree.Store.{Tree}
use redis_pool.Map.Tree.Store as Store
use redis_pool.Map.Tree.Ops.{Status, tree_put, tree_remove}
use redis_pool.Sync.Process.{WaitStatus, exited, signaled}
use redis_pool.Server.Remove.{key_of_fd}

-- `p_to_c` is that of the pipes, if there are some. `values` gives what a mapValue at an address points to,
-- and `none` for an address of anything else.
pub record Parent : Type 0 where
  pub children : Tree
  pub p_to_c : Option Tree
  pub is_exit : Bool
  pub values : ℕ → Option ℕ

-- `sync_ok` says that newSync gives a worker; `id` is that of the new child, 0 where fork fails; `local` is the address of the mapValue on the stack;
-- `child_node` and `chan_node` are the addresses of the nodes of the two trees.
pub record RestartWorld : Type 0 where
  pub sync_ok : Bool
  pub id : ℕ
  pub local : ℕ
  pub child_node : ℕ
  pub chan_node : ℕ
  pub fuel : ℕ

-- `unforked` has put the entries of the child, under the id 0, where fork has failed. `fault` is the use of a
-- pointer to no struct.
pub data RestartRun : Type 0 where
  leaves : Parent → RestartRun
  restarts : Parent → RestartRun
  unforked : Parent → RestartRun
  fault : RestartRun
  out_of_fuel : RestartRun

-- process.h
abbrev pub child_exit_normal : ℕ
child_exit_normal = 0

-- The tests in front of the new child. The second assigns to the type, and looks at the code alone.
unfoldable pub is_kept_down : (kind code : ℕ) (is_exit : Bool) → Bool
is_kept_down kind code is_exit =
    ((kind == child_exit_normal) && not (code == 0)) || ((code == 13) || is_exit)

abbrev and_then : {A : Type 0} → Store.Run A → (A → Tree → RestartRun) → RestartRun
and_then (Store.done a t) f = f a t
and_then Store.fault f = fault
and_then Store.out_of_fuel f = out_of_fuel

abbrev put_chan :
    RestartWorld → (chan : ℕ) → Parent → (Parent → RestartRun) → Option Tree → RestartRun
put_chan w chan p rest none = rest p
put_chan w chan p rest (some t) =
    and_then (tree_put w.fuel w.chan_node (key_of_fd w.id) chan t)
      (λ status t'. rest (record p { p_to_c = some t' }))

-- The entries of the new child; `value` is the mapValue of the one that has ended.
abbrev put_child : RestartWorld → (value chan : ℕ) → Parent → RestartRun
put_child w value chan p =
    put_chan w chan p
      (λ p'.
        and_then
          (tree_put w.fuel w.child_node (key_of_fd w.id) (if value == 0 then w.local else value)
            p'.children)
          (λ status t.
            let p'' : Parent = record p' { children = t } in
            if w.id == 0 then unforked p'' else restarts p''))
      p.p_to_c

-- newSync, whose result is not looked at, and start, which uses it.
abbrev start_child : RestartWorld → (value chan : ℕ) → Parent → RestartRun
start_child w value chan p = if not w.sync_ok then fault else put_child w value chan p

abbrev decide : RestartWorld → (kind code value chan : ℕ) → Parent → RestartRun
decide w kind code value chan p =
    if is_kept_down kind code p.is_exit then leaves p else start_child w value chan p

abbrev with_chan : RestartWorld → (pid kind code value : ℕ) → Parent → Option Tree → RestartRun
with_chan w pid kind code value p none = decide w kind code value 0 p
with_chan w pid kind code value p (some t) =
    and_then (tree_remove w.fuel (key_of_fd pid) t) (λ v t'.
      let p' : Parent = record p { p_to_c = some t' } in
      if v == 0
      then leaves p'
      else elim (p.values v) [ none ↦ fault | some chan ↦ decide w kind code value chan p' ])

unfoldable pub restart_worker : RestartWorld → (pid kind code : ℕ) → Parent → RestartRun
unfolding is_kept_down
restart_worker w pid kind code p =
    and_then (tree_remove w.fuel (key_of_fd pid) p.children) (λ value t.
      let p' : Parent = record p { children = t } in with_chan w pid kind code value p' p.p_to_c)

-- Why a child is not replaced: how it has ended, or that the parent is about to.
pub data StaysDown : WaitStatus → (is_exit : Bool) → Type 0 where
  by_code : (code : ℕ) (is_exit : Bool) → code ≢ 0 → StaysDown (exited code) is_exit
  by_pipe : (code : ℕ) (is_exit : Bool) → code ≡ 13 → StaysDown (signaled code) is_exit
  by_exit : (s : WaitStatus) → StaysDown s true

-- The pipes of the parent, without the entry of the child `pid`, whose channel is `chan`; 0 without pipes.
pub data IsUnpiped (w : RestartWorld) (pid : ℕ) (p : Parent)
    : (chan : ℕ) → Option Tree → Type 0 where
  no_pipes : p.p_to_c ≡ none → IsUnpiped w pid p 0 none
  unpiped :
      {q q' : Tree} (v chan : ℕ)
      → p.p_to_c ≡ some q
      → tree_remove w.fuel (key_of_fd pid) q ≡ Store.done v q'
      → (v == 0) ≡ false
      → p.values v ≡ some chan
      → IsUnpiped w pid p chan (some q')

-- The pipes with an entry of the new child.
pub data IsPiped (w : RestartWorld) (chan : ℕ) : Option Tree → Option Tree → Type 0 where
  no_pipes : IsPiped w chan none none
  piped :
      {q q' : Tree} (status : Status)
      → tree_put w.fuel w.chan_node (key_of_fd w.id) chan q ≡ Store.done status q'
      → IsPiped w chan (some q) (some q')

-- The parent without the child.
abbrev pub without_child : Parent → (children : Tree) → Option Tree → Parent
without_child p t o = record p { children = t; p_to_c = o }
