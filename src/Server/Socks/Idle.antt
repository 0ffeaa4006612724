-- ===== src/Server/Socks/Idle.antt =====
-- The pipes between the workers of src/net/server.c are never used: no worker is ever known.
use redis_pool.Base.{
  ℕ, zero, suc, ◌<◌, ◌≤◌, ◌≡◌, refl, sym, ap, ◌∙◌, subst, Bool, none, some, [], arith,
}
use redis_pool.Map.Tree.Store as Store
use redis_pool.Map.Tree.Ops.{new_tree, tree_get, get_tree_node, find_loop, value_of}
use redis_pool.Map.Hash.{
  Hash, MapKey, new_hash, hash_get, find_hash_node, find_hash_loop, is_valid, default_index,
  with_code, get_hash_key,
}
use redis_pool.Map.Hash.Remove.{hash_get-new_hash, hash_get-zero}
use redis_pool.Map.Hash as Hash
use redis_pool.Server.{Server, key_of}
use redis_pool.Server.Remove.{key_of_fd}
use redis_pool.Server.Socks.{
  Sock, SockWorld, made, done, out_of_fuel, new_sock, write_s, max_info_num,
}
use redis_pool.Server.Socks.Numbers.{NumWorld, told, known_worker, read_num}
use redis_pool.Server.Socks.Accept.{Accepted, AcceptWorld, queued, add_client, accept_c, queue_info}

-- A callback of the worker that changes its pipes.
pub data Step : Sock → Sock → Type 0 where
  accepts :
      (w : AcceptWorld) (fd : ℕ) (a : Accepted) (s : Server) {k k' : Sock}
      → accept_c w fd (some a) s (some k) ≡ queued k'
      → Step k k'
  is_told : (w : NumWorld) (fd num : ℕ) {k k' : Sock} → read_num w fd num k ≡ done k' → Step k k'
  writes : (all_sent : Bool) (fd : ℕ) {k k' : Sock} → k' ≡ (write_s all_sent fd k).0 → Step k k'

pub data Reach (k : Sock) : Sock → Type 0 where
  here : Reach k k
  next : {k' k'' : Sock} → Reach k k' → Step k' k'' → Reach k k''

-- Nothing is known of the other workers, and the clients that wait have their places.
pub record IsUnused (k : Sock) : Type 0 where
  pub min_none : k.min ≡ none
  pub no_channel : k.r_c.root ≡ 0
  pub no_num : k.r_n ≡ new_hash
  pub bounded : k.used ≤ max_info_num

tree_get-empty :
    (fuel key : ℕ) (t : Store.Tree) → t.root ≡ 0 → tree_get (suc fuel) key t ≡ Store.done 0 t
unfolding tree_get get_tree_node find_loop value_of
tree_get-empty fuel key t e = rw e refl

new_sock-IsUnused :
    (w : SockWorld) (num interval : ℕ) {k : Sock} → new_sock w num interval ≡ made k → IsUnused k
unfolding new_sock new_tree
new_sock-IsUnused w num interval e = ground arith

queued-IsUnused :
    (w : AcceptWorld) (fd : ℕ) (a : Accepted) (s : Server) (k k' : Sock)
    → accept_c w fd (some a) s (some k) ≡ queued k'
    → IsUnused k
    → IsUnused k'
unfolding accept_c add_client
queued-IsUnused w fd a s k k' e u =
    let is : (k' ≡ queue_info fd a.ip k) × (k.used < max_info_num) = ground arith in
    record {
      min_none = ap (λ x. x.min) is.0 ∙ u.min_none;
      no_channel = ap (λ x. x.r_c.root) is.0 ∙ u.no_channel;
      no_num = ap (λ x. x.r_n) is.0 ∙ u.no_num;
      bounded = omega (arith, ap (λ x. x.used) is.0, is.1);
    }

read_num-unused :
    (f : ℕ) (w : NumWorld) (fd num : ℕ) (k k' : Sock)
    → w.fuel ≡ f
    → IsUnused k
    → read_num w fd num k ≡ done k'
    → k' ≡ k
unfolding read_num
read_num-unused zero w fd num k k' fuel u e =
    let none_found : hash_get w.fuel (key_of fd) k.r_n ≡ Hash.out_of_fuel =
      ap (λ n. hash_get n (key_of fd) k.r_n) fuel ∙ hash_get-zero (key_of fd) k.r_n in
    let stuck : done k' ≡ out_of_fuel = sym e ∙ ap (told w fd num k) none_found in cc
read_num-unused (suc f) w fd num k k' fuel u e =
    let no_num : hash_get w.fuel (key_of fd) k.r_n ≡ Hash.done 0 new_hash =
      ap (λ n. hash_get n (key_of fd) k.r_n) fuel
      ∙ ap (hash_get (suc f) (key_of fd)) u.no_num
      ∙ hash_get-new_hash f (key_of fd) in
    let no_channel : tree_get w.fuel (key_of_fd fd) k.r_c ≡ Store.done 0 k.r_c =
      ap (λ n. tree_get n (key_of_fd fd) k.r_c) fuel
      ∙ tree_get-empty f (key_of_fd fd) k.r_c u.no_channel in
    let same : done k' ≡ done k =
      sym e ∙ ap (told w fd num k) no_num ∙ ap (known_worker w fd num k) no_channel in
    cc

pub write_s-unused :
    (all_sent : Bool) (fd : ℕ) (k : Sock) → IsUnused k → write_s all_sent fd k ≡ (k, [])
unfolding write_s
write_s-unused all_sent fd k u = ground (arith, u.min_none)

Step-IsUnused : {k k' : Sock} → Step k k' → IsUnused k → IsUnused k'
Step-IsUnused {k} {k'} (accepts w fd a s e) u = queued-IsUnused w fd a s k k' e u
Step-IsUnused {k} {k'} (is_told w fd num e) u =
    subst IsUnused (sym (read_num-unused w.fuel w fd num k k' refl u e)) u
Step-IsUnused {k} {k'} (writes all_sent fd e) u =
    subst IsUnused (sym (e ∙ ap (λ x. x.0) (write_s-unused all_sent fd k u))) u

Reach-IsUnused : {k k' : Sock} → IsUnused k → Reach k k' → IsUnused k'
Reach-IsUnused u here = u
Reach-IsUnused u (next r st) = Step-IsUnused st (Reach-IsUnused u r)

-- From what newSock makes, in whatever run of acceptC, readS and writeS: at most 5 clients wait for
-- another worker, and the next writeS to a pipe sends nothing and changes nothing.
pub new_sock-sends_none :
    (w : SockWorld) (num interval : ℕ) {k k' : Sock}
    → new_sock w num interval ≡ made k
    → Reach k k'
    → (all_sent : Bool) (fd : ℕ) → (write_s all_sent fd k' ≡ (k', [])) × (k'.used ≤ max_info_num)
new_sock-sends_none w num interval {k} {k'} e r all_sent fd =
    let u = Reach-IsUnused (new_sock-IsUnused w num interval e) r in
    (write_s-unused all_sent fd k' u, u.bounded)
