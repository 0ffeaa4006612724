-- ===== src/Map/Hash/Samples.antt =====
-- Small tables of src/map/hash.c, and what the operations do with them.
use redis_pool.Base.{ℕ, ◌≡◌, refl, true, none, arith, ◌==◌, if◌then◌else◌}
use redis_pool.Map.Hash.{
  MapKey, Hash, Result, done, fault, out_of_fuel, hash_put, hash_get, hash_remove, empty_node,
  default_index, put_in, find_hash_node, find_hash_loop, add_hash_node, add_node_at, with_code,
  get_hash_key, is_valid, resize_hash, is_hash_key_equal, remove_loop_at, unlink_node,
  drop_hash_node,
}
use redis_pool.Map.Hash.Remove.{IsAlone}

-- The key of a socket.
abbrev pub socket : (fd : ℕ) → MapKey
socket fd = record { h = fd; str = none }

abbrev pub empty_table : Hash
empty_table = record {
  avalid = 0;
  max = 8;
  total = 0;
  undef = default_index;
  index = λ q. default_index;
  n = λ p. empty_node;
}

-- A table with one entry.
abbrev pub one_entry : (fd value : ℕ) → Hash
one_entry fd value = record {
  avalid = 1;
  max = 8;
  total = 1;
  undef = default_index;
  index = λ q. if q == fd then 0 else default_index;
  n = λ p.
      if p == 0
      then record { key = socket fd; value = value; next = default_index; def = true }
      else empty_node;
}

abbrev table_of : Result → Hash
table_of (done value t) = t
table_of fault = empty_table
table_of out_of_fuel = empty_table

abbrev pub put_first : (fd value : ℕ) → Hash
put_first fd value = table_of (hash_put true 2 (socket fd) value empty_table)

pub hash_put-client : hash_put true 2 (socket 7) 10 empty_table ≡ done 0 (put_first 7 10)
unfolding hash_put put_in find_hash_node find_hash_loop add_hash_node add_node_at with_code
    get_hash_key is_valid resize_hash
hash_put-client = refl

pub hash_put-conn : hash_put true 2 (socket 3) 50 empty_table ≡ done 0 (put_first 3 50)
unfolding hash_put put_in find_hash_node find_hash_loop add_hash_node add_node_at with_code
    get_hash_key is_valid resize_hash
hash_put-conn = refl

pub hash_remove-none : hash_remove true 2 (socket 7) empty_table ≡ done 0 empty_table
unfolding hash_remove remove_loop_at with_code get_hash_key is_valid
hash_remove-none = refl

pub hash_get-one : hash_get 2 (socket 7) (one_entry 7 10) ≡ done 10 (one_entry 7 10)
unfolding hash_get find_hash_node find_hash_loop with_code get_hash_key is_valid is_hash_key_equal
hash_get-one = refl

pub one_entry-IsAlone : IsAlone (socket 3) 0 (one_entry 3 50)
unfolding with_code get_hash_key is_valid is_hash_key_equal
one_entry-IsAlone = record {
  chain = (refl, refl, refl, refl);
  key_is = refl;
  some_entry = omega arith;
  few = omega arith;
  in_max = omega arith;
}

pub hash_get-conn : hash_get 2 (socket 3) (one_entry 3 50) ≡ done 50 (one_entry 3 50)
unfolding hash_get find_hash_node find_hash_loop with_code get_hash_key is_valid is_hash_key_equal
hash_get-conn = refl

-- The table without its entry.
abbrev pub taken_out : (fd value : ℕ) → Hash
taken_out fd value = table_of (hash_remove true 2 (socket fd) (one_entry fd value))

pub hash_remove-conn : hash_remove true 2 (socket 3) (one_entry 3 50) ≡ done 50 (taken_out 3 50)
unfolding hash_remove remove_loop_at with_code get_hash_key is_valid is_hash_key_equal unlink_node
    drop_hash_node resize_hash
hash_remove-conn = refl

pub hash_remove-client : hash_remove true 2 (socket 7) (one_entry 7 10) ≡ done 10 (taken_out 7 10)
unfolding hash_remove remove_loop_at with_code get_hash_key is_valid is_hash_key_equal unlink_node
    drop_hash_node resize_hash
hash_remove-client = refl
