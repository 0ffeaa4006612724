-- ===== src/Map/Hash/Remove.antt =====
-- hashRemove of src/map/hash.c where the key is alone in its chain.
use redis_pool.Base.{
  ℕ, suc, ◌≤◌, ◌<◌, ◌≡◌, refl, ap, ◌∙◌, Bool, true, false, none, some, [], ◌∷◌, arith,
}
use redis_pool.Map.Hash.{
  MapKey, Hash, done, out_of_fuel, with_code, get_hash_key, is_valid, is_hash_key_equal,
  remove_loop_at, unlink_node, drop_hash_node, resize_hash, end_remove, hash_remove, new_hash,
  hash_get, find_hash_node, find_hash_loop,
}
use redis_pool.Map.Hash.Put.{IsChain}

-- The key has one node, and no other key shares its place in the index; the table does not resize
-- when an entry goes.
pub record IsAlone (key : MapKey) (p : ℕ) (table : Hash) : Type 0 where
  pub chain : IsChain table (table.index (get_hash_key table (with_code key))) (p ∷ [])
  pub key_is : is_hash_key_equal (with_code key) (table.n p).key ≡ true
  pub some_entry : 0 < table.total
  pub few : table.total ≤ 9
  pub in_max : table.total ≤ table.max

resize_hash-few :
    (room : Bool) (table : Hash)
    → table.total ≤ 8
    → table.total < table.max
    → resize_hash room table ≡ some table
unfolding resize_hash
resize_hash-few room table few below = ground (arith, few, below)

module _ (key : MapKey) (p : ℕ) (table : Hash) (h : IsAlone key p table) where
  -- The table without the node.
  abbrev dropped : Hash
  dropped = drop_hash_node table p

  unlink_node-alone :
      drop_hash_node (unlink_node table (get_hash_key table (with_code key)) none p) p ≡ dropped
  unfolding unlink_node
  unlink_node-alone = rw h.chain.3 refl

  finds :
      (f : ℕ)
      → remove_loop_at
          (suc f)
          table
          (with_code key)
          none
          (table.index (get_hash_key table (with_code key)))
        ≡ some (some (none, p))
  unfolding remove_loop_at
  finds f = rw (h.chain.0, h.chain.1, h.chain.2, h.key_is) refl

  total-dropped : (dropped.total ≤ 8) × (dropped.total < dropped.max)
  unfolding drop_hash_node
  total-dropped = (omega (arith, h.some_entry, h.few), omega (arith, h.some_entry, h.few, h.in_max))

  def-dropped : (dropped.n p).def ≡ false
  unfolding drop_hash_node
  def-dropped = ground arith

  finds_none :
      (f : ℕ)
      → remove_loop_at
          (suc f)
          dropped
          (with_code key)
          none
          (dropped.index (get_hash_key dropped (with_code key)))
        ≡ some none
  unfolding remove_loop_at drop_hash_node get_hash_key is_valid
  finds_none f = ground (arith, h.chain.0, h.chain.1)

  -- hashRemove of a key that is alone in its chain gives its value, and a second one gives NULL.
  pub hash_remove-twice :
      (room : Bool) (f : ℕ)
      → (t : Hash) × (hash_remove room (suc f) key table ≡ done (table.n p).value t)
        × (hash_remove room (suc f) key t ≡ done 0 t)
  unfolding hash_remove
  hash_remove-twice room f = (
    dropped,
    ap (end_remove room table (get_hash_key table (with_code key))) (finds f)
        ∙ rw
            (
              end_remove,
              unlink_node-alone,
              resize_hash-few room dropped total-dropped.0 total-dropped.1,
            )
            refl,
    ap (end_remove room dropped (get_hash_key dropped (with_code key))) (finds_none f),
  )

-- A new table has no entry.
pub hash_get-new_hash :
    (fuel : ℕ) (key : MapKey) → hash_get (suc fuel) key new_hash ≡ done 0 new_hash
unfolding hash_get find_hash_node find_hash_loop new_hash is_valid
hash_get-new_hash fuel key = refl

pub hash_get-zero : (key : MapKey) (table : Hash) → hash_get 0 key table ≡ out_of_fuel
unfolding hash_get find_hash_node find_hash_loop
hash_get-zero key table = refl
