-- ===== src/Map/Hash/Tests.antt =====
-- A table of src/map/hash.c with two options, and the theorems applied to it.
use redis_pool.Base.{ℕ, ◌-◌, ◌^◌, ◌≡◌, refl, true, none, some, [], ◌∷◌, arith, ◌==◌, if◌then◌else◌}
use redis_pool.Map.Hash.{
  MapKey, Hash, done, hash_put, hash_get, empty_node, find_hash_node, nowhere, resize_hash,
  get_hash_key, with_code, is_valid, hash_code, hash_code_loop,
}
use redis_pool.Map.Hash.Put.{hash_get-hash_put}
use redis_pool.Map.Hash.Grow.{resize_hash-nowhere}

-- A key with a number alone.
abbrev numbered : ℕ → MapKey
numbered h = record { h = h; str = none }

-- 1 and 9 share a chain.
abbrev two_nodes : Hash
two_nodes = record {
  avalid = 2;
  max = 8;
  total = 2;
  undef = 2 ^ 32 - 1;
  index = λ q. if q == 1 then 1 else 2 ^ 32 - 1;
  n = λ p.
      if p == 0
      then record { key = numbered 1; value = 11; next = 2 ^ 32 - 1; def = true }
      else if p == 1
      then record { key = numbered 9; value = 99; next = 0; def = true }
      else empty_node;
}

-- "ab"
hash_code-ab : hash_code (97 ∷ 98 ∷ []) ≡ 3105
unfolding hash_code hash_code_loop
hash_code-ab = refl

hash_get-hash_put_example :
    (old : ℕ) × (table' : Hash) × (hash_put true 3 (numbered 1) 12 two_nodes ≡ done old table')
    × (hash_get 3 (numbered 1) table' ≡ done 12 table')
unfolding get_hash_key with_code is_valid
hash_get-hash_put_example =
    hash_get-hash_put true 2 (numbered 1) 12 two_nodes (1 ∷ 0 ∷ [])
      (refl, refl, refl, (refl, refl, refl, refl)) (omega arith) (omega arith) (omega arith) refl

-- Eight entries, one in each chain.
abbrev eight_nodes : Hash
eight_nodes = record {
  avalid = 8;
  max = 8;
  total = 8;
  undef = 2 ^ 32 - 1;
  index = λ q. q;
  n = λ p. record { key = numbered p; value = 7; next = 2 ^ 32 - 1; def = true };
}

resize_hash-nowhere_example :
    (table' : Hash) × (resize_hash true eight_nodes ≡ some table')
    × ((key : MapKey) → find_hash_node 1 table' key ≡ nowhere)
resize_hash-nowhere_example = resize_hash-nowhere 0 eight_nodes refl (omega arith) refl
