-- ===== src/Map/Hash.antt =====
-- src/map/hash.c and src/map/hash.h, and the keys of src/map/map.c: nodes in a block, linked by
-- their positions, and an index of the first node of each chain below the block. `index` and `n` are
-- functions from a position; a value is a number, and NULL is 0. The table and the keys are not NULL.
pub mod Put
pub mod Grow
pub mod Remove
pub mod Free
pub mod Samples
mod Tests
use redis_pool.Base.{
  ℕ, zero, suc, ◌+◌, ◌-◌, ◌*◌, ◌/◌, ◌%◌, ◌^◌, Bool, true, false, not, ◌&&◌, Option, none, some,
  List, [], ◌∷◌, ltb, leb, ◌==◌, if◌then◌else◌,
}

-- struct mapKey: `str` has the bytes before the final zero.
pub record MapKey : Type 0 where
  pub h : ℕ
  pub str : Option (List ℕ)

pub record HashNode : Type 0 where
  pub key : MapKey
  pub value : ℕ
  pub next : ℕ
  pub def : Bool

pub record Hash : Type 0 where
  pub avalid : ℕ
  pub max : ℕ
  pub total : ℕ
  pub undef : ℕ
  pub index : ℕ → ℕ
  pub n : ℕ → HashNode

-- `fault` is the use of memory outside of the block.
pub data Result : Type 0 where
  done : (value : ℕ) → Hash → Result
  fault : Result
  out_of_fuel : Result

-- A char is signed: in uint64_t.
abbrev char_bits : ℕ → ℕ
char_bits c = if ltb c 128 then c else 2 ^ 64 - 256 + c

pub hash_code_loop : (h : ℕ) → List ℕ → ℕ
hash_code_loop h [] = h
hash_code_loop h (c ∷ str) = hash_code_loop ((h * 31 + char_bits c) % 2 ^ 64) str

pub hash_code : (str : List ℕ) → ℕ
unfolding hash_code_loop
hash_code str = hash_code_loop 0 str

-- The int in the low bits, in uint64_t.
abbrev int_bits : ℕ → ℕ
int_bits h = let low = h % 2 ^ 32 in if ltb low (2 ^ 31) then low else 2 ^ 64 - 2 ^ 32 + low

-- getHashKey keeps the code of a string in the key.
unfoldable pub with_code : MapKey → MapKey
unfolding hash_code hash_code_loop
with_code key = elim key.str [
  | none ↦ key
  | some str ↦ elim str [
    | [] ↦ key
    | c ∷ cs ↦ if key.h == 0 then record key { h = int_bits (hash_code (c ∷ cs)) } else key
  ]
]

-- The place of the index below the block, counted from its start: `max` is a power of two, so
-- `key | -max` is the remainder by `max`, less `max`.
pub get_hash_key : Hash → MapKey → ℕ
get_hash_key table key = key.h % 2 ^ 32 % table.max

abbrev pub default_index : ℕ
default_index = 2 ^ 32 - 1

pub is_valid : Hash → (index : ℕ) → Bool
is_valid table index = not (index == default_index) && ltb index table.max

abbrev same_bytes : List ℕ → List ℕ → Bool
same_bytes [] [] = true
same_bytes [] (d ∷ ds) = false
same_bytes (c ∷ cs) [] = false
same_bytes (c ∷ cs) (d ∷ ds) = (c == d) && same_bytes cs ds

same_str : Option (List ℕ) → Option (List ℕ) → Bool
same_str none none = true
same_str none (some d) = false
same_str (some c) none = false
same_str (some c) (some d) = same_bytes c d

pub is_hash_key_equal : MapKey → MapKey → Bool
unfolding same_str
is_hash_key_equal a b = (a.h == b.h) && same_str a.str b.str

-- The result of findHashNode.
pub data Found : Type 0 where
  node_at : ℕ → Found
  nowhere : Found
  unknown : Found

-- The loop of findHashNode; `unknown` is a loop that is not followed to its end.
unfoldable pub find_hash_loop : (fuel : ℕ) → Hash → MapKey → (index : ℕ) → Found
find_hash_loop zero table key index = unknown
find_hash_loop (suc fuel) table key index =
    if is_valid table index
    then if not (table.n index).def
      then nowhere
      else if is_hash_key_equal key (table.n index).key
      then node_at index
      else find_hash_loop fuel table key (table.n index).next
    else nowhere

-- The key has its code.
unfoldable pub find_hash_node : (fuel : ℕ) → Hash → MapKey → Found
find_hash_node fuel table key = find_hash_loop fuel table key (table.index (get_hash_key table key))

abbrev pub set_at : {A : Type 0} → (ℕ → A) → ℕ → A → ℕ → A
set_at f p a q = if q == p then a else f q

pub empty_node : HashNode
empty_node = record { key = record { h = 0; str = none }; value = 0; next = 0; def = false }

-- The loop that enters the nodes in the new index: `p` stays at the first node, and `i` is one ahead.
pub reindex : (left i : ℕ) → Hash → Hash
reindex zero i table = table
reindex (suc left) i table =
    let slot = get_hash_key table (table.n 0).key in
    reindex left (i + 1) (record table {
      n = set_at table.n 0 (record (table.n 0) { next = table.index slot });
      index = set_at table.index slot (i + 1);
    })

abbrev pub is_idle : Hash → Bool
is_idle table = ltb 8 table.total && ltb table.total ((table.max / 2 + 2 ^ 32 - 16) % 2 ^ 32)

-- `room` says whether malloc succeeds; `none` is the use of memory outside of the block. A smaller
-- table moves `n` by tmpMax - max, which is 2^32 - max / 2 in uint32_t.
unfoldable pub resize_hash : (room : Bool) → Hash → Option Hash
unfolding reindex empty_node
resize_hash room table =
    if is_idle table
    then none
    else if leb table.max table.total
    then if room
      then some (
          reindex table.total 0 (record table {
            max = table.max * 2 % 2 ^ 32;
            n = λ p. if ltb p table.max then table.n p else empty_node;
            index = λ p. default_index;
          }))
      else some table
    else some table

-- The new node at `index`.
pub add_node_at : (index : ℕ) → MapKey → (value : ℕ) → Hash → Result
add_node_at index key value table =
    let slot = get_hash_key table key in
    done 0 (record table {
      n =
          set_at table.n index
            (record { key = key; value = value; next = table.index slot; def = true });
      index = set_at table.index slot index;
      total = (table.total + 1) % 2 ^ 32;
    })

-- A removed node is taken first, then the next unused one. Without either nothing is put.
pub add_hash_node : MapKey → (value : ℕ) → Hash → Result
unfolding add_node_at
add_hash_node key value table =
    if is_valid table table.undef
    then add_node_at table.undef key value (record table { undef = (table.n table.undef).next })
    else if ltb table.avalid table.max
    then add_node_at table.avalid key value (record table { avalid = table.avalid + 1 })
    else done 0 table

unfoldable pub put_in : (fuel : ℕ) → MapKey → (value : ℕ) → Hash → Result
put_in fuel key value table = elim (find_hash_node fuel table key) [
  | node_at p ↦
      done (table.n p).value
        (record table { n = set_at table.n p (record (table.n p) { value = value }) })
  | nowhere ↦ add_hash_node key value table
  | unknown ↦ out_of_fuel
]

unfoldable pub hash_put : (room : Bool) (fuel : ℕ) → MapKey → (value : ℕ) → Hash → Result
hash_put room fuel key value table =
    elim (if leb table.max table.total then resize_hash room table else some table) [
      | none ↦ fault
      | some table' ↦ put_in fuel (with_code key) value table'
    ]

-- isExistKey; `none` is a search that is not followed to its end.
pub is_exist_key : (fuel : ℕ) → Hash → MapKey → Option Bool
is_exist_key fuel table key = elim (find_hash_node fuel table (with_code key)) [
  | node_at i ↦ some true
  | nowhere ↦ some false
  | unknown ↦ none
]

unfoldable pub hash_get : (fuel : ℕ) → MapKey → Hash → Result
hash_get fuel key table = elim (find_hash_node fuel table (with_code key)) [
  | node_at p ↦ done (table.n p).value table
  | nowhere ↦ done 0 table
  | unknown ↦ out_of_fuel
]

pub new_hash : Hash
unfolding empty_node
new_hash = record {
  avalid = 0;
  max = 8;
  total = 0;
  undef = default_index;
  index = λ p. default_index;
  n = λ p. empty_node;
}

-- The loop of hashRemove: the node with the key and the one before it.
pub remove_loop_at :
    (fuel : ℕ) → Hash → MapKey → (parent : Option ℕ) (index : ℕ) → Option (Option (Option ℕ × ℕ))
remove_loop_at zero table key parent index = none
remove_loop_at (suc fuel) table key parent index =
    if is_valid table index
    then if not (table.n index).def
      then some none
      else if is_hash_key_equal key (table.n index).key
      then some (some (parent, index))
      else remove_loop_at fuel table key (some index) (table.n index).next
    else some none

-- The links to the node at `p`: the first of a chain without a next keeps its place in the index.
pub unlink_node : Hash → (slot : ℕ) (parent : Option ℕ) (p : ℕ) → Hash
unlink_node table slot none p =
    if is_valid table (table.n p).next
    then record table { index = set_at table.index slot (table.n p).next }
    else table
unlink_node table slot (some q) p = record table {
  n = set_at table.n q (record (table.n q) { next = (table.n p).next });
}

pub drop_hash_node : Hash → (p : ℕ) → Hash
drop_hash_node table p = record table {
  n = set_at table.n p (record (table.n p) { next = table.undef; value = 0; def = false });
  undef = p;
  total = (table.total + 2 ^ 32 - 1) % 2 ^ 32;
}

-- Behind the loop.
abbrev pub end_remove : (room : Bool) → Hash → (slot : ℕ) → Option (Option (Option ℕ × ℕ)) → Result
end_remove room table slot none = out_of_fuel
end_remove room table slot (some none) = done 0 table
end_remove room table slot (some (some (parent, p))) =
    elim (resize_hash room (drop_hash_node (unlink_node table slot parent p) p)) [
      | none ↦ fault
      | some table' ↦ done (table.n p).value table'
    ]

unfoldable pub hash_remove : (room : Bool) (fuel : ℕ) → MapKey → Hash → Result
hash_remove room fuel key table =
    let code = with_code key in
    let slot = get_hash_key table code in
    end_remove room table slot (remove_loop_at fuel table code none (table.index slot))
