-- ===== src/Map/Hash/Put.antt =====
-- hashGet after hashPut of src/map/hash.c.
use redis_pool.Base.{
  ℕ, zero, suc, ◌+◌, ◌^◌, ◌<◌, ◌≡◌, refl, ap, ◌∙◌, inl, inr, ◌⊎◌, Bool, true, false, ◌||◌, Option,
  none, some, List, [], ◌∷◌, arith, ltb, leb, ◌==◌, if◌then◌else◌, length, Bool-cases,
}
use redis_pool.Map.Hash.{
  MapKey, HashNode, Hash, done, with_code, get_hash_key, is_valid, is_hash_key_equal, same_bytes,
  same_str, Found, node_at, nowhere, find_hash_loop, find_hash_node, set_at, put_in, add_hash_node,
  add_node_at, hash_put, hash_get,
}

-- The chain of nodes in use that begins at a position.
abbrev pub IsChain : Hash → (head : ℕ) → List ℕ → Type 0
IsChain table head [] = is_valid table head ≡ false
IsChain table head (p ∷ ps) =
    (head ≡ p)
    × (is_valid table p ≡ true)
    × ((table.n p).def ≡ true)
    × IsChain table (table.n p).next ps

-- Where a key stands in a chain.
unfoldable pub find_in : Hash → MapKey → List ℕ → Found
find_in table key [] = nowhere
find_in table key (p ∷ ps) =
    if is_hash_key_equal key (table.n p).key then node_at p else find_in table key ps

find_hash_loop-find_in :
    (fuel : ℕ) (table : Hash) (key : MapKey) (head : ℕ) (ps : List ℕ)
    → IsChain table head ps
    → length ps < fuel
    → find_hash_loop fuel table key head ≡ find_in table key ps
unfolding find_hash_loop find_in
find_hash_loop-find_in zero table key head ps chain enough = elim enough [ ]
find_hash_loop-find_in (suc fuel) table key head [] chain enough = rw chain
find_hash_loop-find_in (suc fuel) table key head (p ∷ ps) (leads, valid, used, rest) enough =
    rw leads (
      rw
        (valid, used, find_hash_loop-find_in fuel table key (table.n p).next ps rest (omega arith)))

-- A new value in a node leaves the chains.
abbrev with_value : Hash → (p value : ℕ) → Hash
with_value table p value = record table {
  n = set_at table.n p (record (table.n p) { value = value });
}

field-set_at :
    {A : Type 0} (f : HashNode → A) (n : ℕ → HashNode) (p : ℕ) (m : HashNode) (q : ℕ)
    → f m ≡ f (n p)
    → f (set_at n p m q) ≡ f (n q)
field-set_at f n p m q h = elim (Bool-cases (q == p)) [
  | inl e ↦ let same : p ≡ q = ground arith in rw e (h ∙ ap (λ x. f (n x)) same)
  | inr e ↦ rw e refl
]

find_hash_loop-with_value :
    (fuel : ℕ) (table : Hash) (key : MapKey) (p value head : ℕ)
    → find_hash_loop fuel (with_value table p value) key head ≡ find_hash_loop fuel table key head
unfolding find_hash_loop is_valid
find_hash_loop-with_value zero table key p value head = refl
find_hash_loop-with_value (suc fuel) table key p value head =
    let m = record (table.n p) { value = value } in
    rw
      (
        field-set_at (λ x. x.def) table.n p m head refl,
        field-set_at (λ x. x.key) table.n p m head refl,
        field-set_at (λ x. x.next) table.n p m head refl,
        find_hash_loop-with_value fuel table key p value (table.n head).next,
      )
      refl

find_hash_node-with_value :
    (fuel : ℕ) (table : Hash) (key : MapKey) (p value : ℕ)
    → find_hash_node fuel (with_value table p value) key ≡ find_hash_node fuel table key
unfolding find_hash_node get_hash_key
find_hash_node-with_value fuel table key p value =
    find_hash_loop-with_value fuel table key p value (table.index (get_hash_key table key))

same_bytes_refl : (cs : List ℕ) → same_bytes cs cs ≡ true
same_bytes_refl [] = refl
same_bytes_refl (c ∷ cs) = ground (arith, same_bytes_refl cs)

same_str_refl : (s : Option (List ℕ)) → same_str s s ≡ true
unfolding same_str
same_str_refl none = refl
same_str_refl (some cs) = same_bytes_refl cs

equal_refl : (key : MapKey) → is_hash_key_equal key key ≡ true
unfolding is_hash_key_equal
equal_refl key = ground (arith, same_str_refl key.str)

set_at_same : {A : Type 0} (f : ℕ → A) (p : ℕ) (a : A) → set_at f p a p ≡ a
set_at_same f p a = let same : (p == p) ≡ true = ground arith in rw same refl

-- A node that is free for a new entry.
abbrev pub HasRoom : Hash → Type 0
HasRoom table = (is_valid table table.undef || ltb table.avalid table.max) ≡ true

-- What hashPut leaves where it enters a node: the first of the key's chain.
IsFirst : MapKey → ℕ → Hash → Type 0
IsFirst key value table =
    (p : ℕ) × (table.index (get_hash_key table key) ≡ p)
    × (is_valid table p ≡ true)
    × ((table.n p).def ≡ true)
    × ((table.n p).key ≡ key)
    × ((table.n p).value ≡ value)

add_node_at-IsFirst :
    (p : ℕ) (key : MapKey) (value : ℕ) (table : Hash)
    → is_valid table p ≡ true
    → (table' : Hash) × (add_node_at p key value table ≡ done 0 table') × IsFirst key value table'
unfolding add_node_at get_hash_key is_valid IsFirst
add_node_at-IsFirst p key value table valid =
    let slot = get_hash_key table key in
    let m : HashNode = record { key = key; value = value; next = table.index slot; def = true } in
    let there = set_at_same table.n p m in
    (
      _,
      refl,
      (
        p,
        set_at_same table.index slot p,
        valid,
        ap (λ x. x.def) there,
        ap (λ x. x.key) there,
        ap (λ x. x.value) there,
      ),
    )

add_hash_node-IsFirst :
    (key : MapKey) (value : ℕ) (table : Hash)
    → table.max < 2 ^ 32
    → HasRoom table
    → (table' : Hash) × (add_hash_node key value table ≡ done 0 table') × IsFirst key value table'
unfolding add_hash_node is_valid
add_hash_node-IsFirst key value table small room = elim (Bool-cases (is_valid table table.undef)) [
  | inl e ↦ rw e (
      add_node_at-IsFirst table.undef key value
        (record table { undef = (table.n table.undef).next }) e)
  | inr e ↦
      let unused : ltb table.avalid table.max ≡ true = ground arith in
      rw (e, unused)
        (add_node_at-IsFirst table.avalid key value (record table { avalid = table.avalid + 1 })
          (ground arith))
]

find_in-cases :
    (table : Hash) (key : MapKey) (ps : List ℕ)
    → (find_in table key ps ≡ nowhere) ⊎ ((p : ℕ) × (find_in table key ps ≡ node_at p))
unfolding find_in
find_in-cases table key [] = inl refl
find_in-cases table key (p ∷ ps) = elim (Bool-cases (is_hash_key_equal key (table.n p).key)) [
  | inl e ↦ inr (p, rw e refl)
  | inr e ↦ rw e (find_in-cases table key ps)
]

find_hash_node-IsFirst :
    (fuel : ℕ) (key : MapKey) (value : ℕ) (table : Hash)
    → (first : IsFirst key value table)
    → (p : ℕ) × (find_hash_node (suc fuel) table key ≡ node_at p) × ((table.n p).value ≡ value)
unfolding find_hash_node find_hash_loop IsFirst
find_hash_node-IsFirst fuel key value table (p, at, valid, used, same, holds) =
    (p, rw (at, valid, used, same, equal_refl key) refl, holds)

hash_put-put_in :
    (room : Bool) (fuel : ℕ) (key : MapKey) (value : ℕ) (table : Hash)
    → leb table.max table.total ≡ false
    → hash_put room fuel key value table ≡ put_in fuel (with_code key) value table
unfolding hash_put
hash_put-put_in room fuel key value table e = rw (hash_put, e) refl

put_in-found :
    (fuel : ℕ) (key : MapKey) (value p : ℕ) (table : Hash)
    → find_hash_node fuel table key ≡ node_at p
    → put_in fuel key value table ≡ done (table.n p).value (with_value table p value)
unfolding put_in
put_in-found fuel key value p table e = rw (put_in, e) refl

put_in-nowhere :
    (fuel : ℕ) (key : MapKey) (value : ℕ) (table : Hash)
    → find_hash_node fuel table key ≡ nowhere
    → put_in fuel key value table ≡ add_hash_node key value table
unfolding put_in
put_in-nowhere fuel key value table e = rw (put_in, e) refl

hash_get-found :
    (fuel : ℕ) (key : MapKey) (p : ℕ) (table : Hash)
    → find_hash_node fuel table (with_code key) ≡ node_at p
    → hash_get fuel key table ≡ done (table.n p).value table
unfolding hash_get
hash_get-found fuel key p table e = rw (hash_get, e) refl

-- hashPut of a key whose chain is well formed, in a table that is not full and has a free node,
-- succeeds, and hashGet of the same key then gives the value. Fuel above the length of the chain is
-- enough.
pub hash_get-hash_put :
    (room : Bool) (fuel : ℕ) (key : MapKey) (value : ℕ) (table : Hash) (ps : List ℕ)
    → IsChain table (table.index (get_hash_key table (with_code key))) ps
    → length ps < suc fuel
    → table.total < table.max
    → table.max < 2 ^ 32
    → HasRoom table
    → (old : ℕ) × (table' : Hash) × (hash_put room (suc fuel) key value table ≡ done old table')
      × (hash_get (suc fuel) key table' ≡ done value table')
hash_get-hash_put room fuel key value table ps chain enough below small free =
    let code = with_code key in
    let puts = hash_put-put_in room (suc fuel) key value table (ground arith) in
    let finds : find_hash_node (suc fuel) table code ≡ find_in table code ps =
      unfold find_hash_node in
      find_hash_loop-find_in (suc fuel) table code (table.index (get_hash_key table code)) ps chain
        enough in
    elim (find_in-cases table code ps) [
      | inl e ↦
          let (table', adds, first) = add_hash_node-IsFirst code value table small free in
          let (p, found, holds) = find_hash_node-IsFirst fuel code value table' first in
          (
            0,
            table',
            puts ∙ put_in-nowhere (suc fuel) code value table (finds ∙ e) ∙ adds,
            hash_get-found (suc fuel) key p table' found ∙ ap (λ v. done v table') holds,
          )
      | inr (p, e) ↦ (
        (table.n p).value,
        with_value table p value,
        puts ∙ put_in-found (suc fuel) code value p table (finds ∙ e),
        hash_get-found (suc fuel) key p (with_value table p value)
              (find_hash_node-with_value (suc fuel) table code p value ∙ finds ∙ e)
            ∙ ap (λ m. done m.value (with_value table p value)) (set_at_same table.n p _),
      )
    ]
