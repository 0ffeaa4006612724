-- ===== src/Map/Hash/Grow.antt =====
-- The growth of a table by resizeHash of src/map/hash.c.
use redis_pool.Base.{
  ℕ, zero, suc, ◌+◌, ◌*◌, ◌%◌, ◌^◌, ◌<◌, ◌≡◌, refl, ap, ◌∙◌, inl, inr, Bool, true, false, ◌&&◌,
  some, arith, ltb, leb, ◌==◌, if◌then◌else◌, Bool-cases,
}
use redis_pool.Map.Hash.{
  MapKey, HashNode, Hash, get_hash_key, default_index, is_valid, nowhere, find_hash_loop,
  find_hash_node, set_at, empty_node, reindex, is_idle, resize_hash,
}

-- The table after the loop over the old entries: `slot` is the place of the first node's key.
record IsReindexed (left i : ℕ) (t t' : Hash) : Type 0 where
  index :
      (q : ℕ)
      → t'.index q
        ≡ (if (q == get_hash_key t (t.n 0).key) && ltb 0 left then i + left else t.index q)
  others : (p : ℕ) → 0 < p → t'.n p ≡ t.n p
  max : t'.max ≡ t.max

reindex-IsReindexed : (left i : ℕ) (t : Hash) → IsReindexed left i t (reindex left i t)
unfolding reindex get_hash_key
reindex-IsReindexed zero i t = record {
  index = λ q. ground arith;
  others = λ p h. refl;
  max = refl;
}
reindex-IsReindexed (suc left) i t =
    let slot = get_hash_key t (t.n 0).key in
    let m : HashNode = record (t.n 0) { next = t.index slot } in
    let next : Hash = record t { n = set_at t.n 0 m; index = set_at t.index slot (i + 1) } in
    let rest = reindex-IsReindexed left (i + 1) next in
    record {
      index = λ q. rest.index q ∙ ground arith;
      others = λ p h. rest.others p h ∙ ground arith;
      max = rest.max;
    }

-- Every position but that of the number of entries is the default one.
find_hash_node-nowhere :
    (fuel : ℕ) (t : Hash) (slot p : ℕ) (key : MapKey)
    → ((q : ℕ) → t.index q ≡ (if q == slot then p else default_index))
    → (t.n p).def ≡ false
    → find_hash_node (suc fuel) t key ≡ nowhere
unfolding find_hash_node find_hash_loop is_valid
find_hash_node-nowhere fuel t slot p key index unused =
    elim (Bool-cases (get_hash_key t key == slot)) [
      | inl e ↦ rw (index (get_hash_key t key), e, unused) (ground arith)
      | inr e ↦ rw (index (get_hash_key t key), e) refl
    ]

if-and :
    (b c : Bool) (x y d : ℕ) → c ≡ true → x ≡ y → (if b && c then x else d) ≡ (if b then y else d)
if-and true c x y d e h = rw e h
if-and false c x y d e h = refl

-- A full table that is not taken to be idle grows if malloc succeeds, and then findHashNode finds no
-- key at all: every entry is lost.
pub resize_hash-nowhere :
    (fuel : ℕ) (table : Hash)
    → table.total ≡ table.max
    → 0 < table.max
    → is_idle table ≡ false
    → (table' : Hash) × (resize_hash true table ≡ some table')
      × ((key : MapKey) → find_hash_node (suc fuel) table' key ≡ nowhere)
unfolding resize_hash empty_node
resize_hash-nowhere fuel table full pos busy =
    let fresh : Hash = record table {
      max = table.max * 2 % 2 ^ 32;
      n = λ p. if ltb p table.max then table.n p else empty_node;
      index = λ p. default_index;
    } in
    let re = reindex-IsReindexed table.total 0 fresh in
    let at_end : leb table.max table.total ≡ true = ground arith in
    let slot = get_hash_key fresh (fresh.n 0).key in
    let entries : ltb 0 table.total ≡ true = ground arith in
    let edge : ltb table.total table.max ≡ false = ground arith in
    let behind : (fresh.n table.total).def ≡ false = rw edge refl in
    (
      reindex table.total 0 fresh,
      rw (busy, at_end) refl,
      λ key.
          find_hash_node-nowhere fuel (reindex table.total 0 fresh) slot table.total key
            (λ q.
              re.index q
              ∙ if-and (q == slot) (ltb 0 table.total) (0 + table.total) table.total default_index
                  entries (omega arith))
            (ap (λ m. m.def) (re.others table.total (omega arith)) ∙ behind),
    )
