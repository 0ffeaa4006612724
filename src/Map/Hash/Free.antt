-- ===== src/Map/Hash/Free.antt =====
-- freeHash of src/map/hash.c, and the keys and values that it frees.
use redis_pool.Base.{
  ℕ, zero, suc, ◌+◌, ◌≤◌, ◌≡◌, refl, ap, ◌∙◌, Option, none, some, List, [], ◌∷◌, arith, ltb, ◌==◌,
  if◌then◌else◌,
}
use redis_pool.Map.Hash.{Hash}

abbrev freed_value : ℕ → List ℕ → List ℕ
freed_value v vs = if v == 0 then vs else v ∷ vs

-- The loop over the nodes from `i` on: the values that are handed to freeMapValue. `none` is the use of a
-- node outside of the block.
unfoldable pub free_nodes : (left i : ℕ) → Hash → Option (List ℕ)
free_nodes zero i table = some []
free_nodes (suc left) i table = elim (free_nodes left (i + 1) table) [
  | none ↦ none
  | some vs ↦ if ltb i table.max then some (freed_value (table.n i).value vs) else none
]

-- The loop goes to `avalid`, and not to the node before it.
unfoldable pub free_hash : Hash → Option (List ℕ)
unfolding free_nodes
free_hash table = free_nodes (table.avalid + 1) 0 table

free_nodes-outside :
    (left i : ℕ) (table : Hash) → table.max ≤ i + left → free_nodes (suc left) i table ≡ none
unfolding free_nodes
free_nodes-outside zero i table h = ground arith
free_nodes-outside (suc left) i table h =
    let rest = free_nodes-outside left (i + 1) table (omega (arith, h)) in rw rest refl

-- For a table of which every node has been used, as behind `max` entries: freeHash uses a node behind the
-- end of the block.
pub free_hash-outside : (table : Hash) → table.avalid ≡ table.max → free_hash table ≡ none
unfolding free_hash
free_hash-outside table full =
    let next : table.avalid + 1 ≡ suc table.avalid = omega arith in
    ap (λ left. free_nodes left 0 table) next
    ∙ free_nodes-outside table.avalid 0 table (omega (arith, full))
