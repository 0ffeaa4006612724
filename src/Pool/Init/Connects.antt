-- ===== src/Pool/Init/Connects.antt =====
-- The idle connections that initPool of src/net/pool.c makes.
use redis_pool.Base.{
  ℕ, zero, suc, ◌+◌, ◌<◌, ◌≡◌, refl, sym, ap, ◌∙◌, true, false, Option, some, List, [], ◌∷◌, ◌++◌,
  arith, ◌==◌, get_or, append_assoc, subst,
}
use redis_pool.Pool.{Redis, Pool, Dial, update, new_redis}
use redis_pool.Pool.Idle.{AreIdle, occurs}
use redis_pool.Pool.Init.{
  Settings, is_bad, empty_pool, made, link_next, joined_to, connect_loop, and_then, init_pool,
}

-- The system gives a connection, and redis accepts a password.
pub record Connects (d : Dial) : Type 0 where
  pub socket : 0 < d.fd
  pub room : 0 < d.address
  pub client : d.client ≡ true
  pub sent : d.sent ≡ true
  pub received : d.received ≡ true
  pub plus : get_or d.ok 0 0 ≡ b'+'

unfoldable pub addresses : (dials : ℕ → Dial) (left num : ℕ) → List ℕ
addresses dials zero num = []
addresses dials (suc left) num = (dials num).address ∷ addresses dials left (num + 1)

-- malloc gives an address that is not in use.
pub data AreNew : (seen news : List ℕ) → Type 0 where
  no_more : {seen : List ℕ} → AreNew seen []
  and_new :
      {seen : List ℕ} {x : ℕ} {xs : List ℕ}
      → occurs x seen ≡ false
      → AreNew (seen ++ x ∷ []) xs
      → AreNew seen (x ∷ xs)

abbrev connected : Dial → Pool → Pool
connected d p = record p {
  nodes = update p.nodes d.address (some (record { fd = d.fd; prev = 0; next = 0 }));
}

new_redis-Connects : (d : Dial) (p : Pool) → Connects d → new_redis d p ≡ (d.address, connected d p)
unfolding new_redis
new_redis-Connects d p c = ground (arith, c.socket, c.room, c.client, c.sent, c.received, c.plus)

-- The node of a new connection.
abbrev node_of : ℕ → Redis
node_of fd = record { fd = fd; prev = 0; next = 0 }

-- A new connection behind the last one.
AreIdle-snoc :
    (nodes : ℕ → Option Redis) (head r tmp : ℕ) (fd : ℕ) (xs : List ℕ)
    → AreIdle nodes head (xs ++ r ∷ [])
    → occurs r xs ≡ false
    → occurs tmp (xs ++ r ∷ []) ≡ false
    → 0 < tmp
    → (n : Redis) × (0 < r)
      × (update nodes tmp (some (node_of fd)) r ≡ some n)
      × AreIdle
          (update (update nodes tmp (some (node_of fd))) r (some (record n { next = tmp })))
          head
          (xs ++ r ∷ tmp ∷ [])
AreIdle-snoc nodes head r tmp fd [] (leads, pos, (n, found, first, rest)) out new more = (
  n,
  pos,
  ground arith,
  (
    leads,
    pos,
    (
      record n { next = tmp },
      ground arith,
      first,
      (refl, more, (node_of fd, ground arith, refl, refl)),
    ),
  ),
)
AreIdle-snoc nodes head r tmp fd (x ∷ xs) (leads, pos, (m, found, first, rest)) out new more =
    let (n, above, found', idle) =
      AreIdle-snoc nodes m.next r tmp fd xs rest (ground arith) (ground arith) more in
    (n, above, found', (leads, pos, (m, ground arith, first, idle)))

-- `p` with the nodes and the first connection of another pool.
abbrev restored : (p q : Pool) → Pool
restored p q = record q { nodes = p.nodes; redises = p.redises }

module _ (dials : ℕ → Dial) where
  -- A turn behind the first.
  joined_to-AreIdle :
      (num r : ℕ) (p : Pool) (xs : List ℕ)
      → Connects (dials num)
      → 0 < num
      → AreIdle p.nodes p.redises (xs ++ r ∷ [])
      → occurs r xs ≡ false
      → occurs (dials num).address (xs ++ r ∷ []) ≡ false
      → (q : Pool) × (joined_to num r (new_redis (dials num) p) ≡ some q)
        × AreIdle q.nodes q.redises (xs ++ r ∷ (dials num).address ∷ [])
        × (restored p q ≡ p)
  joined_to-AreIdle num r p xs c later idle out new =
      let d = dials num in
      let (n, above, found, idle') =
        AreIdle-snoc p.nodes p.redises r d.address d.fd xs idle out new c.room in
      let there : (d.address == 0) ≡ false = ground (arith, c.room) in
      let not_first : (num == 0) ≡ false = ground (arith, later) in
      let set : (r == 0) ≡ false = ground (arith, above) in
      let q : Pool = record p {
        nodes =
            update (update p.nodes d.address (some (node_of d.fd))) r
              (some (record n { next = d.address }));
      } in
      let linked : link_next r d.address (connected d p) ≡ some q =
        rw (link_next, set, found) refl in
      (
        q,
        ap (joined_to num r) (new_redis-Connects d p c) ∙ rw (there, not_first) linked,
        idle',
        refl,
      )

  connect_loop-AreIdle :
      (left num r : ℕ) (p : Pool) (xs : List ℕ)
      → ((i : ℕ) → i < num + left → Connects (dials i))
      → 0 < num
      → AreIdle p.nodes p.redises (xs ++ r ∷ [])
      → occurs r xs ≡ false
      → AreNew (xs ++ r ∷ []) (addresses dials left num)
      → (q : Pool) × (connect_loop dials left num r p ≡ some q)
        × AreIdle q.nodes q.redises (xs ++ r ∷ addresses dials left num)
        × (restored p q ≡ p)
  unfolding connect_loop addresses
  connect_loop-AreIdle zero num r p xs all later idle out new = (p, refl, idle, refl)
  connect_loop-AreIdle (suc left) num r p xs all later idle out (and_new fresh new) =
      let d = dials num in
      let c = all num (omega arith) in
      let (q, e, idle', kept) = joined_to-AreIdle num r p xs c later idle out fresh in
      let assoc = append_assoc xs (r ∷ []) (d.address ∷ []) in
      let (q', e', idle2, kept') =
        connect_loop-AreIdle left (num + 1) d.address q (xs ++ r ∷ [])
          (λ i h. all i (omega (arith, h))) (omega arith)
          (subst (λ t. AreIdle q.nodes q.redises t) (sym assoc) idle') fresh new in
      (
        q',
        ap (and_then (connect_loop dials left (num + 1) (new_redis d p).0)) e
            ∙ ap (λ (t : ℕ × Pool). connect_loop dials left (num + 1) t.0 q)
                (new_redis-Connects d p c)
            ∙ e',
        subst (λ t. AreIdle q'.nodes q'.redises t)
            (append_assoc xs (r ∷ []) (d.address ∷ addresses dials left (num + 1))) idle2,
        ap (restored p) kept' ∙ kept,
      )

  -- The whole loop.
  first_loop :
      (n : ℕ) (p : Pool)
      → ((i : ℕ) → i < n → Connects (dials i))
      → 0 < n
      → AreNew [] (addresses dials n 0)
      → (q : Pool) × (connect_loop dials n 0 0 p ≡ some q)
        × AreIdle q.nodes q.redises (addresses dials n 0)
        × (restored p q ≡ p)
  unfolding connect_loop addresses
  first_loop zero p all some_left new = absurd (omega (arith, some_left))
  first_loop (suc n) p all some_left (and_new fresh new) =
      let d = dials 0 in
      let c = all 0 (omega arith) in
      let first : Pool = record (connected d p) { redises = d.address } in
      let there : (d.address == 0) ≡ false = ground (arith, c.room) in
      let idle : AreIdle first.nodes first.redises (d.address ∷ []) =
        (refl, c.room, (node_of d.fd, ground arith, refl, refl)) in
      let (q, e, idle', kept) =
        connect_loop-AreIdle n 1 d.address first [] (λ i h. all i (omega (arith, h))) (omega arith)
          idle refl new in
      (
        q,
        ap (λ (t : ℕ × Pool). and_then (connect_loop dials n 1 t.0) (joined_to 0 0 t))
              (new_redis-Connects d p c)
            ∙ rw there e,
        idle',
        ap (restored p) kept,
      )

-- For settings that initPool accepts, where malloc gives memory and every connection is made at an
-- address that is not in use: initPool gives a pool whose idle connections are exactly the minNum new
-- ones, in the order in which they were made, and counts minNum of them and no active one.
pub init_pool-AreIdle :
    (s : Settings) (redises : ℕ) (dials : ℕ → Dial)
    → is_bad s ≡ false
    → ((i : ℕ) → i < s.min_num → Connects (dials i))
    → AreNew [] (addresses dials s.min_num 0)
    → (p : Pool) × (init_pool true s redises dials ≡ made p)
      × AreIdle p.nodes p.redises (addresses dials s.min_num 0)
      × (p.avalid_num ≡ s.min_num)
      × (p.active_num ≡ 0)
      × (p.max_num ≡ s.max_num)
      × (p.min_num ≡ s.min_num)
unfolding init_pool
init_pool-AreIdle s redises dials good all new =
    let positive : 0 < s.min_num = ground (arith, good) in
    let (p, e, idle, kept) = first_loop dials s.min_num (empty_pool s redises) all positive new in
    (
      p,
      rw (good, e) refl,
      idle,
      ap (λ q. q.avalid_num) kept,
      ap (λ q. q.active_num) kept,
      ap (λ q. q.max_num) kept,
      ap (λ q. q.min_num) kept,
    )
