-- ===== src/Pool/Same.antt =====
-- putRedis and delRedis of src/net/pool.c leave the two counters of the pool.
use redis_pool.Base.{
  ℕ, zero, suc, ◌≡◌, ◌∙◌, refl, inl, inr, Bool, Option, none, some, List, ◌==◌, Bool-cases,
  Option-cases,
}
use mathlib.Core.Path.{subst}
use redis_pool.Pool.{
  Redis, Pool, put_redis, free_redis, free_chain, del_redis, unlink_redis, del_one, del_after,
}

-- The operation leaves the counters.
pub record SameCounts (q q' : Pool) : Type 0 where
  pub avalid : q'.avalid_num ≡ q.avalid_num
  pub active : q'.active_num ≡ q.active_num
  pub max : q'.max_num ≡ q.max_num
  pub min : q'.min_num ≡ q.min_num

pub same : (q : Pool) → SameCounts q q
same q = record { avalid = refl; active = refl; max = refl; min = refl }

pub kept :
    (q : Pool) (redises : ℕ) (nodes : ℕ → Option Redis) (closed : List ℕ)
    → SameCounts q (record q { redises = redises; nodes = nodes; closed = closed })
kept q redises nodes closed = record { avalid = refl; active = refl; max = refl; min = refl }

SameCounts-trans : (p q r : Pool) → SameCounts p q → SameCounts q r → SameCounts p r
SameCounts-trans p q r s t = record {
  avalid = t.avalid ∙ s.avalid;
  active = t.active ∙ s.active;
  max = t.max ∙ s.max;
  min = t.min ∙ s.min;
}

unfoldable pub Counted : Pool → Option Pool → Type 0
Counted q none = Unit {0}
Counted q (some q') = SameCounts q q'

pub Counted-put_redis : (r : ℕ) (q : Pool) → Counted q (put_redis r q)
unfolding put_redis Counted
Counted-put_redis r q = elim (Bool-cases (r == 0)) [
  | inl e ↦ rw e (same q)
  | inr e ↦ elim (Option-cases (q.nodes r)) [
    | inl f ↦ rw (e, f) tt
    | inr (n, f) ↦ rw (e, f) (kept q _ _ _)
  ]
]

Counted-free_redis : (r : ℕ) (q : Pool) → Counted q (free_redis r q)
unfolding free_redis Counted
Counted-free_redis r q = elim (Bool-cases (r == 0)) [
  | inl e ↦ rw e (same q)
  | inr e ↦ elim (Option-cases (q.nodes r)) [
    | inl f ↦ rw (e, f) tt
    | inr (n, f) ↦ rw (e, f) (kept q _ _ _)
  ]
]

-- One operation after another.
Counted-next :
    (q : Pool) (o : Option Pool) (f : Pool → Option Pool)
    → Counted q o
    → ((q' : Pool) → Counted q' (f q'))
    → Counted q (elim o [ none ↦ none | some q' ↦ f q' ])
unfolding Counted
Counted-next q none f h g = tt
Counted-next q (some q') f h g = elim (Option-cases (f q')) [
  | inl e ↦ rw e tt
  | inr (q'', e) ↦ rw e (SameCounts-trans q q' q'' h (subst (Counted q') e (g q')))
]

Counted-free_chain :
    (follow : Redis → ℕ) (fuel r : ℕ) (q : Pool) → Counted q (free_chain follow fuel r q)
unfolding free_chain
Counted-free_chain follow zero r q = unfold Counted in tt
Counted-free_chain follow (suc fuel) r q = elim (Bool-cases (r == 0)) [
  | inl e ↦ rw e (unfold Counted in same q)
  | inr e ↦ elim (Option-cases (q.nodes r)) [
    | inl f ↦ rw (e, f) (unfold Counted in tt)
    | inr (n, f) ↦
        rw (e, f)
          (Counted-next q (free_redis r q) (free_chain follow fuel (follow n))
            (Counted-free_redis r q) (Counted-free_chain follow fuel (follow n)))
  ]
]

Counted-unlink_redis : (n : Redis) (q : Pool) → Counted q (unlink_redis n q)
unfolding Counted
Counted-unlink_redis n q = elim (Bool-cases (n.prev == 0)) [
  | inl e ↦ rw e (kept q _ _ _)
  | inr e ↦ elim (Option-cases (q.nodes n.prev)) [
    | inl f ↦ rw (e, f) tt
    | inr (m, f) ↦ rw (e, f) (kept q _ _ _)
  ]
]

Counted-del_one : (rd : ℕ) (n : Redis) (q : Pool) → Counted q (del_one rd n q)
Counted-del_one rd n q =
    Counted-next q (unlink_redis n q) (free_redis rd) (Counted-unlink_redis n q)
      (Counted-free_redis rd)

Counted-emptied : (q : Pool) → Counted q (some (record q { redises = 0 }))
unfolding Counted
Counted-emptied q = kept q _ _ _

Counted-del_after : (fuel : ℕ) (n : Redis) (q : Pool) → Counted q (del_after fuel n q)
Counted-del_after fuel n q =
    Counted-next q (free_chain (λ m. m.prev) fuel n.prev q) _
      (Counted-free_chain (λ m. m.prev) fuel n.prev q)
      (λ q'.
        Counted-next q' (free_chain (λ m. m.next) fuel n.next q') _
          (Counted-free_chain (λ m. m.next) fuel n.next q') Counted-emptied)

pub Counted-del_redis : (fuel rd : ℕ) (all : Bool) (q : Pool) → Counted q (del_redis fuel rd all q)
unfolding del_redis
Counted-del_redis fuel rd all q = elim (Bool-cases (rd == 0)) [
  | inl e ↦ rw e (unfold Counted in same q)
  | inr e ↦ elim (Option-cases (q.nodes rd)) [
    | inl f ↦ rw (e, f) (unfold Counted in tt)
    | inr (n, f) ↦ elim (Bool-cases all) [
      | inl g ↦
          rw (e, f, g)
            (Counted-next q (free_redis rd q) (del_after fuel n) (Counted-free_redis rd q)
              (Counted-del_after fuel n))
      | inr g ↦ rw (e, f, g) (Counted-del_one rd n q)
    ]
  ]
]
