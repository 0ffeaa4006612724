-- ===== src/Sync/Order.antt =====
-- The order and the number of the calls of callSync of src/sync/interface.c, described without it: by what
-- stands in the list of the calls.
use redis_pool.Base.{
  ℕ, zero, suc, ◌+◌, ◌≤◌, ◌≡◌, refl, sym, ap, subst, ◌++◌, not, Bool, true, false, Option, none,
  some, List, [], ◌∷◌, arith, ◌==◌, if◌then◌else◌,
}
use redis_pool.Sync.{
  SyncArgs, Event, called_start, called_run, called_end, freed, event_if, events_of,
}

-- The start comes before the run, the run before the end, and the end before the free of the result.
abbrev pub rank : Event → ℕ
rank (called_start id) = 0
rank (called_run id) = 1
rank (called_end id result) = 2
rank (freed result) = 3

-- No event has a lower rank than one before it.
abbrev pub AreInOrder : (low : ℕ) → List Event → Type 0
AreInOrder low [] = Unit {0}
AreInOrder low (e ∷ es) = (low ≤ rank e) × AreInOrder (rank e) es

abbrev pub count_rank : ℕ → List Event → ℕ
count_rank k [] = 0
count_rank k (e ∷ es) = (if rank e == k then 1 else 0) + count_rank k es

abbrev pub once_if : Bool → ℕ
once_if true = 1
once_if false = 0

-- What the run returns, NULL where it is not there.
pub data Returns (a : SyncArgs) : ℕ → Type 0 where
  no_run : a.on_run ≡ none → Returns a 0
  runs : {r : ℕ} → a.on_run ≡ some r → Returns a r

abbrev pub has_run : Option ℕ → Bool
has_run none = false
has_run (some r) = true

abbrev pub is_set : ℕ → Bool
is_set zero = false
is_set (suc r) = true

-- The call has the id of the worker and the result of its run.
abbrev pub IsOf : (id result : ℕ) → Event → Type 0
IsOf id result (called_start i) = i ≡ id
IsOf id result (called_run i) = i ≡ id
IsOf id result (called_end i r) = (i ≡ id) × (r ≡ result)
IsOf id result (freed r) = r ≡ result

abbrev pub AllOf : (id result : ℕ) → List Event → Type 0
AllOf id result [] = Unit {0}
AllOf id result (e ∷ es) = IsOf id result e × AllOf id result es

-- Each callback that is there is called once, and no other, in the order start, run, end; the result of the
-- run, or NULL, goes to the end, and it is freed once behind it unless it is NULL.
pub record IsRun (a : SyncArgs) (id : ℕ) (es : List Event) : Type 0 where
  pub in_order : AreInOrder 0 es
  pub starts : count_rank 0 es ≡ once_if a.on_start
  pub one_run : count_rank 1 es ≡ once_if (has_run a.on_run)
  pub ends : count_rank 2 es ≡ once_if a.on_end
  pub result : (r : ℕ) × Returns a r × AllOf id r es × (count_rank 3 es ≡ once_if (is_set r))

-- With a result that is not NULL.
IsRun-set :
    (s e : Bool) (r : ℕ) (name : List ℕ) (id : ℕ)
    → IsRun
        (record { on_start = s; on_end = e; on_run = some (suc r); name = name })
        id
        (event_if s (called_start id)
          ++ (called_run id ∷ (event_if e (called_end id (suc r)) ++ freed (suc r) ∷ [])))
IsRun-set true true r name id = record {
  in_order = (omega arith, (omega arith, (omega arith, (omega arith, tt))));
  starts = refl;
  one_run = refl;
  ends = refl;
  result = (suc r, runs refl, (refl, (refl, ((refl, refl), (refl, tt)))), refl);
}
IsRun-set true false r name id = record {
  in_order = (omega arith, (omega arith, (omega arith, tt)));
  starts = refl;
  one_run = refl;
  ends = refl;
  result = (suc r, runs refl, (refl, (refl, (refl, tt))), refl);
}
IsRun-set false true r name id = record {
  in_order = (omega arith, (omega arith, (omega arith, tt)));
  starts = refl;
  one_run = refl;
  ends = refl;
  result = (suc r, runs refl, (refl, ((refl, refl), (refl, tt))), refl);
}
IsRun-set false false r name id = record {
  in_order = (omega arith, (omega arith, tt));
  starts = refl;
  one_run = refl;
  ends = refl;
  result = (suc r, runs refl, (refl, (refl, tt)), refl);
}

IsRun-of :
    (s e : Bool) (o : Option ℕ) (name : List ℕ) (id : ℕ)
    → let a : SyncArgs = record { on_start = s; on_end = e; on_run = o; name = name } in
      IsRun a id (events_of a id)
unfolding events_of
IsRun-of true true none name id = record {
  in_order = (omega arith, (omega arith, tt));
  starts = refl;
  one_run = refl;
  ends = refl;
  result = (0, no_run refl, (refl, ((refl, refl), tt)), refl);
}
IsRun-of true false none name id = record {
  in_order = (omega arith, tt);
  starts = refl;
  one_run = refl;
  ends = refl;
  result = (0, no_run refl, (refl, tt), refl);
}
IsRun-of false true none name id = record {
  in_order = (omega arith, tt);
  starts = refl;
  one_run = refl;
  ends = refl;
  result = (0, no_run refl, ((refl, refl), tt), refl);
}
IsRun-of false false none name id = record {
  in_order = tt;
  starts = refl;
  one_run = refl;
  ends = refl;
  result = (0, no_run refl, tt, refl);
}
IsRun-of true true (some zero) name id = record {
  in_order = (omega arith, (omega arith, (omega arith, tt)));
  starts = refl;
  one_run = refl;
  ends = refl;
  result = (0, runs refl, (refl, (refl, ((refl, refl), tt))), refl);
}
IsRun-of true false (some zero) name id = record {
  in_order = (omega arith, (omega arith, tt));
  starts = refl;
  one_run = refl;
  ends = refl;
  result = (0, runs refl, (refl, (refl, tt)), refl);
}
IsRun-of false true (some zero) name id = record {
  in_order = (omega arith, (omega arith, tt));
  starts = refl;
  one_run = refl;
  ends = refl;
  result = (0, runs refl, (refl, ((refl, refl), tt)), refl);
}
IsRun-of false false (some zero) name id = record {
  in_order = (omega arith, tt);
  starts = refl;
  one_run = refl;
  ends = refl;
  result = (0, runs refl, (refl, tt), refl);
}
IsRun-of b c (some (suc r)) name id =
    let set : (suc r == 0) ≡ false = ground arith in
    subst (IsRun (record { on_start = b; on_end = c; on_run = some (suc r); name = name }) id)
      (ap
        (λ z.
          event_if b (called_start id)
          ++ (called_run id
              ∷ (event_if c (called_end id (suc r)) ++ event_if (not z) (freed (suc r)))))
        (sym set))
      (IsRun-set b c r name id)

pub events_of-IsRun : (a : SyncArgs) (id : ℕ) → IsRun a id (events_of a id)
events_of-IsRun a id = IsRun-of a.on_start a.on_end a.on_run a.name id
