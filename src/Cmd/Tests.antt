-- ===== src/Cmd/Tests.antt =====
-- A run of stopWorker of src/cmd.c on two children, and the theorem applied to it.
use redis_pool.Base.{
  ◌+◌, ◌≡◌, refl, true, false, none, some, [], ◌∷◌, map, arith, ◌==◌, if◌then◌else◌,
}
use redis_pool.Map.Tree.Store.{Tree, red, black}
use redis_pool.Map.Tree.Shape.{Shape, leaf, node, IsTree}
use redis_pool.Map.Tree.Foreach.Visit.{in_order, size_of}
use redis_pool.Cmd.{Globals, StopWorld, done, sig_hup, stop_worker}
use redis_pool.Cmd.Hangup.{ended, KnowsOne, stop_worker-hangup}

abbrev two : Shape
two = node 1 20 120 black (node 2 10 110 red leaf leaf) leaf

abbrev children : Tree
children = record {
  max = 8;
  total = 2;
  valid = true;
  root = 1;
  nodes = λ p.
      if p == 1
      then some (record { left = 2; right = 0; parent = 0; color = black; key = 20; value = 120 })
      else if p == 2
      then some (record { left = 0; right = 0; parent = 0; color = red; key = 10; value = 110 })
      else none;
  released = [];
}

children-IsTree : IsTree children two
children-IsTree = record {
  leads = refl;
  held = (omega arith, refl, (omega arith, refl, tt, tt), tt);
  distinct = (refl, refl, λ p h. ground arith, (refl, refl, λ p h. refl, tt, tt), tt);
}

abbrev globals : Globals
globals = record { is_exit = false; children = some children }

abbrev stop_world : StopWorld
stop_world = record {
  tree_ok = true;
  stack_ok = true;
  slots = some (0 ∷ 0 ∷ []);
  node = λ i. i + 3;
  fuel = 5;
}

stop_worker-hangup_example :
    (g' : Globals) × (stop_worker stop_world sig_hup true 0 globals
      ≡ done g' (map ended (in_order two)))
    × KnowsOne 3 10 110 g'.children
    × (g'.is_exit ≡ false)
unfolding in_order size_of
stop_worker-hangup_example =
    stop_worker-hangup stop_world 3 0 (0 ∷ 0 ∷ []) globals children two refl children-IsTree
      (omega arith) (omega arith) (omega arith) (omega arith) (omega arith) refl refl refl refl
      (omega arith) 10 110 ((20, 120) ∷ []) refl
