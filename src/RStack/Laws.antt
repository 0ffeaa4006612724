-- ===== src/RStack/Laws.antt =====
-- The stack of src/rstack.c as a bounded list, its top first.
use redis_pool.Base.{
  ℕ, zero, suc, ◌+◌, ◌-◌, ◌≤◌, ◌<◌, ◌≡◌, ap, refl, Bool, true, false, List, [], ◌∷◌, arith, ltb,
  leb, ◌==◌, if◌then◌else◌, length, get_or, set, length-set, get_or-set, inl, inr, Bool-cases,
  lt→ltb,
}
use mathlib.Core.Path.{subst}
use redis_pool.RStack.{RStack, is_empty_rstack, push_rstack, pop_rstack}

pub record IsStack (rsk : RStack) : Type 0 where
  pub slots : rsk.size ≤ length rsk.n
  pub within : rsk.depth ≤ rsk.size

elements_upto : ℕ → List ℕ → List ℕ
elements_upto zero n = []
elements_upto (suc d) n = get_or n d 0 ∷ elements_upto d n

unfoldable pub elements : RStack → List ℕ
unfolding elements_upto
elements rsk = elements_upto rsk.depth rsk.n

-- A stack of at most `size` elements.
unfoldable pub push_list : (size x : ℕ) → List ℕ → List ℕ × Bool
push_list size x xs = if ltb (length xs) size then (x ∷ xs, true) else (xs, false)

unfoldable pub pop_list : List ℕ → List ℕ × ℕ
pop_list [] = ([], 0)
pop_list (x ∷ xs) = (xs, x)

length-elements_upto : (d : ℕ) (n : List ℕ) → length (elements_upto d n) ≡ d
unfolding elements_upto
length-elements_upto zero n = refl
length-elements_upto (suc d) n = ap suc (length-elements_upto d n)

elements_upto-set :
    (d i x : ℕ) (n : List ℕ)
    → d ≤ i
    → i < length n
    → elements_upto d (set n i x) ≡ elements_upto d n
unfolding elements_upto
elements_upto-set zero i x n h k = refl
elements_upto-set (suc d) i x n h k =
    ground (arith, get_or-set n i d x 0, elements_upto-set d i x n)

pushed :
    (rsk : RStack) (x : ℕ)
    → IsStack rsk
    → rsk.depth < rsk.size
    → elements (record rsk { n = set rsk.n rsk.depth x; depth = rsk.depth + 1 }) ≡ x ∷ elements rsk
unfolding elements elements_upto
pushed rsk x v h =
    let next : rsk.depth + 1 ≡ suc rsk.depth = omega arith in
    let written = get_or-set rsk.n rsk.depth rsk.depth x 0 (omega (arith, v.slots)) in
    let kept =
      elements_upto-set rsk.depth rsk.depth x rsk.n (omega arith) (omega (arith, v.slots)) in
    rw (next, kept) (ap (λ y. y ∷ elements_upto rsk.depth rsk.n) (ground (arith, written)))

pub record IsResult {A : Type 0} (rsk : RStack) (r : RStack × A) (s : List ℕ × A) : Type 0 where
  pub stack : IsStack r.0
  pub list : elements r.0 ≡ s.0
  pub answer : r.1 ≡ s.1
  pub size : r.0.size ≡ rsk.size

pub length-elements : (rsk : RStack) → length (elements rsk) ≡ rsk.depth
unfolding elements
length-elements rsk = length-elements_upto rsk.depth rsk.n

-- pushRStack on a well-formed stack puts the pointer on top and answers true if there is room, and
-- otherwise leaves the stack and answers false; the stack stays well formed.
pub push_rstack-push_list :
    (rsk : RStack) (x : ℕ)
    → IsStack rsk
    → IsResult rsk (push_rstack rsk x) (push_list rsk.size x (elements rsk))
unfolding push_rstack push_list
push_rstack-push_list rsk x v = elim (Bool-cases (leb rsk.size rsk.depth)) [
  | inl full ↦
      let no_room : ltb rsk.depth rsk.size ≡ false = ground arith in
      rw (length-elements rsk, full, no_room)
        (record { stack = v; list = refl; answer = refl; size = refl })
  | inr free ↦
      let room : ltb rsk.depth rsk.size ≡ true = ground arith in
      rw (length-elements rsk, free, room)
        (record {
          stack = record {
            slots = omega (arith, length-set rsk.n rsk.depth x, v.slots);
            within = ground arith;
          };
          list = pushed rsk x v (ground arith);
          answer = refl;
          size = refl;
        })
]

popped :
    (rsk : RStack) (d : ℕ)
    → rsk.depth ≡ suc d
    → elements rsk ≡ get_or rsk.n d 0 ∷ elements (record rsk { depth = d })
unfolding elements elements_upto
popped rsk d e = rw e refl

pub elements_empty : (rsk : RStack) → rsk.depth ≡ 0 → elements rsk ≡ []
unfolding elements elements_upto
elements_empty rsk e = rw e refl

-- popRStack on a well-formed stack takes its top and gives it back, and gives NULL if the stack is
-- empty; the stack stays well formed.
pub pop_rstack-pop_list :
    (rsk : RStack) → IsStack rsk → IsResult rsk (pop_rstack rsk) (pop_list (elements rsk))
unfolding pop_rstack pop_list
pop_rstack-pop_list rsk v = elim (Bool-cases (rsk.depth == 0)) [
  | inl e ↦
      rw (e, elements_empty rsk (ground arith))
        (record { stack = v; list = elements_empty rsk (ground arith); answer = refl; size = refl })
  | inr e ↦
      rw (e, popped rsk (rsk.depth - 1) (ground arith))
        (record {
          stack = record { slots = v.slots; within = omega (arith, v.within) };
          list = refl;
          answer = refl;
          size = refl;
        })
]

-- isEmptyRStack tells whether the stack has no element.
pub is_empty_rstack_lem : (rsk : RStack) → is_empty_rstack rsk ≡ (length (elements rsk) == 0)
unfolding is_empty_rstack
is_empty_rstack_lem rsk = rw (length-elements rsk) refl

pub pop_rstack-cons :
    (rsk : RStack) (x : ℕ) (xs : List ℕ)
    → IsStack rsk
    → elements rsk ≡ x ∷ xs
    → IsResult rsk (pop_rstack rsk) (xs, x)
unfolding pop_list
pop_rstack-cons rsk x xs v e =
    subst (λ l. IsResult rsk (pop_rstack rsk) (pop_list l)) e (pop_rstack-pop_list rsk v)

pub push_rstack-room :
    (rsk : RStack) (x : ℕ) (xs : List ℕ)
    → IsStack rsk
    → elements rsk ≡ xs
    → length xs < rsk.size
    → IsResult rsk (push_rstack rsk x) (x ∷ xs, true)
push_rstack-room rsk x xs v e h =
    let there : push_list rsk.size x xs ≡ (x ∷ xs, true) =
      unfold push_list in rw (lt→ltb (length xs) rsk.size h) refl in
    subst (IsResult rsk (push_rstack rsk x)) there (
      subst (λ l. IsResult rsk (push_rstack rsk x) (push_list rsk.size x l)) e
        (push_rstack-push_list rsk x v))
