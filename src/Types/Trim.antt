-- ===== src/Types/Trim.antt =====
-- trim of src/types.c on a text without its final zero. isspace is a parameter, false of the zero at
-- the end of a text.
use redis_pool.Base.{
  ℕ, zero, suc, ◌+◌, ◌≤◌, ◌<◌, ◌≡◌, ◌⊎◌, inl, inr, refl, sym, ap, ◌∙◌, Bool, true, false, ◌&&◌,
  List, [], ◌∷◌, ◌++◌, arith, ◌==◌, if◌then◌else◌, length, take, drop, get_or, length-take,
  Bool-cases, subst,
}
use redis_pool.Types.Memory.{take-drop-append, drop-all}

module _ (is_space : ℕ → Bool) where
  -- The loop that moves the first pointer.
  unfoldable pub skip_space : List ℕ → List ℕ
  skip_space [] = []
  skip_space (x ∷ xs) = if is_space x then skip_space xs else x ∷ xs

  -- The loop that moves the last pointer, which stands `last` bytes behind the first.
  unfoldable pub last_from : (last : ℕ) → List ℕ → ℕ
  last_from zero xs = zero
  last_from (suc last) xs =
      if is_space (get_or xs (suc last) 0) then last_from last xs else suc last

  -- Where only spaces are left the last pointer stands in front of the first.
  abbrev pub cut_end : List ℕ → List ℕ
  cut_end [] = []
  cut_end (x ∷ xs) = take (last_from (length xs) (x ∷ xs) + 1) (x ∷ xs)

  unfoldable pub trim : List ℕ → List ℕ
  unfolding skip_space last_from
  trim xs = if length xs == 0 then xs else cut_end (skip_space xs)

  unfoldable pub all_space : List ℕ → Bool
  all_space [] = true
  all_space (x ∷ xs) = is_space x && all_space xs

  -- The first and the last byte are no spaces.
  pub data IsTrimmed : List ℕ → Type 0 where
    nothing : IsTrimmed []
    between :
        {x : ℕ} {xs : List ℕ}
        → is_space x ≡ false
        → is_space (get_or (x ∷ xs) (length xs) 0) ≡ false
        → IsTrimmed (x ∷ xs)

  -- What skip_space drops.
  skipped :
      (xs : List ℕ)
      → (pre : List ℕ) × (xs ≡ pre ++ skip_space xs)
        × (all_space pre ≡ true)
        × ((x : ℕ) (ys : List ℕ) → skip_space xs ≡ x ∷ ys → is_space x ≡ false)
  unfolding skip_space all_space
  skipped [] = ([], refl, refl, λ x ys e. cc)
  skipped (x ∷ xs) = elim (Bool-cases (is_space x)) [
    | inl e ↦
        let (pre, split, all, first) = skipped xs in
        (x ∷ pre, rw e (ap (◌∷◌ x) split), rw (e, all) refl, rw e first)
    | inr e ↦ ([], rw e refl, refl, rw e (λ y ys same. cc))
  ]

  all_space-drop :
      (i : ℕ) (zs : List ℕ)
      → i < length zs
      → is_space (get_or zs i 0) ≡ true
      → all_space (drop (i + 1) zs) ≡ true
      → all_space (drop i zs) ≡ true
  unfolding all_space
  all_space-drop i [] h e rest = elim h [ ]
  all_space-drop zero (z ∷ zs) h e rest = rw (e, rest) refl
  all_space-drop (suc i) (z ∷ zs) h e rest =
      let next : suc i + 1 ≡ suc (i + 1) = omega arith in
      all_space-drop i zs (omega (arith, h)) e
        (subst (λ n. all_space (drop n (z ∷ zs)) ≡ true) next rest)

  -- What last_from leaves behind its place.
  left_behind :
      (last : ℕ) (zs : List ℕ)
      → last < length zs
      → all_space (drop (last + 1) zs) ≡ true
      → (all_space (drop (last_from last zs + 1) zs) ≡ true)
        × (last_from last zs ≤ last)
        × ((last_from last zs ≡ 0) ⊎ (is_space (get_or zs (last_from last zs) 0) ≡ false))
  unfolding last_from
  left_behind zero zs h all = (all, omega arith, inl refl)
  left_behind (suc last) zs h all = elim (Bool-cases (is_space (get_or zs (suc last) 0))) [
    | inl e ↦
        let next : last + 1 ≡ suc last = omega arith in
        let more =
          subst (λ n. all_space (drop n zs) ≡ true) (sym next)
            (all_space-drop (suc last) zs h e all) in
        let (all', le, clean) = left_behind last zs (omega (arith, h)) more in
        rw e (all', omega (arith, le), clean)
    | inr e ↦ rw e (all, omega arith, inr e)
  ]

  get_or-take : (i n : ℕ) (zs : List ℕ) → i < n → get_or (take n zs) i 0 ≡ get_or zs i 0
  get_or-take i zero zs h = elim h [ ]
  get_or-take i (suc n) [] h = refl
  get_or-take zero (suc n) (z ∷ zs) h = refl
  get_or-take (suc i) (suc n) (z ∷ zs) h = get_or-take i n zs (omega (arith, h))

  IsTrimmed-take :
      (k x : ℕ) (xs : List ℕ)
      → k ≤ length xs
      → is_space x ≡ false
      → (k ≡ 0) ⊎ (is_space (get_or (x ∷ xs) k 0) ≡ false)
      → IsTrimmed (take (k + 1) (x ∷ xs))
  IsTrimmed-take zero x xs h first clean = between first first
  IsTrimmed-take (suc k) x xs h first (inl e) = absurd (omega (arith, e))
  IsTrimmed-take (suc k) x xs h first (inr last) =
      let size : length (take (suc k) xs) ≡ suc k = omega (arith, length-take (suc k) xs, h) in
      let end : get_or (take (suc k) xs) k 0 ≡ get_or xs k 0 =
        get_or-take k (suc k) xs (omega arith) in
      let next : suc k + 1 ≡ suc (suc k) = omega arith in
      subst (λ n. IsTrimmed (take n (x ∷ xs))) (sym next)
        (between first
          (ap (λ n. is_space (get_or (x ∷ take (suc k) xs) n 0)) size ∙ ap is_space end ∙ last))

  trim-cut_end : (x : ℕ) (xs : List ℕ) → trim (x ∷ xs) ≡ cut_end (skip_space (x ∷ xs))
  unfolding trim
  trim-cut_end x xs =
      let some_bytes : (suc (length xs) == 0) ≡ false = ground arith in rw (trim, some_bytes) refl

  -- The text between the spaces at its ends, and the spaces behind it.
  cut_end-splits :
      (zs : List ℕ)
      → ((x : ℕ) (ys : List ℕ) → zs ≡ x ∷ ys → is_space x ≡ false)
      → (post : List ℕ) × (zs ≡ cut_end zs ++ post)
        × (all_space post ≡ true)
        × IsTrimmed (cut_end zs)
  unfolding all_space
  cut_end-splits [] first = ([], refl, refl, nothing)
  cut_end-splits (x ∷ xs) first =
      let zs = x ∷ xs in
      let none_left : all_space (drop (length xs + 1) zs) ≡ true =
        ap all_space (drop-all (length xs + 1) zs (omega arith)) in
      let (all, le, clean) = left_behind (length xs) zs (omega arith) none_left in
      let k = last_from (length xs) zs in
      (
        drop (k + 1) zs,
        sym (take-drop-append (k + 1) zs),
        all,
        IsTrimmed-take k x xs le (first x xs refl) clean,
      )

  -- trim gives a text with no space at its ends, of which the given one differs by spaces in front of
  -- it and behind it only.
  pub trim-IsTrimmed :
      (xs : List ℕ)
      → (pre : List ℕ) × (post : List ℕ) × (xs ≡ pre ++ (trim xs ++ post))
        × (all_space pre ≡ true)
        × (all_space post ≡ true)
        × IsTrimmed (trim xs)
  trim-IsTrimmed [] = unfold trim all_space in ([], [], refl, refl, refl, nothing)
  trim-IsTrimmed (x ∷ xs) =
      let (pre, split, all, first) = skipped (x ∷ xs) in
      let (post, rest, all', trimmed) = cut_end-splits (skip_space (x ∷ xs)) first in
      rw (trim-cut_end x xs) (pre, post, split ∙ ap (λ t. pre ++ t) rest, all, all', trimmed)
