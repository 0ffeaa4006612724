-- ===== src/Types/Array/Faults.antt =====
-- Where the arrays of src/types.c leave the memory that is allocated, or lose buffers.
use redis_pool.Base.{
  ℕ, zero, suc, ◌-◌, ◌^◌, ◌≤◌, ◌<◌, ◌≡◌, ◌≢◌, refl, sym, ap, ◌∙◌, true, false, Option, none, some,
  List, arith, ltb, leb, ◌==◌, Bool-cases, inl, inr, subst,
}
use native.Mathlib.Decide.{dec_lt}
use redis_pool.Base.Int.{pos}
use redis_pool.Types.Memory.{Realloc, failed, in_place, moved}
use redis_pool.Types.Array.{
  s_ok, Slot, null, stale, held, BufferArray, done, fault, Alloc, per_buf_array_size, new_buff_arr,
  resize_array_buff, is_failed, set_slot, is_usable, add_at, add_buffer, free_all,
  srange_array_buff,
}

-- For an array with room for at least one buffer: resizeArrayBuff with a positive number of new
-- places writes outside of the memory that is allocated, unless realloc fails.
pub resize_array_buff-grow :
    (r : Realloc) (n : ℕ) (a : BufferArray)
    → is_failed r ≡ false
    → 0 < n
    → 0 < a.max
    → resize_array_buff r (pos n) a ≡ fault
unfolding resize_array_buff
resize_array_buff-grow failed n a h p q = ground arith
resize_array_buff-grow (in_place g) n a h p q = ground arith
resize_array_buff-grow (moved g) n a h p q = ground arith

add_at-stale :
    (os : Alloc) (k : ℕ) (add : List ℕ) (a : BufferArray)
    → a.buff k ≡ stale
    → add_at os k add a ≡ fault
unfolding add_at
add_at-stale os k add a e = elim (Bool-cases (ltb k a.size)) [
  | inl h ↦ rw (h, e) refl
  | inr h ↦ rw h refl
]

abbrev slot_or : ℕ → Option BufferArray → Slot
slot_or k none = stale
slot_or k (some a) = a.buff k

new_buff_arr-stale :
    (new : BufferArray) (k : ℕ) → new_buff_arr true true ≡ some new → 7 ≤ k → new.buff k ≡ stale
unfolding new_buff_arr
new_buff_arr-stale new k created low = ap (slot_or k) (sym created) ∙ ground arith

-- For an array with the eighth to the sixtieth place next, where the place has what newBuffArr left
-- there: addBuffer follows a pointer that was never set.
pub add_buffer-eighth :
    (os : Alloc) (add : List ℕ) (new a : BufferArray) (k : ℕ)
    → new_buff_arr true true ≡ some new
    → 7 ≤ k
    → k < per_buf_array_size
    → a.max ≡ per_buf_array_size
    → a.wpos ≡ k
    → a.buff k ≡ new.buff k
    → add_buffer os k add a ≡ fault
unfolding add_buffer
add_buffer-eighth os add new a k created low high max place same =
    let unset : a.buff k ≡ stale = same ∙ new_buff_arr-stale new k created low in
    let room : leb a.max k ≡ false = ground (arith, max, high) in
    let here : leb a.wpos k ≡ true = ground (arith, place) in
    rw (room, here, place) (add_at-stale os k add _ unset)

usable : (s : Slot) → s ≢ stale → (elim s [ stale ↦ false | _ ↦ true ]) ≡ true
usable null h = refl
usable stale h = absurd (h refl)
usable (held b) h = refl

is_usable-held : (a : BufferArray) (i : ℕ) → i < a.size → a.buff i ≢ stale → is_usable a i ≡ true
is_usable-held a i h set =
    let inside : ltb i a.size ≡ true = ground (arith, h) in rw inside (usable (a.buff i) set)

free_all-null :
    (n : ℕ) (a : BufferArray)
    → n ≤ a.size
    → ((i : ℕ) → i < n → a.buff i ≢ stale)
    → (a' : BufferArray) × (free_all n a ≡ done s_ok a')
      × ((i : ℕ) → i < n → a'.buff i ≡ null)
      × ((i : ℕ) → n ≤ i → a'.buff i ≡ a.buff i)
      × (record a' { buff = a.buff; wpos = a.wpos } ≡ a)
unfolding free_all
free_all-null zero a h set = (a, refl, (λ i l. absurd (omega (arith, l))), (λ i l. refl), refl)
free_all-null (suc n) a h set =
    let b : BufferArray = record a { wpos = n; buff = set_slot a.buff n null } in
    let (a', e, below, above, kept) = free_all-null n b (omega (arith, h)) (λ i l.
      let other : b.buff i ≡ a.buff i = ground (arith, l) in
      subst (λ s. s ≢ stale) (sym other) (set i (omega (arith, l)))) in
    let ok = is_usable-held a n (omega (arith, h)) (set n (omega arith)) in
    (
      a',
      rw (ok, e) refl,
      (λ i l. elim (dec_lt i n) [
        | yes less ↦ below i less
        | no last ↦
            let same : i ≡ n = omega (arith, l) in
            subst (λ j. a'.buff j ≡ null) (sym same) (above n (omega arith) ∙ ground arith)
      ]),
      (λ i l. above i (omega (arith, l)) ∙ ground (arith, l)),
      ap {A = BufferArray} (λ x. record x { buff = a.buff; wpos = a.wpos }) kept,
    )

-- What srangeArrayBuff leaves where it drops every buffer: the block has the same size.
pub srange_array_buff-empties :
    (current : ℕ) (a : BufferArray)
    → 0 < current
    → current < 2 ^ 64 - 1
    → a.wpos ≤ a.size
    → a.wpos ≤ a.max
    → ((i : ℕ) → i < a.wpos → a.buff i ≢ stale)
    → (a' : BufferArray) × (srange_array_buff current a ≡ done s_ok a')
      × (a'.wpos ≡ 0)
      × ((i : ℕ) → i < a.wpos → a'.buff i ≡ null)
      × (record a' { buff = a.buff; wpos = a.wpos; used = a.used; rpos = a.rpos } ≡ a)
unfolding srange_array_buff
srange_array_buff-empties current a low high inside room set =
    let (a', e, below, above, kept) = free_all-null a.wpos (record a { rpos = 0 }) inside set in
    let not_zero : (current == 0) ≡ false = ground (arith, low) in
    let not_last : (current == 2 ^ 64 - 1) ≡ false = ground (arith, high) in
    let all : leb a.wpos a.wpos ≡ true = ground arith in
    let fits : leb a.wpos a.max ≡ true = ground (arith, room) in
    (
      record a' { wpos = 0; used = 0 },
      rw (not_zero, not_last, all, fits, e) refl,
      refl,
      below,
      ap {A = BufferArray} (λ x. record x { used = a.used; rpos = a.rpos }) kept,
    )

-- For an array whose pointers up to wpos are set and lie in its block: srangeArrayBuff at a place other
-- than 0 and the largest size_t drops every buffer up to wpos, also those from the place on, and leaves
-- no buffer in the array.
pub srange_array_buff-drops :
    (current : ℕ) (a : BufferArray)
    → 0 < current
    → current < 2 ^ 64 - 1
    → a.wpos ≤ a.size
    → a.wpos ≤ a.max
    → ((i : ℕ) → i < a.wpos → a.buff i ≢ stale)
    → (a' : BufferArray) × (srange_array_buff current a ≡ done s_ok a')
      × (a'.wpos ≡ 0)
      × ((i : ℕ) → i < a.wpos → a'.buff i ≡ null)
srange_array_buff-drops current a low high inside room set =
    let (a', e, empty, below, kept) =
      srange_array_buff-empties current a low high inside room set in
    (a', e, empty, below)
