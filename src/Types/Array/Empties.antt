-- ===== src/Types/Array/Empties.antt =====
-- mvArrayBuff with srange of src/types.c, as the callbacks of the server call it.
use redis_pool.Base.{
  ℕ, ◌+◌, ◌-◌, ◌^◌, ◌≤◌, ◌<◌, ◌≡◌, ◌≢◌, refl, sym, ap, ◌∙◌, true, false, some, arith, subst, ltb,
  ◌==◌,
}
use redis_pool.Types.Memory.{Realloc}
use redis_pool.Types.Buffer.{sub64}
use redis_pool.Types.Array.{s_ok, BufferArray, stale, null, done, srange_array_buff}
use redis_pool.Types.Array.Transfer.{MoveRun, copy_num, move_num, srange_source, mv_array_buff}
use redis_pool.Types.Array.Move.{exchange-Exchanged}
use redis_pool.Types.Array.Faults.{srange_array_buff-empties}

-- All buffers of `source` stand behind those of `dest`, and `source` has none.
pub record Emptied (dest source d s : BufferArray) : Type 0 where
  pub moved : (j : ℕ) → j < source.wpos → d.buff (dest.wpos + j) ≡ source.buff j
  pub dest_kept : (j : ℕ) → j < dest.wpos → d.buff j ≡ dest.buff j
  pub counted : d.wpos ≡ dest.wpos + source.wpos
  pub none_left : s.wpos ≡ 0
  pub places_null : (j : ℕ) → j < source.wpos → s.buff j ≡ null
  pub room_kept : (s.max ≡ source.max) × (s.size ≡ source.size)

copy_num-whole : (a : BufferArray) → a.pendding ≡ false → copy_num a ≡ a.wpos
copy_num-whole a whole = ground arith

srange_source-done :
    (n : ℕ) (d s s' : BufferArray)
    → srange_array_buff n s ≡ done s_ok s'
    → srange_source true n (some (d, s)) ≡ MoveRun.ends s_ok d s'
srange_source-done n d s s' e = rw (e, srange_source) refl

-- For an array of complete buffers, where `dest` has room for them, places in its block and no stale
-- pointer there.
pub mv_array_buff-Emptied :
    (r : Realloc) (dest source : BufferArray)
    → source.pendding ≡ false
    → 0 < source.wpos
    → source.wpos ≤ source.size
    → source.wpos ≤ source.max
    → dest.wpos + source.wpos ≤ dest.size
    → dest.wpos + source.wpos ≤ dest.max
    → dest.max < 2 ^ 64 - 1
    → ((j : ℕ) → j < source.wpos → dest.buff (dest.wpos + j) ≢ stale)
    → (d : BufferArray) × (s : BufferArray) × (mv_array_buff r dest source true
        ≡ MoveRun.ends s_ok d s)
      × Emptied dest source d s
unfolding mv_array_buff
mv_array_buff-Emptied r dest source whole some_left inside below h room small set =
    let n = source.wpos in
    let (d, s, e, x) = exchange-Exchanged n 0 dest source (omega (arith, inside)) h in
    let plus_zero : (j : ℕ) → 0 + j ≡ j = λ j. omega arith in
    let same = x.same_source in
    let wpos : s.wpos ≡ n = ap (λ a. a.wpos) same in
    let (s', e', empty, nulls, kept) =
      srange_array_buff-empties n s some_left (omega (arith, room, small))
        (omega (arith, ap (λ a. a.size) same, wpos, inside))
        (omega (arith, ap (λ a. a.max) same, wpos, below))
        (λ i l.
          subst (λ t. t ≢ stale)
            (sym (ap s.buff (sym (plus_zero i)) ∙ x.to_source i (omega (arith, wpos, l))))
            (set i (omega (arith, wpos, l)))) in
    let more : (n == 0) ≡ false = ground (arith, some_left) in
    let fits : ltb (sub64 dest.max dest.wpos) n ≡ false = ground (arith, room, small) in
    (
      d,
      s',
      ap (move_num r dest source true) (copy_num-whole source whole)
          ∙ rw (more, fits, e) (srange_source-done n d s s' e'),
      record {
        moved = λ j l. x.to_dest j l ∙ ap source.buff (plus_zero j);
        dest_kept = x.dest_kept;
        counted = x.counted.0;
        none_left = empty;
        places_null = λ j l. nulls j (omega (arith, wpos, l));
        room_kept = (
          ap (λ a. a.max) kept ∙ ap (λ a. a.max) same,
          ap (λ a. a.size) kept ∙ ap (λ a. a.size) same,
        );
      },
    )
