-- ===== src/Types/Array/Move.antt =====
-- mvArrayBuff and srangeArrayBuff of src/types.c.
use redis_pool.Base.{
  ℕ, zero, suc, ◌+◌, ◌^◌, ◌≤◌, ◌<◌, ◌≡◌, refl, ap, ◌∙◌, true, false, some, arith, ltb, ◌==◌,
}
use redis_pool.Types.Memory.{Realloc}
use redis_pool.Types.Buffer.{sub64}
use redis_pool.Types.Array.{s_ok, BufferArray, set_slot}
use redis_pool.Types.Array.Transfer.{exchange, MoveRun, copy_num, mv_array_buff}

-- `a` with the pointers of another array.
abbrev pub restored : (b a : BufferArray) → BufferArray
restored b a = record a { buff = b.buff }

-- What the exchange of the first `n` pointers from place `i` on gives.
pub record Exchanged (n i : ℕ) (dest source d s : BufferArray) : Type 0 where
  pub to_dest : (j : ℕ) → j < n → d.buff (dest.wpos + j) ≡ source.buff (i + j)
  pub to_source : (j : ℕ) → j < n → s.buff (i + j) ≡ dest.buff (dest.wpos + j)
  pub dest_kept : (j : ℕ) → j < dest.wpos → d.buff j ≡ dest.buff j
  pub source_kept : (j : ℕ) → j < i → s.buff j ≡ source.buff j
  pub counted : (d.wpos ≡ dest.wpos + n) × (d.used ≡ dest.used + n)
  pub same_source : restored source s ≡ source

-- The arrays behind one turn of the loop.
abbrev next_dest : (i : ℕ) (dest source : BufferArray) → BufferArray
next_dest i dest source = record dest {
  buff = set_slot dest.buff dest.wpos (source.buff i);
  wpos = dest.wpos + 1;
  used = dest.used + 1;
}

abbrev next_source : (i : ℕ) (dest source : BufferArray) → BufferArray
next_source i dest source = record source { buff = set_slot source.buff i (dest.buff dest.wpos) }

module _ (n i : ℕ) (dest source d s : BufferArray)
    (x : Exchanged n (i + 1) (next_dest i dest source) (next_source i dest source) d s) where
  first_to_dest : d.buff dest.wpos ≡ source.buff i
  first_to_dest = x.dest_kept dest.wpos (omega arith) ∙ ground arith

  first_to_source : s.buff i ≡ dest.buff dest.wpos
  first_to_source = x.source_kept i (omega arith) ∙ ground arith

  to_dest-all : (j : ℕ) → j < suc n → d.buff (dest.wpos + j) ≡ source.buff (i + j)
  to_dest-all zero l =
      let at : dest.wpos + 0 ≡ dest.wpos = omega arith in
      let from : i ≡ i + 0 = omega arith in ap d.buff at ∙ first_to_dest ∙ ap source.buff from
  to_dest-all (suc j) l =
      let place : dest.wpos + suc j ≡ dest.wpos + 1 + j = omega arith in
      let from : i + 1 + j ≡ i + suc j = omega arith in
      ap d.buff place ∙ x.to_dest j (omega (arith, l)) ∙ ground arith ∙ ap source.buff from

  to_source-all : (j : ℕ) → j < suc n → s.buff (i + j) ≡ dest.buff (dest.wpos + j)
  to_source-all zero l =
      let at : i + 0 ≡ i = omega arith in
      let from : dest.wpos ≡ dest.wpos + 0 = omega arith in
      ap s.buff at ∙ first_to_source ∙ ap dest.buff from
  to_source-all (suc j) l =
      let place : i + suc j ≡ i + 1 + j = omega arith in
      let from : dest.wpos + 1 + j ≡ dest.wpos + suc j = omega arith in
      ap s.buff place ∙ x.to_source j (omega (arith, l)) ∙ ground arith ∙ ap dest.buff from

pub exchange-Exchanged :
    (n i : ℕ) (dest source : BufferArray)
    → i + n ≤ source.size
    → dest.wpos + n ≤ dest.size
    → (d : BufferArray) × (s : BufferArray) × (exchange n i dest source ≡ some (d, s))
      × Exchanged n i dest source d s
unfolding exchange
exchange-Exchanged zero i dest source h k = (
  dest,
  source,
  refl,
  record {
    to_dest = λ j l. absurd (omega (arith, l));
    to_source = λ j l. absurd (omega (arith, l));
    dest_kept = λ j l. refl;
    source_kept = λ j l. refl;
    counted = (omega arith, omega arith);
    same_source = refl;
  },
)
exchange-Exchanged (suc n) i dest source h k =
    let (d, s, e, x) =
      exchange-Exchanged n (i + 1) (next_dest i dest source) (next_source i dest source)
        (omega (arith, h)) (omega (arith, k)) in
    let in_source : ltb i source.size ≡ true = ground (arith, h) in
    let in_dest : ltb dest.wpos dest.size ≡ true = ground (arith, k) in
    (
      d,
      s,
      rw (in_source, in_dest) e,
      record {
        to_dest = to_dest-all n i dest source d s x;
        to_source = to_source-all n i dest source d s x;
        dest_kept = λ j l. x.dest_kept j (omega (arith, l)) ∙ ground (arith, l);
        source_kept = λ j l. x.source_kept j (omega (arith, l)) ∙ ground (arith, l);
        counted = (omega (arith, x.counted.0), omega (arith, x.counted.1));
        same_source = ap (restored source) x.same_source;
      },
    )

-- For arrays with buffers to move, where `dest` has room for them and the places lie in both blocks:
-- mvArrayBuff without the later srangeArrayBuff returns S_OK. It has then put the buffers of `source`,
-- but for the last one while a command is put together, behind those of `dest` in their order, and the
-- pointers that stood there in the place of theirs.
pub mv_array_buff-moves :
    (r : Realloc) (dest source : BufferArray)
    → 0 < copy_num source
    → copy_num source ≤ source.size
    → dest.wpos + copy_num source ≤ dest.size
    → dest.wpos + copy_num source ≤ dest.max
    → dest.max < 2 ^ 64
    → (d : BufferArray) × (s : BufferArray) × (mv_array_buff r dest source false
        ≡ MoveRun.ends s_ok d s)
      × Exchanged (copy_num source) 0 dest source d s
unfolding mv_array_buff
mv_array_buff-moves r dest source some_left h k room small =
    let (d, s, e, x) = exchange-Exchanged (copy_num source) 0 dest source (omega (arith, h)) k in
    let more : (copy_num source == 0) ≡ false = ground (arith, some_left) in
    let fits : ltb (sub64 dest.max dest.wpos) (copy_num source) ≡ false =
      ground (arith, room, small) in
    (d, s, rw (more, fits, e) refl, x)
