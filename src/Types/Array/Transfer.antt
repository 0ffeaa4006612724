-- ===== src/Types/Array/Transfer.antt =====
-- mvArrayBuff of src/types.c, which takes the complete buffers of one array to another.
use redis_pool.Base.{
  ℕ, zero, suc, ◌+◌, ◌*◌, ◌/◌, Bool, true, false, ◌&&◌, Option, none, some, ltb, ◌==◌,
  if◌then◌else◌,
}
use redis_pool.Base.Int.{pos}
use redis_pool.Types.Memory.{Realloc}
use redis_pool.Types.Buffer.{sub64}
use redis_pool.Types.Array.{
  Status, s_err, s_ok, s_nt, BufferArray, set_slot, per_buf_array_size, done, fault,
  resize_array_buff, srange_array_buff,
}

-- The loop of mvArrayBuff over the indices from `i` on: the two pointers change places.
unfoldable pub exchange :
    (left i : ℕ) (dest source : BufferArray) → Option (BufferArray × BufferArray)
exchange zero i dest source = some (dest, source)
exchange (suc left) i dest source =
    let rest =
      exchange left (i + 1)
        (record dest {
          buff = set_slot dest.buff dest.wpos (source.buff i);
          wpos = dest.wpos + 1;
          used = dest.used + 1;
        })
        (record source { buff = set_slot source.buff i (dest.buff dest.wpos) }) in
    if ltb i source.size && ltb dest.wpos dest.size then rest else none

pub data MoveRun : Type 0 where
  ends : Status → (dest source : BufferArray) → MoveRun
  crash : MoveRun

abbrev pub copy_num : BufferArray → ℕ
copy_num source = if source.pendding then sub64 source.wpos 1 else source.wpos

abbrev pub srange_source : Bool → (n : ℕ) → Option (BufferArray × BufferArray) → MoveRun
srange_source srange n none = crash
srange_source false n (some (dest, source)) = ends s_ok dest source
srange_source true n (some (dest, source)) = elim (srange_array_buff n source) [
  | done s a ↦ ends s_ok dest a
  | fault ↦ crash
]

abbrev growth_of : ℕ → ℕ
growth_of n =
    let multi = n / per_buf_array_size in per_buf_array_size * (if multi == 0 then 1 else multi)

abbrev pub moved_to : (srange : Bool) (n : ℕ) (dest source : BufferArray) → MoveRun
moved_to srange n dest source = srange_source srange n (exchange n 0 dest source)

-- From the number of buffers to move on.
abbrev pub move_num : Realloc → (dest source : BufferArray) (srange : Bool) (n : ℕ) → MoveRun
move_num r dest source srange n =
    if n == 0
    then ends s_nt dest source
    else if ltb (sub64 dest.max dest.wpos) n
    then elim (resize_array_buff r (pos (growth_of n)) dest) [
      | done s_ok d ↦ moved_to srange n d source
      | done s_err d ↦ ends s_err d source
      | done s_nt d ↦ ends s_nt d source
      | fault ↦ crash
    ]
    else moved_to srange n dest source

unfoldable pub mv_array_buff : Realloc → (dest source : BufferArray) (srange : Bool) → MoveRun
mv_array_buff r dest source srange = move_num r dest source srange (copy_num source)
