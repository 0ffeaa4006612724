-- ===== src/Types/Array/Tests.antt =====
-- Runs of the arrays of src/types.c, and the theorems applied to them.
use redis_pool.Base.{
  ℕ, zero, suc, ◌<◌, ◌≡◌, ◌≢◌, refl, true, false, some, [], ◌∷◌, ◌++◌, arith, ◌==◌, if◌then◌else◌,
}
use redis_pool.Types.Memory.{failed}
use redis_pool.Types.Buffer.{Buffer}
use redis_pool.Types.Array.{
  BufferArray, done, null, stale, held, Alloc, s_ok, new_buff_arr, clear_slots, add_buffer,
}
use redis_pool.Types.Array.Transfer.{MoveRun, mv_array_buff}
use redis_pool.Types.Array.Append.{fresh, Added, add_buffer-Filling}
use redis_pool.Types.Array.Move.{Exchanged, mv_array_buff-moves}

abbrev gives : Alloc
gives = record { buffer_ok = true; block_ok = true; array = failed; block = failed }

-- What newBuffArr gives.
abbrev new_array : BufferArray
new_array = record {
  buff = clear_slots (λ j. stale) 0 60;
  size = 60;
  rpos = 0;
  wpos = 0;
  max = 60;
  used = 0;
  pendding = false;
  stray = 0;
}

new_buff_arr_run : new_buff_arr true true ≡ some new_array
unfolding new_buff_arr
new_buff_arr_run = refl

add_buffer-Filling_example :
    (a' : BufferArray) × (add_buffer gives 0 (1 ∷ 2 ∷ []) new_array ≡ done s_ok a')
    × Added 0 ([] ++ 1 ∷ 2 ∷ []) new_array a'
add_buffer-Filling_example =
    add_buffer-Filling gives refl refl new_array 0 [] (1 ∷ 2 ∷ []) (fresh refl refl refl)
      (omega arith) (omega arith) (omega arith)

-- Seven places have been used.
abbrev seven_used : BufferArray
seven_used = record new_array { wpos = 7; used = 7 }

abbrev one : Buffer
one = record { buf = 7 ∷ []; max = 1; rpos = 0; wpos = 1; used = 1 }

-- Two buffers.
abbrev two_used : BufferArray
two_used = record new_array {
  buff = λ j. if j == 0 then held one else if j == 1 then held one else null;
  wpos = 2;
  used = 2;
}

two_used-set : (i : ℕ) → i < 2 → two_used.buff i ≢ stale
two_used-set zero h = λ e. cc
two_used-set (suc zero) h = λ e. cc
two_used-set (suc (suc i)) h = absurd (omega (arith, h))

mv_array_buff-moves_example :
    (d : BufferArray) × (s : BufferArray) × (mv_array_buff failed new_array two_used false
      ≡ MoveRun.ends s_ok d s)
    × Exchanged 2 0 new_array two_used d s
mv_array_buff-moves_example =
    mv_array_buff-moves failed new_array two_used (omega arith) (omega arith) (omega arith)
      (omega arith) (omega arith)
