-- ===== src/Types/Tests.antt =====
-- Runs of src/types.c on small texts and buffers, and the theorems applied to them.
use redis_pool.Types.Trim.{trim, skip_space, last_from}
use redis_pool.Base.{
  Bool, ◌==◌, ℕ, ◌+◌, ◌%◌, ◌-◌, ◌^◌, ◌<◌, ◌≡◌, refl, some, List, [], ◌∷◌, arith, length, take, drop,
}
use redis_pool.Base.Int.{negsuc}
use redis_pool.Types.Number.{parse_int, parse_magnitude, digits_loop, store_num}
use redis_pool.Types.Number.Laws.{integer_of, parse_int-integer_of}
use redis_pool.Types.Memory.{in_place, zeros, length-zeros}
use redis_pool.Types.Buffer.{Buffer, Written, per_iobuf_size, srange_buff, add_buff}
use redis_pool.Types.Buffer.Content.{IsBuffer, IsSmall, content, missing, srange_buff_lem}
use redis_pool.Types.Buffer.Append.{Appended, add_buff_appends, add_buff_overruns}

-- "-12"
abbrev minus_twelve : List ℕ
minus_twelve = b'-' ∷ b'1' ∷ b'2' ∷ []

parse_int_run : parse_int minus_twelve 3 ≡ some (negsuc 11)
unfolding parse_int parse_magnitude digits_loop store_num
parse_int_run = refl

parse_int-integer_of_example : parse_int minus_twelve 3 ≡ integer_of (take 3 minus_twelve)
parse_int-integer_of_example = parse_int-integer_of minus_twelve 3 (omega arith)

abbrev hello : Buffer
hello = record { buf = 104 ∷ 105 ∷ 33 ∷ 0 ∷ []; max = 4; rpos = 1; wpos = 3; used = 3 }

hello-IsBuffer : IsBuffer hello
hello-IsBuffer = record {
  block = refl;
  read_le = omega arith;
  write_le = omega arith;
  used_ge = omega arith;
  used_lt = omega arith;
  size = omega arith;
}

hello-IsSmall : (n : ℕ) → n < 2 ^ 30 → IsSmall hello n
hello-IsSmall n h = record {
  used_small = omega arith;
  size_small = omega arith;
  end_small = omega arith;
}

srange_buff_lem_example :
    (content (srange_buff hello 2).buffer ≡ drop 2 (content hello))
    × IsBuffer (srange_buff hello 2).buffer
    × ((srange_buff hello 2).stray ≡ 3 - 2)
srange_buff_lem_example = srange_buff_lem hello 2 hello-IsBuffer

-- Two bytes behind three, in a block of four.
add_buff_appends_example :
    (w : Written) × (add_buff (in_place (λ i. 0)) hello (7 ∷ 8 ∷ []) ≡ some w)
    × Appended hello (7 ∷ 8 ∷ []) w
add_buff_appends_example =
    add_buff_appends (λ i. 0) hello (7 ∷ 8 ∷ []) hello-IsBuffer (hello-IsSmall 2 (omega arith)) refl

add_buff_overruns_example :
    (w : Written) × (add_buff (in_place (λ i. 0)) hello (zeros 20000) ≡ some w)
    × (w.stray ≡ missing hello (length (zeros 20000)) % (per_iobuf_size + 1))
add_buff_overruns_example =
    add_buff_overruns (λ i. 0) hello (zeros 20000) hello-IsBuffer
      (hello-IsSmall (length (zeros 20000)) (omega (arith, length-zeros 20000)))
      (omega (arith, length-zeros 20000))

abbrev is_blank : ℕ → Bool
is_blank c = c == b' '

-- " ab ", and what trim gives of it.
trim_run : trim is_blank (b' ' ∷ b'a' ∷ b'b' ∷ b' ' ∷ []) ≡ b'a' ∷ b'b' ∷ []
unfolding trim skip_space last_from
trim_run = refl
