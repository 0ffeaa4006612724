-- ===== src/Multibulk/Tests.antt =====
-- Runs of src/proto/multibulk.c on small commands, and the theorems applied to them.
use redis_pool.Base.{
  ◌+◌, ◌%◌, ◌^◌, ◌≡◌, refl, sym, ◌∙◌, inl, true, some, [], ◌∷◌, ◌++◌, arith, replicate,
}
use redis_pool.Base.Int.{pos}
use redis_pool.Types.Number.{parse_int, parse_magnitude, digits_loop, store_num}
use redis_pool.Types.Number.Laws.{integer_of, parse_int-integer_of}
use redis_pool.Types.Memory.{in_place}
use redis_pool.Types.Buffer.{Buffer, per_iobuf_size}
use redis_pool.Types.Buffer.Content.{IsBuffer}
use redis_pool.Types.Array.{s_ok, s_err}
use redis_pool.Types.Array.Append.{fresh, Added}
use redis_pool.Client.{Client, go, stop, crash, nl}
use redis_pool.Client.Read.{got, base_read, Received}
use redis_pool.Multibulk.{process_client, cmds_loop}
use redis_pool.Multibulk.Redis.{process_redis}
use redis_pool.Multibulk.Messages.{start_star}
use redis_pool.Multibulk.Line.{is_plain, unread}
use redis_pool.Multibulk.Copy.{At}
use redis_pool.Multibulk.Command.{Bulk, IsBulk, bulk_text, bulks_text}
use redis_pool.Multibulk.Forwarded.{Forwarded}
use redis_pool.Multibulk.Forward.{command_text, process_client-forwards}
use redis_pool.Multibulk.Arrives.{base_read-forwards}
use redis_pool.Multibulk.Refuses.{process_client-waits, process_client-refuses}
use redis_pool.Multibulk.Overflow.{cmds_loop-overflows}
use redis_pool.Multibulk.StatusLine.{process_redis-line}
use redis_pool.Multibulk.Samples.{
  gives_env, gives, no_buffers, client_of, first_place, ping, ping_bytes, client_of-IsWaiting,
  digit_one, ping-AreBulks, ping-IsCommand, one-is_plain, ping_short, empty_buffer, empty-IsIdle,
}

abbrev ping_buffer : Buffer
ping_buffer = record { buf = ping_bytes ++ 0 ∷ 0 ∷ []; max = 16; rpos = 0; wpos = 14; used = 14 }

ping_buffer-IsBuffer : IsBuffer ping_buffer
ping_buffer-IsBuffer = record {
  block = refl;
  read_le = omega arith;
  write_le = omega arith;
  used_ge = omega arith;
  used_lt = omega arith;
  size = omega arith;
}

At-ping : At (client_of ping_buffer) [] (command_text (b'1' ∷ []) (ping ∷ [])) (0 ∷ 0 ∷ [])
unfolding command_text bulks_text bulk_text
At-ping = record {
  filling = fresh refl refl refl;
  place = first_place;
  unread_is = refl;
  ends = refl;
  valid = ping_buffer-IsBuffer;
}

process_client-forwards_example :
    (c' : Client) × (process_client gives_env 2 (client_of ping_buffer) ≡ go tt c')
    × Forwarded (client_of ping_buffer) c' (command_text (b'1' ∷ []) (ping ∷ []))
process_client-forwards_example =
    process_client-forwards gives_env gives (client_of ping_buffer) (b'1' ∷ []) ping [] (0 ∷ 0 ∷ [])
      (client_of-IsWaiting ping_buffer) At-ping one-is_plain digit_one ping-AreBulks ping-IsCommand
      (ping_short 16385 (omega arith)) 0

base_read-forwards_example :
    let r =
      base_read
        (in_place (λ i. 0))
        (got (command_text (b'1' ∷ []) (ping ∷ [])))
        (client_of empty_buffer) in
    Received (command_text (b'1' ∷ []) (ping ∷ [])) (client_of empty_buffer) r
    × ((c' : Client) × (process_client gives_env 2 r.1 ≡ go tt c')
        × Forwarded r.1 c' (command_text (b'1' ∷ []) (ping ∷ [])))
base_read-forwards_example =
    base_read-forwards gives_env gives (λ i. 0) (client_of empty_buffer) empty-IsIdle (b'1' ∷ [])
      ping [] one-is_plain digit_one ping-AreBulks ping-IsCommand
      (ping_short per_iobuf_size (omega arith)) 0

-- "*1", and then zeros.
abbrev part_buffer : Buffer
part_buffer = record { buf = b'*' ∷ b'1' ∷ 0 ∷ 0 ∷ []; max = 4; rpos = 0; wpos = 2; used = 2 }

process_client-waits_example :
    process_client gives_env 1 (client_of part_buffer) ≡ stop s_ok (client_of part_buffer)
process_client-waits_example =
    process_client-waits gives_env 0 (client_of part_buffer) (b'1' ∷ []) (0 ∷ []) refl (omega arith)
      (omega arith) refl one-is_plain

-- "+OK\r\n"
abbrev ok_buffer : Buffer
ok_buffer = record {
  buf = b'+' ∷ b'O' ∷ b'K' ∷ b'\r' ∷ b'\n' ∷ 0 ∷ [];
  max = 6;
  rpos = 0;
  wpos = 5;
  used = 5;
}

process_client-refuses_example :
    (c' : Client) × (process_client gives_env 1 (client_of ok_buffer) ≡ stop s_err c')
    × Added 0 ([] ++ (start_star ++ nl)) no_buffers c'.cmds
    × (c'.cmd_num ≡ (0 + 1) % 2 ^ 64)
    × (c'.cmd ≡ ok_buffer)
process_client-refuses_example =
    process_client-refuses gives_env gives 0 (client_of ok_buffer) [] b'+'
      (b'O' ∷ b'K' ∷ b'\r' ∷ b'\n' ∷ 0 ∷ []) refl (omega arith) refl
      (λ e. absurd (omega (arith, e))) first_place (fresh refl refl refl) (omega arith)

ok-is_plain : is_plain (b'+' ∷ b'O' ∷ b'K' ∷ []) ≡ true
unfolding is_plain
ok-is_plain = refl

At-ok : At (client_of ok_buffer) [] (((b'+' ∷ b'O' ∷ b'K' ∷ []) ++ nl) ++ []) (0 ∷ [])
At-ok = record {
  filling = fresh refl refl refl;
  place = first_place;
  unread_is = refl;
  ends = refl;
  valid = record {
    block = refl;
    read_le = omega arith;
    write_le = omega arith;
    used_ge = omega arith;
    used_lt = omega arith;
    size = omega arith;
  };
}

process_redis-line_example :
    (c' : Client) × (process_redis gives_env (client_of ok_buffer) ≡ go tt c')
    × Added 0 ([] ++ ((b'+' ∷ b'O' ∷ b'K' ∷ []) ++ nl)) no_buffers c'.cmds
    × (unread c' ≡ [] ++ 0 ∷ [])
    × (c'.cmd.wpos ≡ 5)
    × (c'.r_num ≡ 0)
process_redis-line_example =
    process_redis-line gives_env gives (client_of ok_buffer) [] b'+' (b'O' ∷ b'K' ∷ []) [] (0 ∷ [])
      refl (inl refl) ok-is_plain At-ok (omega arith) refl

-- A name of 61 bytes.
abbrev long_name : Bulk
long_name = record { digits = b'6' ∷ b'1' ∷ []; arg = replicate 61 b'A' }

sixty_one : integer_of (b'6' ∷ b'1' ∷ []) ≡ some (pos 61)
unfolding parse_int parse_magnitude digits_loop store_num
sixty_one = sym (parse_int-integer_of (b'6' ∷ b'1' ∷ []) 2 (omega arith)) ∙ refl

long_name-IsBulk : IsBulk long_name
unfolding is_plain
long_name-IsBulk = record { plain = refl; number = sixty_one; nonempty = omega arith }

abbrev long_buffer : Buffer
long_buffer = record {
  buf = b'$' ∷ b'6' ∷ b'1' ∷ b'\r' ∷ b'\n' ∷ (replicate 61 b'A' ++ b'\r' ∷ b'\n' ∷ []);
  max = 68;
  rpos = 0;
  wpos = 68;
  used = 68;
}

At-long : At (client_of long_buffer) [] (bulk_text long_name ++ []) []
unfolding bulk_text
At-long = record {
  filling = fresh refl refl refl;
  place = first_place;
  unread_is = refl;
  ends = refl;
  valid = record {
    block = refl;
    read_le = omega arith;
    write_le = omega arith;
    used_ge = omega arith;
    used_lt = omega arith;
    size = omega arith;
  };
}

cmds_loop-overflows_example : cmds_loop gives_env true 1 (client_of long_buffer) ≡ crash
cmds_loop-overflows_example =
    cmds_loop-overflows gives_env gives long_name long_name-IsBulk (client_of long_buffer) [] [] []
      0 refl refl At-long (omega arith) (omega arith)
