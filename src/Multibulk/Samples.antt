-- ===== src/Multibulk/Samples.antt =====
-- Small clients and commands, on which the theorems are applied.
use redis_pool.Base.{
  ℕ, ◌≤◌, ◌≡◌, refl, sym, ap, ◌∙◌, true, false, none, some, List, [], ◌∷◌, arith, length,
}
use redis_pool.Base.Int.{pos}
use redis_pool.Types.Number.{parse_int, parse_magnitude, digits_loop, store_num}
use redis_pool.Types.Number.Laws.{integer_of, parse_int-integer_of}
use redis_pool.Types.Memory.{failed}
use redis_pool.Types.Buffer.{Buffer}
use redis_pool.Types.Array.{BufferArray, null}
use redis_pool.Client.{Client}
use redis_pool.Client.Reply.{AlwaysGives, HasPlace}
use redis_pool.Multibulk.{Env}
use redis_pool.Multibulk.Line.{is_plain}
use redis_pool.Multibulk.Name.{IsCommand, no_table}
use redis_pool.Multibulk.Command.{Bulk, AreBulks, and_bulk, no_bulks, bulk_text, bulks_text}
use redis_pool.Multibulk.Forwarded.{IsWaiting}
use redis_pool.Multibulk.Forward.{command_text}
use redis_pool.Multibulk.Arrives.{IsIdle}

abbrev pub gives_env : Env
gives_env = record {
  os = λ n. record { buffer_ok = true; block_ok = true; array = failed; block = failed };
  block_cmds = none;
  release_cmds = none;
}

pub gives : AlwaysGives gives_env.os
gives = record { buffer_ok = λ n. refl; block_ok = λ n. refl }

-- An array of sixty places without a buffer.
abbrev pub no_buffers : BufferArray
no_buffers = record {
  buff = λ j. null;
  size = 60;
  rpos = 0;
  wpos = 0;
  max = 60;
  used = 0;
  pendding = false;
  stray = 0;
}

abbrev pub client_of : Buffer → Client
client_of cmd = record {
  cmd = cmd;
  cmds = no_buffers;
  middle = no_buffers;
  argc = 0;
  is_eof = false;
  cmd_num = 0;
  r_num = 1;
  is_valid = true;
  is_quit = false;
  is_block = false;
  multi_bulk_len = 0;
  bulk_len = 0;
  calls = 0;
  stray = 0;
}

pub first_place : HasPlace no_buffers 0
first_place = record { inside = omega arith; below = omega arith }

-- "PING", with the digits of its length.
abbrev pub ping : Bulk
ping = record { digits = b'4' ∷ []; arg = b'P' ∷ b'I' ∷ b'N' ∷ b'G' ∷ [] }

-- "*1\r\n$4\r\nPING\r\n"
abbrev pub ping_bytes : List ℕ
ping_bytes =
    b'*' ∷ b'1' ∷ b'\r' ∷ b'\n' ∷ b'$' ∷ b'4' ∷ b'\r' ∷ b'\n' ∷ b'P' ∷ b'I' ∷ b'N' ∷ b'G' ∷ b'\r'
    ∷ b'\n' ∷ []

pub command_text-ping : command_text (b'1' ∷ []) (ping ∷ []) ≡ ping_bytes
unfolding command_text bulks_text bulk_text
command_text-ping = refl

pub client_of-IsWaiting : (b : Buffer) → IsWaiting (client_of b)
client_of-IsWaiting b = record {
  no_multi = refl;
  no_bulk = refl;
  no_arg = refl;
  size = omega arith;
}

pub digit_one : integer_of (b'1' ∷ []) ≡ some (pos 1)
unfolding parse_int parse_magnitude digits_loop store_num
digit_one = sym (parse_int-integer_of (b'1' ∷ []) 1 (omega arith)) ∙ refl

digit_four : integer_of (b'4' ∷ []) ≡ some (pos 4)
unfolding parse_int parse_magnitude digits_loop store_num
digit_four = sym (parse_int-integer_of (b'4' ∷ []) 1 (omega arith)) ∙ refl

pub ping-AreBulks : AreBulks (ping ∷ [])
unfolding is_plain
ping-AreBulks =
    and_bulk (record { plain = refl; number = digit_four; nonempty = omega arith }) no_bulks

pub ping-IsCommand : IsCommand gives_env ping.arg
ping-IsCommand = record { short = omega arith; blocks = no_table; releases = no_table }

pub one-is_plain : is_plain (b'1' ∷ []) ≡ true
unfolding is_plain
one-is_plain = refl

pub ping_short : (n : ℕ) → 14 ≤ n → length (command_text (b'1' ∷ []) (ping ∷ [])) ≤ n
ping_short n h = omega (arith, ap length command_text-ping)

abbrev pub empty_buffer : Buffer
empty_buffer = record { buf = 0 ∷ 0 ∷ []; max = 2; rpos = 0; wpos = 0; used = 0 }

pub empty-IsIdle : IsIdle (client_of empty_buffer)
empty-IsIdle = record {
  waiting = client_of-IsWaiting empty_buffer;
  unread_none = (refl, refl);
  valid = record {
    block = refl;
    read_le = omega arith;
    write_le = omega arith;
    used_ge = omega arith;
    used_lt = omega arith;
    size = omega arith;
  };
  place = first_place;
  last = refl;
  no_buffer = refl;
}
