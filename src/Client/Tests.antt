-- ===== src/Client/Tests.antt =====
-- Runs of baseRead and baseWrite of src/net/client.c, and the theorems applied to them.
use redis_pool.Base.{
  ℕ, ◌+◌, ◌≡◌, refl, true, false, [], ◌∷◌, arith, take, replicate, length-replicate, ◌==◌,
  if◌then◌else◌,
}
use redis_pool.Types.Memory.{in_place, failed}
use redis_pool.Types.Buffer.{Buffer, per_iobuf_size}
use redis_pool.Types.Buffer.Content.{IsBuffer}
use redis_pool.Types.Array.{BufferArray, null, held, set_slot, s_ok}
use redis_pool.Client.{Client}
use redis_pool.Client.Read.{got, base_read, Received, base_read-got}
use redis_pool.Client.Write.{sent, wrote, cleared, write_loop, base_write}
use redis_pool.Client.Write.Pending.{unsent, IsQueue, sendable}
use redis_pool.Client.Write.Sends.{Conserves, base_write-Conserves}
use redis_pool.Client.Write.Forgets.{HasNext, base_write-forgets}

-- Two bytes, of which one has been sent.
abbrev two_bytes : Buffer
two_bytes = record { buf = 7 ∷ 8 ∷ 0 ∷ []; max = 3; rpos = 1; wpos = 2; used = 2 }

two_bytes-IsBuffer : IsBuffer two_bytes
two_bytes-IsBuffer = record {
  block = refl;
  read_le = omega arith;
  write_le = omega arith;
  used_ge = omega arith;
  used_lt = omega arith;
  size = omega arith;
}

abbrev one_buffer : Buffer → BufferArray
one_buffer b = record {
  buff = λ j. if j == 0 then held b else null;
  size = 60;
  rpos = 0;
  wpos = 1;
  max = 60;
  used = 1;
  pendding = false;
  stray = 0;
}

abbrev reader : Client
reader = record {
  cmd = two_bytes;
  cmds = one_buffer two_bytes;
  middle = one_buffer two_bytes;
  argc = 0;
  is_eof = false;
  cmd_num = 0;
  r_num = 0;
  is_valid = true;
  is_quit = false;
  is_block = false;
  multi_bulk_len = 0;
  bulk_len = 0;
  calls = 0;
  stray = 0;
}

base_read-got_example :
    Received (9 ∷ []) reader (base_read (in_place (λ i. 0)) (got (9 ∷ [])) reader)
base_read-got_example =
    base_read-got (λ i. 0) (9 ∷ []) reader (omega arith) two_bytes-IsBuffer (omega arith)

two_bytes-IsQueue : IsQueue (one_buffer two_bytes)
two_bytes-IsQueue = record {
  inside = omega arith;
  counted = omega arith;
  buffers = λ i h k.
      let here : (one_buffer two_bytes).buff i ≡ held two_bytes = ground (arith, k) in
      sendable two_bytes here two_bytes-IsBuffer (omega arith) (omega arith);
}

base_write_run :
    (a : BufferArray) × (base_write failed (sent 1 ∷ []) (one_buffer two_bytes)
      ≡ wrote s_ok a (8 ∷ []))
unfolding base_write write_loop
base_write_run = (
  record (one_buffer (cleared two_bytes)) {
    buff = set_slot (one_buffer two_bytes).buff 0 (held (cleared two_bytes));
    rpos = 1;
  },
  refl,
)

base_write-Conserves_example :
    Conserves
      (sent 1 ∷ [])
      []
      (one_buffer two_bytes)
      (base_write failed (sent 1 ∷ []) (one_buffer two_bytes))
base_write-Conserves_example =
    base_write-Conserves failed (sent 1 ∷ []) (one_buffer two_bytes) two_bytes-IsQueue

-- One byte more than a send takes.
abbrev large : Buffer
large = record {
  buf = replicate (per_iobuf_size + 1) 7;
  max = per_iobuf_size + 1;
  rpos = 0;
  wpos = per_iobuf_size + 1;
  used = per_iobuf_size + 1;
}

large-HasNext : HasNext (one_buffer large) large
large-HasNext = record {
  slot = refl;
  left = omega arith;
  inside = omega arith;
  counted = omega arith;
  valid = record {
    block = length-replicate {A = ℕ} (per_iobuf_size + 1) 7;
    read_le = omega arith;
    write_le = omega arith;
    used_ge = omega arith;
    used_lt = omega arith;
    size = omega arith;
  };
}

base_write-forgets_example :
    (a' : BufferArray) × (b' : Buffer) × (base_write failed (sent 16384 ∷ []) (one_buffer large)
      ≡ wrote s_ok a' (take per_iobuf_size (unsent large)))
    × (a'.rpos ≡ 0 + 1)
    × (a'.buff 0 ≡ held b')
    × (unsent b' ≡ [])
base_write-forgets_example =
    base_write-forgets (one_buffer large) large large-HasNext (omega arith) (omega arith) failed
      16384 [] (omega arith)
