-- ===== src/Client/Read.antt =====
-- baseRead of src/net/client.c. recv is a parameter: it gives the bytes that have come, at most as
-- many as it is asked for.
use redis_pool.Base.{
  ℕ, ◌+◌, ◌*◌, ◌%◌, ◌^◌, ◌≤◌, ◌<◌, ◌≡◌, refl, ap, ◌∙◌, false, none, some, List, ◌++◌, arith, ltb,
  leb, if◌then◌else◌, length, take, Bool-cases, inl, inr,
}
use redis_pool.Base.Int.{pos}
use redis_pool.Types.Memory.{
  Realloc, in_place, write_at, stray_bytes, length-write_at, take-write_at_end, take-all,
}
use redis_pool.Types.Buffer.{per_iobuf_size, sub64, resize_buff}
use redis_pool.Types.Buffer.Content.{IsBuffer, content}
use redis_pool.Types.Buffer.Append.{grown, length-grown, content-grown, resize_buff-grown}
use redis_pool.Types.Array.{Status, s_err, s_ok}
use redis_pool.Client.{Client}

-- The answer of recv: EAGAIN, another error, the end of the connection, or bytes.
pub data Recv : Type 0 where
  again error closed : Recv
  got : (bytes : List ℕ) → Recv

-- base.h
abbrev pub max_query_size : ℕ
max_query_size = 1024 * 1024 * 1024

-- recv has written the bytes behind the ones in the buffer.
abbrev pub filled : List ℕ → Client → Client
filled bytes c = record c {
  cmd = record c.cmd { buf = write_at c.cmd.wpos bytes c.cmd.buf };
  stray = c.stray + stray_bytes c.cmd.wpos (length bytes) c.cmd.buf;
}

abbrev pub counted_in : (len : ℕ) → Client → Client
counted_in len c = record c {
  cmd = record c.cmd { wpos = len; used = if ltb c.cmd.used len then len else c.cmd.used };
}

-- From the call of recv on.
unfoldable pub received : Recv → Client → Status × Client
received again c = (s_ok, c)
received error c = (s_err, c)
received closed c = (s_err, c)
received (got bytes) c =
    let came = take per_iobuf_size bytes in
    let len = (c.cmd.wpos + length came) % 2 ^ 64 in
    if leb max_query_size len
    then (s_err, filled came c)
    else (s_ok, counted_in len (filled came c))

unfoldable pub base_read : Realloc → Recv → Client → Status × Client
unfolding received
base_read r answer c =
    if ltb (sub64 c.cmd.max c.cmd.wpos) per_iobuf_size
    then elim (resize_buff r c.cmd (pos per_iobuf_size)) [
      | none ↦ (s_err, c)
      | some w ↦ received answer (record c { cmd = w.buffer; stray = c.stray + w.stray })
    ]
    else received answer c

-- `d` but for `cmd`.
abbrev pub restored : (c d : Client) → Client
restored c d = record d { cmd = c.cmd; stray = c.stray }

-- The bytes have come to the client's buffer.
pub record Received (bytes : List ℕ) (c : Client) (r : Status × Client) : Type 0 where
  pub status : r.0 ≡ s_ok
  pub appended : content r.1.cmd ≡ content c.cmd ++ bytes
  pub valid : IsBuffer r.1.cmd
  pub in_bounds : r.1.stray ≡ c.stray
  pub same_rpos : r.1.cmd.rpos ≡ c.cmd.rpos
  pub rest_kept : restored c r.1 ≡ c

received-got :
    (bytes : List ℕ) (c : Client)
    → length bytes ≤ per_iobuf_size
    → IsBuffer c.cmd
    → c.cmd.wpos + length bytes ≤ c.cmd.max
    → c.cmd.wpos + length bytes < max_query_size
    → Received bytes c (received (got bytes) c)
unfolding received content
received-got bytes c short v room few =
    let came : take per_iobuf_size bytes ≡ bytes = take-all per_iobuf_size bytes short in
    let len : (c.cmd.wpos + length bytes) % 2 ^ 64 ≡ c.cmd.wpos + length bytes =
      omega (arith, few) in
    let small : leb max_query_size (c.cmd.wpos + length bytes) ≡ false = ground (arith, few) in
    rw (came, len, small)
      (record {
        status = refl;
        appended =
            take-write_at_end (c.cmd.wpos + length bytes) c.cmd.wpos bytes c.cmd.buf refl
              (omega (arith, v.block, room));
        valid = ground (arith, length-write_at c.cmd.wpos bytes c.cmd.buf);
        in_bounds = omega (arith, v.block);
        same_rpos = refl;
        rest_kept = refl;
      })

-- For a client whose buffer is well formed, and bytes that recv can give at once and that leave fewer
-- than 2 ^ 30 bytes in the buffer: where realloc extends the block in its place, baseRead returns S_OK
-- and appends exactly these bytes to the buffer. The buffer stays well formed, the place of the next
-- read is the same, and nothing is written outside of the block.
pub base_read-got :
    (g : ℕ → ℕ) (bytes : List ℕ) (c : Client)
    → length bytes ≤ per_iobuf_size
    → IsBuffer c.cmd
    → c.cmd.wpos + length bytes < max_query_size
    → Received bytes c (base_read (in_place g) (got bytes) c)
unfolding base_read
base_read-got g bytes c short v few =
    elim (Bool-cases (ltb (sub64 c.cmd.max c.cmd.wpos) per_iobuf_size)) [
      | inl e ↦
          let bound : c.cmd.max + per_iobuf_size < 2 ^ 63 =
            ground (arith, e, v.write_le, v.size, few) in
          let b = grown g c.cmd per_iobuf_size in
          let size = length-grown g c.cmd per_iobuf_size v (omega (arith, bound)) in
          let valid : IsBuffer b = record {
            block = size;
            read_le = v.read_le;
            write_le = omega (arith, v.write_le);
            used_ge = v.used_ge;
            used_lt = v.used_lt;
            size = bound;
          } in
          let d : Client = record c { cmd = b; stray = c.stray + 0 } in
          let more = received-got bytes d short valid (omega (arith, v.write_le, short)) few in
          rw (e, resize_buff-grown g c.cmd per_iobuf_size v (omega (arith, bound)) (omega arith))
            (record {
              status = more.status;
              appended =
                  more.appended
                  ∙ ap (λ t. t ++ bytes)
                      (content-grown g c.cmd per_iobuf_size v (omega (arith, bound)));
              valid = more.valid;
              in_bounds = more.in_bounds ∙ omega arith;
              same_rpos = more.same_rpos;
              rest_kept = ap (restored c) more.rest_kept;
            })
      | inr e ↦
          rw e (received-got bytes c short v (ground (arith, e, v.write_le, v.size, short)) few)
    ]
