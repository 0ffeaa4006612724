-- ===== src/Multibulk/StatusLine.antt =====
-- The replies of one line that processRedis of src/proto/multibulk.c copies.
use redis_pool.Base.{
  ℕ, ◌+◌, ◌%◌, ◌^◌, ◌≤◌, ◌≡◌, ◌⊎◌, inl, inr, refl, ap, ◌∙◌, true, false, ◌||◌, List, ◌∷◌, ◌++◌,
  arith, ltb, ◌==◌, length, take, drop, length-append, append_assoc, take-append,
}
use redis_pool.Types.Buffer.{sub64}
use redis_pool.Types.Array.{BufferArray}
use redis_pool.Types.Array.Append.{capacity, Added}
use redis_pool.Client.{Client, go, nl}
use redis_pool.Client.Steps.{>>=-go, byte_at-drop, bytes_at-take}
use redis_pool.Client.Reply.{AlwaysGives, add_reply_by_size-Filling}
use redis_pool.Multibulk.{Env, find_cr, found}
use redis_pool.Multibulk.Redis.{process_reply, redis_line, process_replies, process_redis}
use redis_pool.Multibulk.Line.{is_plain, find_cr-plain, unread, advanced, unread-advanced}
use redis_pool.Multibulk.Copy.{At, copy_of}
use redis_pool.Multibulk.Pendding.{At-pendding, Filling-pendding}

module _ (env : Env) (gives : AlwaysGives env.os) (c : Client) (text : List ℕ) (x : ℕ)
    (xs rest tail : List ℕ) (multi : c.multi_bulk_len ≡ 0) (kind : (x ≡ b'+') ⊎ (x ≡ b'-'))
    (plain : is_plain (x ∷ xs) ≡ true) (here : At c text (((x ∷ xs) ++ nl) ++ rest) tail)
    (fits : length text + length ((x ∷ xs) ++ nl) ≤ capacity) where
  is_status : ((x == b'+') || (x == b'-')) ≡ true
  is_status = elim kind [ inl e ↦ ground arith | inr e ↦ ground arith ]

  -- The client when the line is copied.
  abbrev pub behind_line : BufferArray → Client
  behind_line a = record (advanced c (length (x ∷ xs) + 2)) {
    cmds = record a { pendding = false };
    calls = c.calls + 1 + 1;
    r_num = sub64 c.r_num 1;
  }

  process_reply-line :
      (a : BufferArray) × (process_reply env c ≡ go tt (behind_line a))
      × Added c.cmd_num (text ++ ((x ∷ xs) ++ nl)) c.cmds (record a { pendding = false })
  unfolding process_reply redis_line copy_of
  process_reply-line =
      let d : Client = record c { cmds = record c.cmds { pendding = true } } in
      let at = At-pendding c true text (((x ∷ xs) ++ nl) ++ rest) tail here in
      let line : unread c ≡ (x ∷ xs) ++ (nl ++ (rest ++ tail)) =
        here.unread_is
        ∙ append_assoc ((x ∷ xs) ++ nl) rest tail
        ∙ append_assoc (x ∷ xs) nl (rest ++ tail) in
      let size = length-append ((x ∷ xs) ++ nl) rest in
      let size' = length-append xs nl in
      let v = here.valid in
      let e = here.ends in
      let inside : c.cmd.rpos + length (x ∷ xs) ≤ length c.cmd.buf =
        omega (arith, size, size', e, v.block, v.write_le) in
      let bytes : take (length (x ∷ xs)) (drop c.cmd.rpos c.cmd.buf) ≡ x ∷ xs =
        ap (take (length (x ∷ xs))) line ∙ take-append (x ∷ xs) (nl ++ (rest ++ tail)) in
      let (a, copied, added) =
        add_reply_by_size-Filling env.os gives d text (x ∷ xs) at.place at.filling fits in
      let cr : find_cr (unread c) ≡ found (length (x ∷ xs)) =
        ap find_cr line ∙ find_cr-plain (x ∷ xs) (b'\n' ∷ (rest ++ tail)) plain in
      let at_line : (c.multi_bulk_len == 0) ≡ true = ground (arith, multi) in
      let no_bulks : ltb 0 c.multi_bulk_len ≡ false = ground (arith, multi) in
      let place : (c.cmd.rpos + length (x ∷ xs) + 2) % 2 ^ 64 ≡ c.cmd.rpos + (length (x ∷ xs) + 2) =
        omega (arith, size, size', e, v.write_le, v.size) in
      (
        a,
        rw
            (
              at_line,
              cr,
              byte_at-drop d c.cmd.rpos x (xs ++ (nl ++ (rest ++ tail))) line,
              is_status,
              bytes_at-take d c.cmd.rpos (length (x ∷ xs)) inside,
              bytes,
              copied,
              place,
              no_bulks,
            )
            refl,
        record {
          filling = Filling-pendding a false c.cmd_num (text ++ ((x ∷ xs) ++ nl)) added.filling;
          max_kept = added.max_kept;
          size_kept = added.size_kept;
          others = added.others;
          in_bounds = added.in_bounds;
        },
      )

  pub process_redis-behind :
      c.r_num ≡ 1
      → (a : BufferArray) × (process_redis env c ≡ go tt (behind_line a))
        × Added c.cmd_num (text ++ ((x ∷ xs) ++ nl)) c.cmds (record a { pendding = false })
  unfolding process_redis process_replies
  process_redis-behind one =
      let (a, e, added) = process_reply-line in
      (
        a,
        ap (λ n. process_replies env n c) one
            ∙ >>=-go (process_reply env) (λ _. process_replies env 0) e,
        added,
      )

  -- For a client of redis that waits for one reply, and unread bytes that begin with a whole line whose
  -- first byte is `+` or `-`, where the allocator gives memory and the line fits in the buffer of the
  -- client's place: processRedis comes to its end, has copied exactly the line to that buffer and
  -- changed no other, has read the line, and waits for no reply.
  pub process_redis-line :
      c.r_num ≡ 1
      → (c' : Client) × (process_redis env c ≡ go tt c')
        × Added c.cmd_num (text ++ ((x ∷ xs) ++ nl)) c.cmds c'.cmds
        × (unread c' ≡ rest ++ tail)
        × (c'.cmd.wpos ≡ c.cmd.wpos)
        × (c'.r_num ≡ 0)
  process_redis-line one =
      let (a, e, added) = process_redis-behind one in
      let past =
        unread-advanced c ((x ∷ xs) ++ nl) (rest ++ tail)
          (here.unread_is ∙ append_assoc ((x ∷ xs) ++ nl) rest tail) in
      let len : length (x ∷ xs) + 2 ≡ length ((x ∷ xs) ++ nl) =
        omega (arith, length-append xs nl) in
      (
        behind_line a,
        e,
        added,
        ap (λ n. unread (advanced c n)) len ∙ past,
        refl,
        omega (arith, one),
      )
