-- ===== src/Multibulk/Arrives.antt =====
-- From the bytes that recv gives to the command of a client: baseRead of src/net/client.c, then
-- processClient of src/proto/multibulk.c.
use redis_pool.Base.{
  ℕ, suc, ◌≤◌, ◌≡◌, refl, sym, ap, ◌∙◌, true, some, List, [], ◌∷◌, ◌++◌, arith, length, take, drop,
  length-take, subst,
}
use redis_pool.Base.Int.{pos}
use redis_pool.Types.Number.Laws.{integer_of}
use redis_pool.Types.Memory.{in_place, take-drop-append}
use redis_pool.Types.Buffer.{per_iobuf_size}
use redis_pool.Types.Buffer.Content.{IsBuffer, content}
use redis_pool.Types.Array.{Status, null}
use redis_pool.Types.Array.Append.{Filling, fresh}
use redis_pool.Client.{Client, go}
use redis_pool.Client.Reply.{AlwaysGives, HasPlace}
use redis_pool.Client.Read.{got, Received, base_read, base_read-got}
use redis_pool.Multibulk.{Env, process_client}
use redis_pool.Multibulk.Line.{is_plain}
use redis_pool.Multibulk.Name.{IsCommand}
use redis_pool.Multibulk.Copy.{At}
use redis_pool.Multibulk.Command.{Bulk, AreBulks}
use redis_pool.Multibulk.Forwarded.{IsWaiting, Forwarded}
use redis_pool.Multibulk.Forward.{command_text, process_client-forwards}

-- Nothing has been read, and the place of the next command has no buffer.
pub record IsIdle (c : Client) : Type 0 where
  pub waiting : IsWaiting c
  pub unread_none : (c.cmd.rpos ≡ 0) × (c.cmd.wpos ≡ 0)
  pub valid : IsBuffer c.cmd
  pub place : HasPlace c.cmds c.cmd_num
  pub last : c.cmds.wpos ≡ c.cmd_num
  pub no_buffer : c.cmds.buff c.cmd_num ≡ null

IsWaiting-kept :
    (c d : Client)
    → d.multi_bulk_len ≡ c.multi_bulk_len
    → d.bulk_len ≡ c.bulk_len
    → d.argc ≡ c.argc
    → d.cmds.max ≡ c.cmds.max
    → IsWaiting c
    → IsWaiting d
IsWaiting-kept c d m b a s w = record {
  no_multi = m ∙ w.no_multi;
  no_bulk = b ∙ w.no_bulk;
  no_arg = a ∙ w.no_arg;
  size = omega (arith, s, w.size);
}

module _ (c : Client) (idle : IsIdle c) (bytes : List ℕ) (r : Status × Client)
    (received : Received bytes c r) where
  abbrev d : Client
  d = r.1

  IsWaiting-received : IsWaiting d
  IsWaiting-received =
      let same = received.rest_kept in
      IsWaiting-kept c d (ap (λ x. x.multi_bulk_len) same) (ap (λ x. x.bulk_len) same)
        (ap (λ x. x.argc) same) (ap (λ x. x.cmds.max) same) idle.waiting

  content-received : content d.cmd ≡ bytes
  unfolding content
  content-received = received.appended ∙ ap (λ n. take n c.cmd.buf ++ bytes) idle.unread_none.1

  wpos-received : d.cmd.wpos ≡ length bytes
  unfolding content
  wpos-received = omega (
    arith,
    length-take d.cmd.wpos d.cmd.buf,
    ap length content-received,
    received.valid.block,
    received.valid.write_le,
  )

  pub At-received : At d [] bytes (drop d.cmd.wpos d.cmd.buf)
  unfolding content
  At-received =
      let cmds : c.cmds ≡ d.cmds = sym (ap (λ x. x.cmds) received.rest_kept) in
      let num : c.cmd_num ≡ d.cmd_num = sym (ap (λ x. x.cmd_num) received.rest_kept) in
      let start : d.cmd.rpos ≡ 0 = received.same_rpos ∙ idle.unread_none.0 in
      record {
        filling =
            subst (λ k. Filling d.cmds k []) num
              (subst (λ a. Filling a c.cmd_num []) cmds (fresh idle.last idle.no_buffer refl));
        place =
            subst (λ k. HasPlace d.cmds k) num (subst (λ a. HasPlace a c.cmd_num) cmds idle.place);
        unread_is =
            ap (λ n. drop n d.cmd.buf) start
            ∙ sym (take-drop-append d.cmd.wpos d.cmd.buf)
            ∙ ap (λ t. t ++ drop d.cmd.wpos d.cmd.buf) content-received;
        ends = omega (arith, start, wpos-received);
        valid = received.valid;
      }

-- For an idle client, where the allocator gives memory and extends the block of `cmd` in its place:
-- when the bytes of one whole command of at most 16384 bytes, of arguments that are not empty and a
-- name of less than 60 bytes, whose number of arguments and lengths are written in the digits 1 to 9,
-- without a 0, come in one piece, then baseRead returns S_OK, and processClient returns
-- S_OK after two turns of its loop with exactly these bytes in the buffer at the client's next place,
-- waits for the next command, and has written no byte outside of the blocks.
pub base_read-forwards :
    (env : Env)
    → AlwaysGives env.os
    → (g : ℕ → ℕ) (c : Client) → IsIdle c
    → (digits : List ℕ) (b : Bulk) (bs : List Bulk) → is_plain digits ≡ true
    → integer_of digits ≡ some (pos (length (b ∷ bs)))
    → AreBulks (b ∷ bs)
    → IsCommand env b.arg
    → length (command_text digits (b ∷ bs)) ≤ per_iobuf_size
    → (fuel : ℕ)
    → let r = base_read (in_place g) (got (command_text digits (b ∷ bs))) c in
      Received (command_text digits (b ∷ bs)) c r
      × ((c' : Client) × (process_client env (suc (suc fuel)) r.1 ≡ go tt c')
          × Forwarded r.1 c' (command_text digits (b ∷ bs)))
base_read-forwards env gives g c idle digits b bs plain number valid command short fuel =
    let bytes = command_text digits (b ∷ bs) in
    let received =
      base_read-got g bytes c short idle.valid (omega (arith, idle.unread_none.1, short)) in
    let r = base_read (in_place g) (got bytes) c in
    (
      received,
      process_client-forwards env gives r.1 digits b bs (drop r.1.cmd.wpos r.1.cmd.buf)
          (IsWaiting-received c idle bytes r received) (At-received c idle bytes r received) plain
          number valid command (omega (arith, short)) fuel,
    )
