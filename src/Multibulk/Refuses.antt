-- ===== src/Multibulk/Refuses.antt =====
-- What processClient and processRedis of src/proto/multibulk.c do with other input.
use redis_pool.Base.{
  ℕ, suc, ◌+◌, ◌%◌, ◌^◌, ◌≤◌, ◌<◌, ◌≡◌, ◌≢◌, refl, ap, ◌∙◌, true, false, List, [], ◌∷◌, ◌++◌, arith,
  ltb, ◌==◌, length,
}
use redis_pool.Types.Array.{BufferArray, s_err, s_ok}
use redis_pool.Types.Array.Append.{capacity, Filling, Added}
use redis_pool.Client.{Client, stop, nl}
use redis_pool.Client.Steps.{>>=-stop, byte_at-drop}
use redis_pool.Client.Reply.{AlwaysGives, HasPlace, add_reply_by_size-Filling}
use redis_pool.Multibulk.Messages.{start_star}
use redis_pool.Multibulk.{
  Env, find_cr, absent, refuse, parse_input_buff_num, client_header, process_command,
  process_client, max_inline_size,
}
use redis_pool.Multibulk.Line.{is_plain, unread}
use redis_pool.Multibulk.Forward.{process_client-turn}

find_cr-absent : (xs rest : List ℕ) → is_plain xs ≡ true → find_cr (xs ++ 0 ∷ rest) ≡ absent
unfolding find_cr is_plain
find_cr-absent [] rest h = refl
find_cr-absent (x ∷ xs) rest h = ground (arith, find_cr-absent xs rest)

-- For a client between two commands with unread bytes that begin with `*` and go on to the end of the
-- string without the end of a line, in a buffer of at most 65536 bytes: processClient returns S_OK and
-- leaves the client as it is.
pub process_client-waits :
    (env : Env) (fuel : ℕ) (c : Client) (xs rest : List ℕ)
    → c.multi_bulk_len ≡ 0
    → c.cmd.rpos < c.cmd.wpos
    → c.cmd.wpos ≤ max_inline_size
    → unread c ≡ (b'*' ∷ xs) ++ 0 ∷ rest
    → is_plain xs ≡ true
    → process_client env (suc fuel) c ≡ stop s_ok c
unfolding process_command client_header parse_input_buff_num is_plain
process_client-waits env fuel c xs rest multi some_left small here plain =
    let none_here : find_cr (unread c) ≡ absent =
      ap find_cr here ∙ find_cr-absent (b'*' ∷ xs) rest plain in
    let at_header : (c.multi_bulk_len == 0) ≡ true = ground (arith, multi) in
    let few : ltb max_inline_size c.cmd.wpos ≡ false = ground (arith, small) in
    let stops : process_command env c ≡ stop s_ok c =
      rw (at_header, byte_at-drop c c.cmd.rpos b'*' (xs ++ 0 ∷ rest) here, none_here, few) refl in
    process_client-turn env fuel c some_left
    ∙ >>=-stop (process_command env) (λ _. process_client env fuel) stops

module _ (env : Env) (gives : AlwaysGives env.os) where
  refuse-Added :
      (c : Client) (text message : List ℕ)
      → HasPlace c.cmds c.cmd_num
      → Filling c.cmds c.cmd_num text
      → length text + length (message ++ nl) ≤ capacity
      → (a : BufferArray) × (refuse {A = Unit {0}} env message c
          ≡ stop s_err
              (record c { cmds = a; calls = c.calls + 1 + 1; cmd_num = (c.cmd_num + 1) % 2 ^ 64 }))
        × Added c.cmd_num (text ++ (message ++ nl)) c.cmds a
  refuse-Added c text message place f fits =
      let (a, e, added) = add_reply_by_size-Filling env.os gives c text message place f fits in
      (a, rw e refl, added)

  -- For a client between two commands whose next unread byte is not `*`, where the allocator gives
  -- memory and the message fits in the buffer of the client's place: processClient returns S_ERR,
  -- appends the message to that buffer and changes no other, counts one command more, and reads nothing.
  pub process_client-refuses :
      (fuel : ℕ) (c : Client) (text : List ℕ) (x : ℕ) (rest : List ℕ)
      → c.multi_bulk_len ≡ 0
      → c.cmd.rpos < c.cmd.wpos
      → unread c ≡ x ∷ rest
      → x ≢ b'*'
      → HasPlace c.cmds c.cmd_num
      → Filling c.cmds c.cmd_num text
      → length text + length (start_star ++ nl) ≤ capacity
      → (c' : Client) × (process_client env (suc fuel) c ≡ stop s_err c')
        × Added c.cmd_num (text ++ (start_star ++ nl)) c.cmds c'.cmds
        × (c'.cmd_num ≡ (c.cmd_num + 1) % 2 ^ 64)
        × (c'.cmd ≡ c.cmd)
  unfolding process_command client_header
  process_client-refuses fuel c text x rest multi some_left here other place f fits =
      let (a, e, added) = refuse-Added c text start_star place f fits in
      let at_header : (c.multi_bulk_len == 0) ≡ true = ground (arith, multi) in
      let differs : (x == b'*') ≡ false = ground (arith, other) in
      let d : Client = record c {
        cmds = a;
        calls = c.calls + 1 + 1;
        cmd_num = (c.cmd_num + 1) % 2 ^ 64;
      } in
      let stops : process_command env c ≡ stop s_err d =
        rw (at_header, byte_at-drop c c.cmd.rpos x rest here, differs, e) refl in
      (
        d,
        process_client-turn env fuel c some_left
            ∙ >>=-stop (process_command env) (λ _. process_client env fuel) stops,
        added,
        refl,
        refl,
      )
