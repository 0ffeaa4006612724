-- ===== src/Multibulk/Forward.antt =====
-- processClient of src/proto/multibulk.c on the bytes of one whole command.
use redis_pool.Base.{
  ℕ, suc, ◌+◌, ◌-◌, ◌%◌, ◌^◌, ◌≤◌, ◌<◌, ◌≡◌, refl, sym, ap, ◌∙◌, true, false, some, List, [], ◌∷◌,
  ◌++◌, arith, leb, ◌==◌, length, length-append, append_assoc, subst,
}
use redis_pool.Base.Int.{pos}
use redis_pool.Types.Number.Laws.{integer_of}
use redis_pool.Types.Buffer.{is_buff_eof}
use redis_pool.Types.Array.{BufferArray}
use redis_pool.Types.Array.Append.{capacity, Added}
use redis_pool.Client.{Client, go, continue, ◌>>◌, nl}
use redis_pool.Client.Steps.{>>=-go, on_return-go, byte_at-drop}
use redis_pool.Client.Reply.{AlwaysGives, Added-twice}
use redis_pool.Multibulk.{
  Env, client_header, cmds_loop, end_cmds, process_cmds, process_command, process_client,
  parse_input_buff_num, waiting_is_ok,
}
use redis_pool.Multibulk.Line.{is_plain, unread, advanced, parse_input_buff_num-line}
use redis_pool.Multibulk.Name.{IsCommand}
use redis_pool.Multibulk.Copy.{At, At-copied, copy_of, copy_of-Filling}
use redis_pool.Multibulk.Pendding.{At-pendding, Added-pendding}
use redis_pool.Multibulk.Command.{Bulk, bulks_text, AreBulks, le-bulks_text, Turn, cmds_loop-copies}
use redis_pool.Multibulk.Forwarded.{IsWaiting, Forwarded, end_cmds-Forwarded}

-- The command whose number of arguments is written in `digits`.
unfoldable pub command_text : (digits : List ℕ) → List Bulk → List ℕ
command_text digits bs = ((b'*' ∷ digits) ++ nl) ++ bulks_text bs

module _ (env : Env) (fuel : ℕ) (c : Client) where
  pub process_client-turn :
      c.cmd.rpos < c.cmd.wpos
      → process_client env (suc fuel) c ≡ (process_command env >> process_client env fuel) c
  unfolding process_client is_buff_eof
  process_client-turn h =
      let more : leb c.cmd.wpos c.cmd.rpos ≡ false = ground arith in rw (process_client, more) refl

  pub process_client-end : c.cmd.wpos ≤ c.cmd.rpos → process_client env (suc fuel) c ≡ go tt c
  unfolding process_client is_buff_eof
  process_client-end h =
      let eof : leb c.cmd.wpos c.cmd.rpos ≡ true = ground arith in rw (process_client, eof) refl

module _ (env : Env) (gives : AlwaysGives env.os) (c : Client) (digits : List ℕ) (b : Bulk)
    (bs : List Bulk) (tail : List ℕ) (waiting : IsWaiting c)
    (here : At c [] (command_text digits (b ∷ bs)) tail) (plain : is_plain digits ≡ true)
    (number : integer_of digits ≡ some (pos (length (b ∷ bs)))) (valid : AreBulks (b ∷ bs))
    (command : IsCommand env b.arg) (fits : length (command_text digits (b ∷ bs)) ≤ capacity) where
  abbrev args : List ℕ
  args = bulks_text (b ∷ bs)

  abbrev header : List ℕ
  header = (b'*' ∷ digits) ++ nl

  client_header-copies :
      (a : BufferArray) × (client_header env c
        ≡ go tt (record (advanced c (length digits + 3)) {
          multi_bulk_len = suc (length bs);
          cmds = a;
          calls = c.calls + 1 + 1;
        }))
      × Added c.cmd_num header c.cmds a
  unfolding client_header copy_of is_plain command_text
  client_header-copies =
      let line : unread c ≡ (b'*' ∷ digits) ++ (nl ++ (args ++ tail)) =
        here.unread_is
        ∙ append_assoc header args tail
        ∙ append_assoc (b'*' ∷ digits) nl (args ++ tail) in
      let size = length-append header args in
      let size' = length-append digits nl in
      let v = here.valid in
      let e = here.ends in
      let d : Client = record (advanced c (length digits + 3)) {
        multi_bulk_len = suc (length bs);
      } in
      let (a, e', added) =
        copy_of-Filling env gives d c.cmd.rpos
          (c.cmd.rpos + (length digits + 3) - length digits - 3) (length digits + 1) []
          (b'*' ∷ digits) (nl ++ (args ++ tail)) here.place here.filling (omega (arith, size))
          (omega arith) (omega arith) line (omega (arith, size, size', e, v.block, v.write_le)) in
      let value : suc (length bs) % 2 ^ 64 ≡ suc (length bs) =
        omega (arith, le-bulks_text (b ∷ bs), size, fits) in
      let parsed =
        parse_input_buff_num-line env c b'*' digits (args ++ tail) (pos (suc (length bs))) line
          plain number (omega (arith, size, size', e, v.write_le, v.size)) in
      (
        a,
        rw
            (
              byte_at-drop c c.cmd.rpos b'*' (digits ++ (nl ++ (args ++ tail))) line,
              on_return-go (parse_input_buff_num env) waiting_is_ok parsed,
              value,
            )
            e',
        added,
      )

  command_text-header : length header ≡ length digits + 3
  command_text-header = omega (arith, length-append digits nl)

  more_to_read : 0 < length (command_text digits (b ∷ bs))
  unfolding command_text
  more_to_read = omega (arith, command_text-header, length-append header args)

  process_cmds-Forwarded :
      (c1 : Client)
      → c1.multi_bulk_len ≡ suc (length bs)
      → c1.bulk_len ≡ 0
      → c1.argc ≡ 0
      → c1.cmd_num ≡ c.cmd_num
      → c1.stray ≡ c.stray
      → At c1 header args tail
      → Added c.cmd_num header c.cmds c1.cmds
      → (c' : Client) × (process_cmds env true c1 ≡ go tt c')
        × Forwarded c (record c' { multi_bulk_len = 0 }) (command_text digits (b ∷ bs))
  unfolding process_cmds command_text
  process_cmds-Forwarded c1 multi start first num stray at added =
      let c2 : Client = record c1 { cmds = record c1.cmds { pendding = true } } in
      let whole = command_text digits (b ∷ bs) in
      let size = length-append header args in
      let (d, e, turn) =
        cmds_loop-copies env gives b bs c2 header tail valid command start
          (At-pendding c1 true header args tail at) first (omega (arith, size)) in
      let added2 =
        Added-twice c.cmd_num header whole c.cmds c2.cmds d.cmds
          (Added-pendding c.cmds c1.cmds true c.cmd_num header added)
          (subst (λ k. Added k whole c2.cmds d.cmds) num turn.added) in
      let turn2 : Turn c d whole [] tail = record {
        at = turn.at;
        added = added2;
        same_num = turn.same_num ∙ num;
        same_stray = turn.same_stray ∙ stray;
        no_bulk = turn.no_bulk;
      } in
      let (c', e', forwarded) =
        end_cmds-Forwarded c d whole tail waiting here.place.below turn2 (omega (arith, size)) in
      (
        c',
        ap (λ n. continue (cmds_loop env true n c2) (λ _. end_cmds)) multi
            ∙ >>=-go (cmds_loop env true (suc (length bs))) (λ _. end_cmds) e
            ∙ e',
        forwarded,
      )

  process_command-Forwarded :
      (c' : Client) × (process_command env c ≡ go tt c')
      × Forwarded c c' (command_text digits (b ∷ bs))
  unfolding process_command command_text
  process_command-Forwarded =
      let (a, e, added) = client_header-copies in
      let c1 : Client = record (advanced c (length digits + 3)) {
        multi_bulk_len = suc (length bs);
        cmds = a;
        calls = c.calls + 1 + 1;
      } in
      let at1 =
        At-copied c a (length digits + 3) [] header header args tail here added
          (sym command_text-header) in
      let (d, e', forwarded) =
        process_cmds-Forwarded c1 refl waiting.no_bulk waiting.no_arg refl refl at1 added in
      let at_header : (c.multi_bulk_len == 0) ≡ true = ground (arith, waiting.no_multi) in
      (
        record d { multi_bulk_len = 0 },
        rw (at_header, e, on_return-go (process_cmds env true) waiting_is_ok e') refl,
        forwarded,
      )

  -- For a client that waits for a command, whose unread bytes are one whole command of at most 16385
  -- bytes, of arguments that are not empty and a name of less than 60 bytes, whose number of arguments
  -- and lengths are written in the digits 1 to 9, without a 0, and where the allocator gives memory:
  -- processClient returns S_OK when it has made two turns of its loop. It has then copied the
  -- bytes of the command, and no others, to the buffer at the client's next place, has counted one
  -- command more and emptied `cmd`, waits for the next command, and has written no byte outside of the
  -- blocks nor to another buffer.
  pub process_client-forwards :
      (fuel : ℕ)
      → (c' : Client) × (process_client env (suc (suc fuel)) c ≡ go tt c')
        × Forwarded c c' (command_text digits (b ∷ bs))
  process_client-forwards fuel =
      let (c', e, forwarded) = process_command-Forwarded in
      (
        c',
        process_client-turn env (suc fuel) c (omega (arith, here.ends, more_to_read))
            ∙ >>=-go (process_command env) (λ _. process_client env (suc fuel)) e
            ∙ process_client-end env fuel c'
                (omega (arith, forwarded.emptied.0, forwarded.emptied.1)),
        forwarded,
      )
