-- ===== src/Multibulk/Copy.antt =====
-- What processClient of src/proto/multibulk.c copies: the parts of one command.
use redis_pool.Base.{
  ℕ, ◌+◌, ◌-◌, ◌%◌, ◌^◌, ◌≤◌, ◌<◌, ◌≡◌, refl, ap, ◌∙◌, Bool, true, false, some, List, ◌∷◌, ◌++◌,
  arith, ltb, ◌==◌, length, take, drop, length-append, append_assoc, take-append,
}
use redis_pool.Base.Int.{pos}
use redis_pool.Types.Memory.{drop-more}
use redis_pool.Types.Number.Laws.{integer_of}
use redis_pool.Types.Buffer.{Buffer, sub64}
use redis_pool.Types.Buffer.Content.{IsBuffer}
use redis_pool.Types.Array.{BufferArray}
use redis_pool.Types.Array.Append.{capacity, Filling, Added}
use redis_pool.Client.{Client, go, Action, ◌>>=◌, bytes_at, add_reply_by_size, nl}
use redis_pool.Client.Steps.{byte_at-drop, bytes_at-take}
use redis_pool.Client.Reply.{AlwaysGives, HasPlace, add_reply_by_size-Filling}
use redis_pool.Multibulk.{Env, bulk_header, copy_bulk, bulk_body}
use redis_pool.Multibulk.Line.{
  is_plain, unread, advanced, unread-advanced, parse_input_buff_num-line,
}
use redis_pool.Multibulk.Name.{IsCommand, check_first}

-- `text` is what the buffer at the place `k` holds so far, and `rest` has not been read.
pub record Copying (cmd : Buffer) (cmds : BufferArray) (k : ℕ) (text rest tail : List ℕ)
    : Type 0 where
  pub filling : Filling cmds k text
  pub place : HasPlace cmds k
  pub unread_is : drop cmd.rpos cmd.buf ≡ rest ++ tail
  pub ends : cmd.rpos + length rest ≡ cmd.wpos
  pub valid : IsBuffer cmd

abbrev pub At : Client → (text rest tail : List ℕ) → Type 0
At c text rest tail = Copying c.cmd c.cmds c.cmd_num text rest tail

-- What is left to read when the part `xs` has been copied.
pub At-copied :
    (c : Client) (a : BufferArray) (n : ℕ) (text text' xs rest tail : List ℕ)
    → At c text (xs ++ rest) tail
    → Added c.cmd_num text' c.cmds a
    → n ≡ length xs
    → At (record (advanced c n) { cmds = a }) text' rest tail
At-copied c a n text text' xs rest tail here added same =
    let size = length-append xs rest in
    let v = here.valid in
    record {
      filling = added.filling;
      place = record {
        inside = omega (arith, added.size_kept, here.place.inside);
        below = omega (arith, added.max_kept, here.place.below);
      };
      unread_is =
          ap (λ m. unread (advanced c m)) same
          ∙ unread-advanced c xs (rest ++ tail) (here.unread_is ∙ append_assoc xs rest tail);
      ends = omega (arith, size, here.ends);
      valid = record {
        block = v.block;
        read_le = omega (arith, size, here.ends);
        write_le = v.write_le;
        used_ge = v.used_ge;
        used_lt = v.used_lt;
        size = v.size;
      };
    }

-- A copy of the bytes `xs` at the offset `p`.
unfoldable pub copy_of : Env → (p n : ℕ) → Action (Unit {0})
copy_of env p n = bytes_at p n >>= add_reply_by_size env.os

module _ (env : Env) (gives : AlwaysGives env.os) where
  pub copy_of-Filling :
      (c : Client) (p q n : ℕ) (text xs rest : List ℕ)
      → HasPlace c.cmds c.cmd_num
      → Filling c.cmds c.cmd_num text
      → length text + length (xs ++ nl) ≤ capacity
      → q ≡ p
      → n ≡ length xs
      → drop p c.cmd.buf ≡ xs ++ rest
      → p + length xs ≤ length c.cmd.buf
      → (a : BufferArray) × (copy_of env q n c
          ≡ go tt (record c { cmds = a; calls = c.calls + 1 + 1 }))
        × Added c.cmd_num (text ++ (xs ++ nl)) c.cmds a
  unfolding copy_of
  copy_of-Filling c p q n text xs rest place f fits same len here inside =
      let (a, e, added) = add_reply_by_size-Filling env.os gives c text xs place f fits in
      let bytes : take (length xs) (drop p c.cmd.buf) ≡ xs =
        ap (take (length xs)) here ∙ take-append xs rest in
      (a, rw (same, len, bytes_at-take c p (length xs) inside, bytes) e, added)

  module _ (c : Client) (text ds rest tail : List ℕ) (n : ℕ)
      (here : At c text ((b'$' ∷ ds) ++ (nl ++ rest)) tail) (plain : is_plain ds ≡ true)
      (number : integer_of ds ≡ some (pos n)) (positive : 0 < n) (small : n < 2 ^ 64)
      (fits : length text + length ((b'$' ∷ ds) ++ nl) ≤ capacity) where
    -- The client behind the line, without the copy.
    abbrev pub behind_header : Client
    behind_header = record (advanced c (length ds + 3)) { bulk_len = n }

    pub bulk_header-copies :
        (a : BufferArray) × (bulk_header env true c
          ≡ go tt (record behind_header { cmds = a; calls = c.calls + 1 + 1 }))
        × Added c.cmd_num (text ++ ((b'$' ∷ ds) ++ nl)) c.cmds a
    unfolding bulk_header copy_of is_plain
    bulk_header-copies =
        let line : unread c ≡ (b'$' ∷ ds) ++ (nl ++ (rest ++ tail)) =
          here.unread_is ∙ ap (◌∷◌ b'$') (append_assoc ds (nl ++ rest) tail) in
        let size = length-append ds (nl ++ rest) in
        let v = here.valid in
        let e = here.ends in
        let (a, e', added) =
          copy_of-Filling behind_header c.cmd.rpos (c.cmd.rpos + (length ds + 3) - length ds - 3)
            (length ds + 1) text (b'$' ∷ ds) (nl ++ (rest ++ tail)) here.place here.filling fits
            (omega arith) (omega arith) line (omega (arith, size, e, v.block, v.write_le)) in
        let value : n % 2 ^ 64 ≡ n = omega arith in
        let is_pos : ltb 0 n ≡ true = ground arith in
        (
          a,
          rw
              (
                byte_at-drop c c.cmd.rpos b'$' (ds ++ (nl ++ (rest ++ tail))) line,
                parse_input_buff_num-line env c b'$' ds (rest ++ tail) (pos n) line plain number
                    (omega (arith, size, e, v.write_le, v.size)),
                is_pos,
                value,
              )
              e',
          added,
        )

module _ (env : Env) (gives : AlwaysGives env.os) (c : Client) (text arg rest tail : List ℕ)
    (here : At c text (arg ++ (nl ++ rest)) tail) (len : c.bulk_len ≡ length arg)
    (command : (c.argc == 0) ≡ true → IsCommand env arg)
    (fits : length text + length (arg ++ nl) ≤ capacity) where
  -- The client behind the argument, without the copy.
  abbrev pub behind_body : Bool → Client
  behind_body b = record (advanced c (length arg + 2)) { is_block = b }

  copy_bulk-copies :
      (a : BufferArray) × (b : Bool) × (copy_bulk env true (length arg) c
        ≡ go tt (record (behind_body b) { cmds = a; calls = c.calls + 1 + 1 }))
      × Added c.cmd_num (text ++ (arg ++ nl)) c.cmds a
  unfolding copy_bulk
  copy_bulk-copies =
      let line : unread c ≡ arg ++ (nl ++ (rest ++ tail)) =
        here.unread_is ∙ append_assoc arg (nl ++ rest) tail in
      let size = length-append arg (nl ++ rest) in
      let v = here.valid in
      let enough : ltb (sub64 c.cmd.wpos c.cmd.rpos) ((length arg + 2) % 2 ^ 64) ≡ false =
        ground (arith, size, here.ends, v.write_le, v.size) in
      let after : (c.cmd.rpos + length arg) % 2 ^ 64 ≡ c.cmd.rpos + length arg =
        omega (arith, size, here.ends, v.write_le, v.size) in
      let d : Client = advanced c (length arg) in
      let cr : drop (c.cmd.rpos + length arg) c.cmd.buf ≡ nl ++ (rest ++ tail) =
        unread-advanced c arg (nl ++ (rest ++ tail)) line in
      let lf : drop (c.cmd.rpos + length arg + 1) c.cmd.buf ≡ b'\n' ∷ (rest ++ tail) =
        drop-more (c.cmd.rpos + length arg + 1) (c.cmd.rpos + length arg) 1 c.cmd.buf refl
        ∙ ap (drop 1) cr in
      let (b, checked) = check_first env arg d (c.argc == 0) command in
      let e : Client = record d { is_block = b } in
      let inside : c.cmd.rpos + length arg ≤ length c.cmd.buf =
        omega (arith, size, here.ends, v.write_le, v.block) in
      let bytes : take (length arg) (drop c.cmd.rpos c.cmd.buf) ≡ arg =
        ap (take (length arg)) line ∙ take-append arg (nl ++ (rest ++ tail)) in
      let back : c.cmd.rpos + length arg - length arg ≡ c.cmd.rpos = omega arith in
      let (a, copied, added) =
        add_reply_by_size-Filling env.os gives e text arg here.place here.filling fits in
      let past : (c.cmd.rpos + length arg + 2) % 2 ^ 64 ≡ c.cmd.rpos + (length arg + 2) =
        omega (arith, size, here.ends, v.write_le, v.size) in
      (
        a,
        b,
        rw
            (
              enough,
              after,
              after,
              byte_at-drop d (c.cmd.rpos + length arg) b'\r' (b'\n' ∷ (rest ++ tail)) cr,
              byte_at-drop d (c.cmd.rpos + length arg + 1) b'\n' (rest ++ tail) lf,
              back,
              bytes_at-take d c.cmd.rpos (length arg) inside,
              bytes,
              checked,
              copied,
              past,
            )
            refl,
        added,
      )

  pub bulk_body-copies :
      (a : BufferArray) × (b : Bool) × (bulk_body env true c
        ≡ go tt (record (behind_body b) { cmds = a; calls = c.calls + 1 + 1 }))
      × Added c.cmd_num (text ++ (arg ++ nl)) c.cmds a
  unfolding bulk_body
  bulk_body-copies =
      let (a, b, e, added) = copy_bulk-copies in
      (a, b, ap (λ n. copy_bulk env true n c) len ∙ e, added)
