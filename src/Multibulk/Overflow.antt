-- ===== src/Multibulk/Overflow.antt =====
-- The buffer tmpCmd of processCmds of src/proto/multibulk.c.
use redis_pool.Base.{
  ℕ, suc, ◌+◌, ◌-◌, ◌%◌, ◌^◌, ◌≤◌, ◌<◌, ◌≡◌, refl, ap, ◌∙◌, true, false, List, ◌∷◌, ◌++◌, arith,
  ltb, ◌==◌, length, take, drop, length-append, append_assoc, take-append, subst,
}
use redis_pool.Types.Memory.{drop-more}
use redis_pool.Types.Buffer.{sub64}
use redis_pool.Types.Array.Append.{capacity}
use redis_pool.Client.{Client, crash, nl}
use redis_pool.Client.Steps.{byte_at-drop, bytes_at-take}
use redis_pool.Client.Reply.{AlwaysGives}
use redis_pool.Multibulk.{
  Env, bulk_body, copy_bulk, check_command, process_bulk, cmds_loop, tmp_cmd_size,
}
use redis_pool.Multibulk.Line.{unread, advanced, unread-advanced}
use redis_pool.Multibulk.Copy.{At, At-copied, bulk_header-copies}
use redis_pool.Multibulk.Command.{Bulk, IsBulk, bulk_text, header_text}

check_command-long :
    (env : Env) (arg : List ℕ) (c : Client)
    → tmp_cmd_size < length arg
    → check_command env arg c ≡ crash
unfolding check_command
check_command-long env arg c h =
    let long : ltb tmp_cmd_size (length arg) ≡ true = ground (arith, h) in
    rw (check_command, long) refl

module _ (env : Env) (c : Client) (text arg rest tail : List ℕ)
    (here : At c text (arg ++ (nl ++ rest)) tail) (first : c.argc ≡ 0)
    (long : tmp_cmd_size < length arg) where
  copy_bulk-long : copy_bulk env true (length arg) c ≡ crash
  unfolding copy_bulk
  copy_bulk-long =
      let line : unread c ≡ arg ++ (nl ++ (rest ++ tail)) =
        here.unread_is ∙ append_assoc arg (nl ++ rest) tail in
      let size = length-append arg (nl ++ rest) in
      let v = here.valid in
      let enough : ltb (sub64 c.cmd.wpos c.cmd.rpos) ((length arg + 2) % 2 ^ 64) ≡ false =
        ground (arith, size, here.ends, v.write_le, v.size) in
      let after : (c.cmd.rpos + length arg) % 2 ^ 64 ≡ c.cmd.rpos + length arg =
        omega (arith, size, here.ends, v.write_le, v.size) in
      let d : Client = advanced c (length arg) in
      let cr : drop (c.cmd.rpos + length arg) c.cmd.buf ≡ nl ++ (rest ++ tail) =
        unread-advanced c arg (nl ++ (rest ++ tail)) line in
      let lf : drop (c.cmd.rpos + length arg + 1) c.cmd.buf ≡ b'\n' ∷ (rest ++ tail) =
        drop-more (c.cmd.rpos + length arg + 1) (c.cmd.rpos + length arg) 1 c.cmd.buf refl
        ∙ ap (drop 1) cr in
      let inside : c.cmd.rpos + length arg ≤ length c.cmd.buf =
        omega (arith, size, here.ends, v.write_le, v.block) in
      let bytes : take (length arg) (drop c.cmd.rpos c.cmd.buf) ≡ arg =
        ap (take (length arg)) line ∙ take-append arg (nl ++ (rest ++ tail)) in
      let back : c.cmd.rpos + length arg - length arg ≡ c.cmd.rpos = omega arith in
      let name : (c.argc == 0) ≡ true = ground (arith, first) in
      rw
        (
          enough,
          after,
          after,
          byte_at-drop d (c.cmd.rpos + length arg) b'\r' (b'\n' ∷ (rest ++ tail)) cr,
          byte_at-drop d (c.cmd.rpos + length arg + 1) b'\n' (rest ++ tail) lf,
          back,
          bytes_at-take d c.cmd.rpos (length arg) inside,
          bytes,
          name,
          check_command-long env arg d long,
        )
        refl

-- For a client at the first argument of a command, where the allocator gives memory: when the next
-- unread bytes are a whole argument of more than 60 bytes, whose length is written in the digits 1 to 9,
-- without a 0, and whose line with the length fits in the buffer of the place, then processCmds writes outside of the memory that is allocated.
pub cmds_loop-overflows :
    (env : Env)
    → AlwaysGives env.os
    → (b : Bulk) → IsBulk b
    → (c : Client) (text rest tail : List ℕ) (left : ℕ) → c.bulk_len ≡ 0
    → c.argc ≡ 0
    → At c text (bulk_text b ++ rest) tail
    → length text + length (header_text b) ≤ capacity
    → tmp_cmd_size < length b.arg
    → cmds_loop env true (suc left) c ≡ crash
unfolding cmds_loop process_bulk bulk_body bulk_text
cmds_loop-overflows env gives b valid c text rest tail left start first here fits long =
    let size = length-append (header_text b) (b.arg ++ nl) in
    let size' = length-append (header_text b ++ (b.arg ++ nl)) rest in
    let small : length b.arg < 2 ^ 64 = omega (
      arith,
      size,
      size',
      length-append b.arg nl,
      here.ends,
      here.valid.write_le,
      here.valid.size,
    ) in
    let rest1 = b.arg ++ (nl ++ rest) in
    let nested : bulk_text b ++ rest ≡ header_text b ++ rest1 =
      append_assoc (header_text b) (b.arg ++ nl) rest
      ∙ ap (λ t. header_text b ++ t) (append_assoc b.arg nl rest) in
    let line : header_text b ++ rest1 ≡ (b'$' ∷ b.digits) ++ (nl ++ rest1) =
      append_assoc (b'$' ∷ b.digits) nl rest1 in
    let here1 = subst (λ t. At c text t tail) nested here in
    let (a, e, added) =
      bulk_header-copies env gives c text b.digits rest1 tail (length b.arg)
        (subst (λ t. At c text t tail) line here1) valid.plain valid.number valid.nonempty small
        fits in
    let at1 =
      At-copied c a (length b.digits + 3) text (text ++ header_text b) (header_text b) rest1 tail
        here1 added (omega (arith, length-append b.digits nl)) in
    let d : Client = record (advanced c (length b.digits + 3)) {
      bulk_len = length b.arg;
      cmds = a;
      calls = c.calls + 1 + 1;
    } in
    let zero_len : (c.bulk_len == 0) ≡ true = ground (arith, start) in
    let some_len : ltb 0 (length b.arg) ≡ true = ground (arith, valid.nonempty) in
    rw
      (
        zero_len,
        e,
        some_len,
        copy_bulk-long env d (text ++ header_text b) b.arg rest tail at1 first long,
      )
      refl
