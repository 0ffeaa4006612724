-- ===== src/Multibulk/Forwarded.antt =====
-- The end of processCmds of src/proto/multibulk.c, and what a whole command leaves behind.
use redis_pool.Base.{ℕ, suc, ◌+◌, ◌%◌, ◌^◌, ◌<◌, ◌≡◌, ◌≢◌, refl, ap, false, List, [], arith, length}
use redis_pool.Types.Buffer.{Buffer, srange_buff}
use redis_pool.Types.Buffer.Content.{IsBuffer, content, srange_buff_lem}
use redis_pool.Types.Array.{BufferArray, held}
use redis_pool.Types.Array.Append.{Filling, fresh, begun}
use redis_pool.Client.{Client, go}
use redis_pool.Multibulk.{end_cmds}
use redis_pool.Multibulk.Command.{Turn}

-- The client waits for a command, and its place is empty.
pub record IsWaiting (c : Client) : Type 0 where
  pub no_multi : c.multi_bulk_len ≡ 0
  pub no_bulk : c.bulk_len ≡ 0
  pub no_arg : c.argc ≡ 0
  pub size : c.cmds.max < 2 ^ 64

-- The command is in the buffer at its place, and nothing else has changed; `cmd` is empty again.
pub record Forwarded (c c' : Client) (text : List ℕ) : Type 0 where
  pub copied : (b : Buffer) × (c'.cmds.buff c.cmd_num ≡ held b) × (content b ≡ text)
  pub others : (j : ℕ) → j ≢ c.cmd_num → c'.cmds.buff j ≡ c.cmds.buff j
  pub next : c'.cmd_num ≡ c.cmd_num + 1
  pub one_more : c'.cmds.wpos ≡ c'.cmd_num
  pub complete : c'.cmds.pendding ≡ false
  pub emptied : (c'.cmd.rpos ≡ 0) × (c'.cmd.wpos ≡ 0)
  pub valid : IsBuffer c'.cmd
  pub room_kept : (c'.cmds.max ≡ c.cmds.max) × (c'.cmds.size ≡ c.cmds.size)
  pub waiting : IsWaiting c'
  pub in_bounds : (c'.stray ≡ c.stray) × (c'.cmds.stray ≡ c.cmds.stray)

-- The buffer of a text that is not empty.
pub Filling-held :
    (a : BufferArray) (k : ℕ) (text : List ℕ)
    → Filling a k text
    → 0 < length text
    → (a.wpos ≡ suc k) × ((b : Buffer) × (a.buff k ≡ held b) × (content b ≡ text))
Filling-held a k text (fresh e n t) h = absurd (omega (arith, ap length t, h))
Filling-held a k text (begun e b n h) more = (e, (b, n, h.text_is))

-- srangeBuff where everything has been read.
srange_buff-read :
    (b : Buffer)
    → IsBuffer b
    → b.rpos ≡ b.wpos
    → ((srange_buff b b.rpos).buffer.rpos ≡ 0)
      × ((srange_buff b b.rpos).buffer.wpos ≡ 0)
      × ((srange_buff b b.rpos).stray ≡ 0)
unfolding srange_buff
srange_buff-read b v e = (ground arith, ground arith, ground arith)

pub end_cmds-Forwarded :
    (c d : Client) (text tail : List ℕ)
    → IsWaiting c
    → c.cmd_num < c.cmds.max
    → Turn c d text [] tail
    → 0 < length text
    → (c' : Client) × (end_cmds d ≡ go tt c') × Forwarded c (record c' { multi_bulk_len = 0 }) text
unfolding end_cmds
end_cmds-Forwarded c d text tail waiting below turn more =
    let at = turn.at in
    let (r0, w0, s0) = srange_buff-read d.cmd at.valid (omega (arith, at.ends)) in
    let w = srange_buff d.cmd d.cmd.rpos in
    let (wpos, slot) = Filling-held d.cmds c.cmd_num text turn.added.filling more in
    let num : (d.cmd_num + 1) % 2 ^ 64 ≡ c.cmd_num + 1 =
      omega (arith, turn.same_num, below, waiting.size) in
    (
      record d {
        argc = 0;
        cmd_num = (d.cmd_num + 1) % 2 ^ 64;
        cmds = record d.cmds { pendding = false };
        cmd = w.buffer;
        stray = d.stray + w.stray;
      },
      refl,
      record {
        copied = slot;
        others = turn.added.others;
        next = num;
        one_more = omega (arith, wpos, num);
        complete = refl;
        emptied = (r0, w0);
        valid = (srange_buff_lem d.cmd d.cmd.rpos at.valid).1;
        room_kept = (turn.added.max_kept, turn.added.size_kept);
        waiting = record {
          no_multi = refl;
          no_bulk = turn.no_bulk;
          no_arg = refl;
          size = omega (arith, turn.added.max_kept, waiting.size);
        };
        in_bounds = (omega (arith, turn.same_stray, s0), turn.added.in_bounds);
      },
    )
