-- ===== src/Server/Frontend/Reads.antt =====
-- readC of src/net/server.c behind a recv that gives bytes.
use redis_pool.Base.{
  ℕ, ◌+◌, ◌≤◌, ◌<◌, ◌≡◌, ap, ◌∙◌, true, false, not, ◌||◌, some, List, ◌++◌, arith, ◌==◌,
  if◌then◌else◌, length,
}
use redis_pool.Types.Memory.{in_place}
use redis_pool.Types.Buffer.{per_iobuf_size}
use redis_pool.Types.Buffer.Content.{IsBuffer, content}
use redis_pool.Types.Array.{Status, s_ok}
use redis_pool.Client.{Client}
use redis_pool.Client.Read.{got, base_read, base_read-got, max_query_size, restored}
use redis_pool.Server.{Peer, Server, done, pure, World, set_at, again_behind}
use redis_pool.Server.Frontend.{with_conn, read_c}

-- baseRead of the client.
abbrev pub came : (g : ℕ → ℕ) (bytes : List ℕ) → Peer → Status × Client
came g bytes p = base_read (in_place g) (got bytes) p.client

-- The state behind it.
abbrev pub with_bytes : (g : ℕ → ℕ) (bytes : List ℕ) (c : ℕ) → Peer → Server → Server
with_bytes g bytes c p s = record s {
  peers = set_at s.peers c (some (record p { client = (came g bytes p).1 }));
}

module _ (w : World) (g : ℕ → ℕ) (fd c : ℕ) (p : Peer) (s : Server) (bytes : List ℕ)
    (c_ne : (c == 0) ≡ false) (live : s.peers c ≡ some p) (stays : p.client.is_quit ≡ false)
    (block : w.block ≡ in_place g) (comes : w.recv ≡ got bytes) where
  reads : base_read w.block w.recv p.client ≡ came g bytes p
  reads =
      ap (λ b. base_read b w.recv p.client) block
      ∙ ap (λ v. base_read (in_place g) v p.client) comes

  errno : again_behind w.again w.recv ≡ w.again
  errno = ap (again_behind w.again) comes

  pub read_c-received :
      (came g bytes p).0 ≡ s_ok
      → read_c w fd c s
        ≡ (if not (came g bytes p).1.is_valid || ((came g bytes p).1.is_quit || w.again)
              then pure tt
              else with_conn w fd c)
            (with_bytes g bytes c p s)
  unfolding read_c
  read_c-received ok = let r = reads in let e = errno in ground arith

  -- Where a call before has left EAGAIN in errno: for a client that is valid and does not quit, with a
  -- well-formed buffer, and bytes that recv can give at once and that leave fewer than 2 ^ 30 bytes in
  -- the buffer, where realloc extends the block in its place, readC appends the bytes to the buffer and
  -- does nothing else: no command is read, and no connection is asked for.
  pub read_c-stale :
      w.again ≡ true
      → IsBuffer p.client.cmd
      → length bytes ≤ per_iobuf_size
      → p.client.cmd.wpos + length bytes < max_query_size
      → (x : Client) × (read_c w fd c s
          ≡ done tt (record s { peers = set_at s.peers c (some (record p { client = x })) }))
        × (content x.cmd ≡ content p.client.cmd ++ bytes)
        × (restored p.client x ≡ p.client)
  read_c-stale stale valid short few =
      let r = base_read-got g bytes p.client short valid few in
      ((came g bytes p).1, read_c-received r.status ∙ ground arith, r.appended, r.rest_kept)
