-- ===== src/Server/Backend/Dangling.antt =====
-- A write to redis that fails in src/net/server.c, and what is left behind it.
use redis_pool.Base.{
  ℕ, suc, ◌≡◌, refl, ap, ◌∙◌, true, false, some, none, List, ◌∷◌, arith, ◌==◌, leb,
}
use redis_pool.Types.Array.{s_err, BufferArray}
use redis_pool.Client.{Client}
use redis_pool.Client.Read.{closed, received, base_read}
use redis_pool.Client.Write.{wrote, base_write}
use redis_pool.Map.Hash.{Hash, hash_remove, hash_get}
use redis_pool.Map.Hash as Hash
use redis_pool.Map.Hash.Remove.{IsAlone, hash_remove-twice}
use redis_pool.Types.Memory.{Realloc}
use redis_pool.Pool.{Redis, update, del_redis, free_redis}
use redis_pool.Server.{Peer, Server, done, fault, World, set_at, key_of}
use redis_pool.Server.Backend.{write_r, write_failed}
use redis_pool.Server.Frontend.{read_c, read_failed}

-- The state behind a failed write: the connection is freed.
abbrev left : (r : ℕ) → Redis → (middle : BufferArray) (out : List ℕ) (t : Hash) → Server → Server
left r n middle out t s = record s {
  conns = set_at s.conns r (record (s.conns r) { middle = middle });
  out = (n.fd, out) ∷ s.out;
  r_to_c = t;
  rps = record s.rps {
    redises = n.next;
    nodes = update s.rps.nodes r none;
    closed = n.fd ∷ s.rps.closed;
  };
}

module _ (w : World) (fd r : ℕ) (n : Redis) (s : Server) (r_ne : (r == 0) ≡ false)
    (node : s.rps.nodes r ≡ some n) (first : (n.prev == 0) ≡ true) (middle : BufferArray)
    (out : List ℕ) (c : ℕ) (t : Hash)
    (more : leb (s.conns r).middle.wpos (s.conns r).middle.rpos ≡ false)
    (fails : base_write w.block w.sends (s.conns r).middle ≡ wrote s_err middle out)
    (removed : hash_remove w.room w.fuel (key_of fd) s.r_to_c ≡ Hash.done c t)
    (removed_all : hash_remove w.room w.fuel (key_of fd) t ≡ Hash.done 0 t) where
  write_failed_lem :
      (s1 : Server)
      → s1.rps ≡ s.rps
      → s1.r_to_c ≡ s.r_to_c
      → write_failed w fd r s1
        ≡ done tt (record s1 { r_to_c = t; rps = (left r n middle out t s).rps })
  unfolding write_failed
  write_failed_lem s1 same table =
      let gone : hash_remove w.room w.fuel (key_of fd) s1.r_to_c ≡ Hash.done c t =
        ap (hash_remove w.room w.fuel (key_of fd)) table ∙ removed in
      let deleted : del_redis w.fuel r false s1.rps ≡ some (left r n middle out t s).rps =
        ap (del_redis w.fuel r false) same ∙ unfold del_redis free_redis in (ground arith) in
      ground arith

  write_r-left : write_r w fd r s ≡ done tt (left r n middle out t s)
  unfolding write_r
  write_r-left =
      let s1 : Server = record s {
        conns = set_at s.conns r (record (s.conns r) { middle = middle });
        out = (n.fd, out) ∷ s.out;
      } in
      ground (arith, write_failed_lem s1 refl refl)

base_read-closed : (r : Realloc) (c : Client) → (base_read r closed c).0 ≡ s_err
unfolding base_read received
base_read-closed r c = ground arith

read_failed-dangles :
    (w : World) (fd c r : ℕ) (t : Hash) (s : Server)
    → (r == 0) ≡ false
    → s.rps.nodes r ≡ none
    → hash_get w.fuel (key_of fd) s.c_to_r ≡ Hash.done r t
    → read_failed w fd c s ≡ fault
unfolding read_failed
read_failed-dangles w fd c r t s r_ne freed entry = ground arith

-- A client joined with the connection `r`, which has something to send.
pub record IsJoined (w : World) (fd r : ℕ) (n : Redis) (w' : World) (cfd c : ℕ) (p : Peer)
    (t : Hash) (s : Server) : Type 0 where
  pub conn_is : ((r == 0) ≡ false) × (s.rps.nodes r ≡ some n)
  pub first : (n.prev == 0) ≡ true
  pub client_is : ((c == 0) ≡ false) × (s.peers c ≡ some p)
  pub stays : p.client.is_quit ≡ false
  pub more : leb (s.conns r).middle.wpos (s.conns r).middle.rpos ≡ false
  pub conn_entry : (i : ℕ) × IsAlone (key_of fd) i s.r_to_c
  pub client_entry : hash_get w'.fuel (key_of cfd) s.c_to_r ≡ Hash.done r t

-- For a connection with something to send, the first one in use, whose entry in rToC is alone in its
-- chain, and a client that has the connection in cToR: when the write fails, writeR comes to its end
-- with the connection freed, and with the client and cToR as before. When the client closes after this,
-- readC uses the freed connection.
pub write_r-dangles :
    (w : World) (fd r : ℕ) (n : Redis) (w' : World) (cfd c : ℕ) (p : Peer) (t : Hash) (s : Server)
    → IsJoined w fd r n w' cfd c p t s
    → (middle : BufferArray) (out : List ℕ)
    → base_write w.block w.sends (s.conns r).middle ≡ wrote s_err middle out
    → (f : ℕ) → w.fuel ≡ suc f
    → w'.recv ≡ closed
    → (s' : Server) × (write_r w fd r s ≡ done tt s')
      × (s'.peers ≡ s.peers)
      × (s'.c_to_r ≡ s.c_to_r)
      × (s'.rps.nodes r ≡ none)
      × (read_c w' cfd c s' ≡ fault)
unfolding read_c
write_r-dangles w fd r n w' cfd c p t s h middle out fails f fuel ends =
    let (i, alone) = h.conn_entry in
    let (u, removed, again) = hash_remove-twice (key_of fd) i s.r_to_c alone w.room f in
    let key_gone = ap (λ k. hash_remove w.room k (key_of fd) s.r_to_c) fuel ∙ removed in
    let still_gone = ap (λ k. hash_remove w.room k (key_of fd) u) fuel ∙ again in
    let s' = left r n middle out u s in
    let freed : s'.rps.nodes r ≡ none = ground arith in
    let s1 : Server = record s' {
      peers =
          set_at s'.peers c (some (record p { client = (base_read w'.block closed p.client).1 }));
    } in
    let dangles = read_failed-dangles w' cfd c r t s1 h.conn_is.0 freed h.client_entry in
    let errs = base_read-closed w'.block p.client in
    let reads : base_read w'.block w'.recv p.client ≡ base_read w'.block closed p.client =
      ap (λ v. base_read w'.block v p.client) ends in
    (
      s',
      write_r-left w fd r n s h.conn_is.0 h.conn_is.1 h.first middle out ((s.r_to_c.n i).value) u
          h.more fails key_gone still_gone,
      refl,
      refl,
      freed,
      ground (arith, h.client_is.0, h.client_is.1, h.stays),
    )
