-- ===== src/Server/Frontend/Busy.antt =====
-- A client of src/net/server.c that gets no connection: readC, and then writeC.
use redis_pool.Base.{
  ℕ, ◌+◌, ◌%◌, ◌^◌, ◌≤◌, ◌<◌, ◌≡◌, refl, sym, ap, ◌∙◌, subst, true, false, not, ◌||◌, some, none,
  List, [], ◌∷◌, ◌++◌, arith, ◌==◌, leb, if◌then◌else◌, length,
}
use redis_pool.Types.Memory.{in_place}
use redis_pool.Types.Array.{BufferArray}
use redis_pool.Types.Array.Append.{Filling, Added}
use redis_pool.Client.{Client, go, nl, add_reply_cmd}
use redis_pool.Client.Reply.{AlwaysGives, HasPlace, add_reply_by_size-Filling}
use redis_pool.Client.Read.{got, base_read-got, max_query_size}
use redis_pool.Types.Buffer.{per_iobuf_size}
use redis_pool.Types.Buffer.Content.{IsBuffer}
use redis_pool.Map.Hash.{Hash, hash_remove}
use redis_pool.Map.Hash as Hash
use redis_pool.Map.Tree.Store.{Tree}
use redis_pool.Map.Tree.Store as Store
use redis_pool.Map.Tree.Ops.{tree_remove_and_free}
use redis_pool.Pool.{Pool, get_redis}
use redis_pool.Server.{Peer, Server, done, pure, World, set_at, key_of}
use redis_pool.Server.Steps.{set_at_same}
use redis_pool.Server.Remove.{key_of_fd, deal_remove_client, remove_by_c}
use redis_pool.Server.Frontend.{server_is_busy, busy, with_conn, read_c, write_c}
use redis_pool.Server.Frontend.Reads.{came, with_bytes, read_c-received}

-- A client with nothing to send, for which the pool has no connection, and no entry in cToR.
pub record IsTurnedAway (w w' : World) (fd c : ℕ) (p : Peer) (rps : Pool) (t : Hash) (tree : Tree)
    (s : Server) : Type 0 where
  pub client_is : ((c == 0) ≡ false) × (s.peers c ≡ some p)
  pub socket : (p.fd == 0) ≡ false
  pub stays : (p.client.is_valid ≡ true) × (p.client.is_quit ≡ false)
  pub not_held : p.client.is_block ≡ false
  pub none_to_send : p.client.middle.wpos ≤ p.client.middle.rpos
  pub place : HasPlace p.client.cmds p.client.cmd_num
  pub empty_place : Filling p.client.cmds p.client.cmd_num []
  pub no_conn : get_redis w.dial s.rps ≡ some (0, rps)
  pub no_entry : hash_remove w'.room w'.fuel (key_of fd) s.c_to_r ≡ Hash.done 0 t
  pub in_tree : tree_remove_and_free w'.fuel (key_of_fd fd) s.clients ≡ Store.done tt tree
  pub goes_on : s.is_exit ≡ false

-- What readC and then writeC leave of the client: `x` is its state between the two.
pub record TurnedAway (c : ℕ) (p : Peer) (rps : Pool) (x : Client) (s s' s'' : Server)
    : Type 0 where
  pub answered : Added p.client.cmd_num (server_is_busy ++ nl) p.client.cmds x.cmds
  pub between : s'.peers c ≡ some (record p { client = x })
  pub kept : x.middle ≡ p.client.middle
  pub freed : s''.peers c ≡ none
  pub closed : s''.rps.closed ≡ p.fd ∷ rps.closed
  pub sent_none : s''.out ≡ s.out

module _ (w w' : World) (fd c : ℕ) (p : Peer) (rps : Pool) (t : Hash) (tree : Tree) (s : Server)
    (h : IsTurnedAway w w' fd c p rps t tree s) where
  removes :
      (q : Peer) (s1 : Server)
      → s1.peers c ≡ some q
      → q.fd ≡ p.fd
      → s1.c_to_r ≡ s.c_to_r
      → remove_by_c w' c (some fd) s1
        ≡ done tt (record s1 {
          peers = set_at s1.peers c none;
          rps = record s1.rps { closed = p.fd ∷ s1.rps.closed };
          c_to_r = t;
        })
  unfolding remove_by_c
  removes q s1 live socket table =
      let gone : hash_remove w'.room w'.fuel (key_of fd) s1.c_to_r ≡ Hash.done 0 t =
        ap (hash_remove w'.room w'.fuel (key_of fd)) table ∙ h.no_entry in
      let open_socket : (q.fd == 0) ≡ false = ap (λ k. k == 0) socket ∙ h.socket in
      ground (arith, h.client_is.0)

  leaves :
      (s1 : Server)
      → s1.clients ≡ s.clients
      → s1.is_exit ≡ false
      → deal_remove_client w' fd s1 ≡ done tt (record s1 { clients = tree })
  unfolding deal_remove_client
  leaves s1 clients exits =
      let gone : tree_remove_and_free w'.fuel (key_of_fd fd) s1.clients ≡ Store.done tt tree =
        ap (tree_remove_and_free w'.fuel (key_of_fd fd)) clients ∙ h.in_tree in
      ground arith

  write_c-quit :
      (q : Peer) (s1 : Server)
      → s1.peers c ≡ some q
      → q.fd ≡ p.fd
      → q.client.is_quit ≡ true
      → q.client.middle ≡ p.client.middle
      → s1.c_to_r ≡ s.c_to_r
      → s1.clients ≡ s.clients
      → s1.is_exit ≡ s.is_exit
      → write_c w' fd c s1
        ≡ done tt (record s1 {
          peers = set_at s1.peers c none;
          rps = record s1.rps { closed = p.fd ∷ s1.rps.closed };
          c_to_r = t;
          clients = tree;
        })
  unfolding write_c
  write_c-quit q s1 live socket quits same table clients exits =
      let over : leb q.client.middle.wpos q.client.middle.rpos ≡ true =
        ap (λ (a : BufferArray). leb a.wpos a.rpos) same ∙ ground (arith, h.none_to_send) in
      let s2 : Server = record s1 {
        peers = set_at s1.peers c none;
        rps = record s1.rps { closed = p.fd ∷ s1.rps.closed };
        c_to_r = t;
      } in
      ground (
        arith,
        h.client_is.0,
        removes q s1 live socket table,
        leaves s2 clients (exits ∙ h.goes_on),
      )

  busy_lem :
      (q : Peer) (s1 : Server)
      → AlwaysGives w.parser.os
      → s1.peers c ≡ some q
      → HasPlace q.client.cmds q.client.cmd_num
      → Filling q.client.cmds q.client.cmd_num []
      → (x : Client) × (busy w c s1
          ≡ done tt (record s1 {
            peers =
                set_at
                  (set_at s1.peers c
                    (some (record q { client = record q.client { is_quit = true } })))
                  c
                  (some (record q { client = x }));
          }))
        × (x.is_quit ≡ true)
        × (x.middle ≡ q.client.middle)
        × Added q.client.cmd_num (server_is_busy ++ nl) q.client.cmds x.cmds
  busy_lem q s1 gives live place filling =
      let y : Client = record q.client { is_quit = true } in
      let (a, e, added) =
        add_reply_by_size-Filling w.parser.os gives y [] server_is_busy place filling
          (omega arith) in
      let x : Client = record y {
        cmds = a;
        calls = y.calls + 1 + 1;
        cmd_num = (y.cmd_num + 1) % 2 ^ 64;
      } in
      let replies : add_reply_cmd w.parser.os server_is_busy y ≡ go tt x = rw e refl in
      (
        x,
        ground (arith, h.client_is.0, set_at_same s1.peers c (some (record q { client = y }))),
        refl,
        refl,
        added,
      )

  module _ (g : ℕ → ℕ) (gives : AlwaysGives w.parser.os) (block : w.block ≡ in_place g)
      (bytes : List ℕ) (comes : w.recv ≡ got bytes) (fresh_errno : w.again ≡ false)
      (valid : IsBuffer p.client.cmd) (short : length bytes ≤ per_iobuf_size)
      (few : p.client.cmd.wpos + length bytes < max_query_size) where
    -- For a client with nothing to send, for which the pool has no connection: when recv gives bytes, errno
    -- is not EAGAIN and the allocator gives memory, readC comes to its end with the line "-Server is Busy"
    -- in a new buffer of the client's array of commands, at the end of it, and nothing in `middle`; the
    -- next writeC closes the socket of the client and frees it, and has sent nothing.
    pub read_c-turns_away :
        (s' : Server) × (s'' : Server) × (x : Client) × (read_c w fd c s ≡ done tt s')
        × (write_c w' fd c s' ≡ done tt s'')
        × TurnedAway c p rps x s s' s''
    unfolding with_conn
    read_c-turns_away =
        let r = base_read-got g bytes p.client short valid few in
        let y = (came g bytes p).1 in
        let q : Peer = record p { client = y } in
        let kept = r.rest_kept in
        let s1 = with_bytes g bytes c p s in
        let s2 : Server = record s1 { rps = rps } in
        let valid' : y.is_valid ≡ true = ap (λ x. x.is_valid) kept ∙ h.stays.0 in
        let stays : y.is_quit ≡ false = ap (λ x. x.is_quit) kept ∙ h.stays.1 in
        let not_held : y.is_block ≡ false = ap (λ x. x.is_block) kept ∙ h.not_held in
        let num : y.cmd_num ≡ p.client.cmd_num = ap (λ x. x.cmd_num) kept in
        let cmds : y.cmds ≡ p.client.cmds = ap (λ x. x.cmds) kept in
        let place =
          subst (λ k. HasPlace y.cmds k) (sym num)
            (subst (λ a. HasPlace a p.client.cmd_num) (sym cmds) h.place) in
        let filling =
          subst (λ k. Filling y.cmds k []) (sym num)
            (subst (λ a. Filling a p.client.cmd_num []) (sym cmds) h.empty_place) in
        let live = set_at_same s.peers c (some q) in
        let (x, e, quits, middle, added) = busy_lem q s2 gives live place filling in
        let s3 : Server = record s2 {
          peers =
              set_at (set_at s2.peers c (some (record q { client = record y { is_quit = true } })))
                c (some (record p { client = x }));
        } in
        let live3 : s3.peers c ≡ some (record p { client = x }) =
          set_at_same (set_at s2.peers c (some (record q { client = record y { is_quit = true } })))
            c (some (record p { client = x })) in
        let same : x.middle ≡ p.client.middle = middle ∙ ap (λ z. z.middle) kept in
        let turned : with_conn w fd c s1 ≡ done tt s3 = ground arith in
        let stays' : (y.is_quit || w.again) ≡ false = ground arith in
        let no_stop : (not y.is_valid || (y.is_quit || w.again)) ≡ false = ground arith in
        (
          s3,
          record s3 {
            peers = set_at s3.peers c none;
            rps = record s3.rps { closed = p.fd ∷ s3.rps.closed };
            c_to_r = t;
            clients = tree;
          },
          x,
          read_c-received w g fd c p s bytes h.client_is.0 h.client_is.1 h.stays.1 block comes
                r.status
              ∙ ap (λ b. (if b then pure tt else with_conn w fd c) s1) no_stop
              ∙ turned,
          write_c-quit (record p { client = x }) s3 live3 refl quits same refl refl refl,
          record {
            answered =
                subst (λ k. Added k (server_is_busy ++ nl) p.client.cmds x.cmds) num
                  (subst (λ a. Added y.cmd_num (server_is_busy ++ nl) a x.cmds) cmds added);
            between = live3;
            kept = same;
            freed = set_at_same s3.peers c none;
            closed = refl;
            sent_none = refl;
          },
        )
