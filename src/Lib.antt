-- ===== src/Lib.antt =====
-- The redis connection pool, a proxy that keeps connections to redis servers and hands the
-- commands of its clients on to them. A server process accepts clients and starts workers
-- (src/net/server.c, src/sync/), each worker reads commands from its clients (src/net/client.c,
-- src/proto/multibulk.c) into arrays of byte buffers (src/types.c), borrows a connection from a
-- pool (src/net/pool.c), and keeps its clients in a tree (src/map/tree.c) and the pairs of a
-- client and its connection in two hashes (src/map/hash.c). src/cmd.c turns signals and the
-- command line into starts and ends of the workers.
--
-- The files and the code:
--   Base: lists, Boolean tests and integers that the parts share
--   Types: src/types.c. Types.Number is parseInt; Types.Memory has memcpy, memset and realloc on
--     one block of bytes; Types.Buffer is struct buffer with newBuff, resizeBuff, srangeBuff,
--     isBuffEof, isBuffEnough and addBuff
--   Crc32: src/crc32.c: the table, and crc32 as a loop over it; Crc32.Bitwise is the division by
--     the polynomial, one bit at a time
--   Map: src/map/tree.c and src/map/tree.h. Map.Tree.Store has struct treeNode and struct tree,
--     the memory of the nodes, and the accessors leftOf to setColor; Map.Tree.Fix leftRotate,
--     rightRotate, fixAfterInsert and fixAfterRemove; Map.Tree.Ops newTree, treeGet, treePut,
--     treeRemove, freeTree and what they call. Map.Tree.Shape is the search tree that the nodes in
--     memory form; Map.Tree.Foreach is the macro FOREACH_TREE. Map.Hash is src/map/hash.c, with
--     mapKey and hashCode of src/map/map.c; Map.Hash.Put, Grow and Remove follow a key through the
--     chains, Map.Hash.Free is freeHash; Map.Values has the rest of src/map/map.c
--   RStack: src/rstack.c: newRStack, isEmptyRStack, pushRStack and popRStack
--   Pool: src/net/pool.c: newRedis, getRedis, putRedis, freeRedis and delRedis; Pool.Idle is the
--     list of idle connections, Pool.Counts the counters over runs of operations, Pool.Init
--     initPool
--   Types.Array: struct bufferArray of src/types.c with newBuffArr, resizeArrayBuff,
--     srangeArrayBuff, addBuffer and clearArrayBuff; Types.Array.Transfer has mvArrayBuff.
--     Types.Array.Append and Types.Array.Move are about addBuffer and mvArrayBuff,
--     Types.Array.Empties is the move of a whole array, Types.Array.Faults about accesses outside
--     of a block; Types.Trim is trim of src/types.c
--   Client: src/net/client.c and struct client of src/net/s.h: newClient and addReplyBySize;
--     Client.Read is baseRead over an answer of recv, Client.Write baseWrite over a list of
--     answers of send, Client.Socket the options of a socket
--   Multibulk: src/proto/multibulk.c: processClient, processCmds and parseInputBuffNum as actions
--     on a client. Multibulk.Redis has processRedis. Multibulk.Line, Copy, Command, Forward and
--     Arrives follow the bytes of one command from recv to its buffer; Refuses, Overflow and
--     StatusLine are about other input
--   Sync: src/sync/interface.c: newSync and callSync; Sync.Process is src/sync/process.c,
--     Sync.Thread src/sync/thread.c, Sync.Dispatch the macro CALL, Sync.Order describes the calls
--     of callSync by what stands in their list, Sync.Runs follows a worker, and Sync.Title is
--     setProcessTitle
--   Server: src/net/server.c. Server has struct server of src/net/s.h and the monad of the
--     callbacks; Server.Remove is removeRC, removeByR, removeByC and dealRemoveClient, with
--     delRedis, putRedis, getRedis and freeClient on the state of the worker; Server.Backend readR
--     and writeR; Server.Frontend readC and writeC. Server.Frontend.Sends and HandsOn follow a
--     command through readC, Reads and Busy a client that is left alone or turned away;
--     Server.Backend.Replies and HandsBack follow a reply through readR, Server.Backend.Dangling
--     is a write that fails. Server.Socks is struct sock with newSock and writeS,
--     Server.Socks.Numbers updateMin and a part of readS, Server.Socks.Accept acceptC and the
--     other part; Server.Socks.Idle is about runs of these. Server.Listen has getTcpFd, getUnixFd,
--     connectTcpFd, connectUnixFd and setTimeOut; Server.Start run and initServer,
--     Server.Start.Sound its settings, Server.Worker worker and task, Server.Restart restartWorker
--   Cmd: src/cmd.c: iniCmd with isStart, isReStart and isStop, stopWorker, installSignal and
--     dealSingal; Cmd.Hangup is about SIGHUP
-- A function of the source has its name here, in lower case: treePut is tree_put. The code that
-- changes a tree runs in a monad over the state of the tree, and ends in `done` with a result, in
-- `fault` where it uses a pointer to no node, or in `out_of_fuel`. A pointer is a number and NULL
-- is 0; the answer of malloc is an argument. size_t and the 32-bit types wrap around in writing. A
-- write behind the end of a block of bytes is counted, as `stray`, and does not change the block.
-- A function on a client is an action that comes to its end, returns early with a status, or
-- crashes where it leaves the memory that is allocated; what recv, send and the allocator answer
-- are arguments.
--
-- Loops: parseInt and crc32 recurse on the bytes that are left. The loops over a tree and over the
-- connections run on fuel. A theorem asks for more fuel than the height of the tree, which is
-- enough for each descent, than twice its nodes for the visit of all, or than the idle connections
-- behind the first, and says that the operation is done. processClient runs on fuel too, and two
-- turns are enough for one command; the loops over arguments and replies recurse on their number,
-- and baseWrite on the answers of send. The key of a node is an int, given by its distance from
-- INT_MIN.
--
-- A callback of a worker is an action on the state of the worker, given what the system answers to
-- it. It ends in `done`, in `fault` where it uses a pointer to no struct, in `exits` where it
-- calls exit, or in `out_of_fuel`. Its fuel bounds the search in a chain of a table, the search in
-- the tree and the turns of processClient: two are enough where a chain has at most one node.
-- stopWorker asks for twice the nodes of the tree, as FOREACH_TREE does. The configuration is the
-- values that iniparser gives.
--
-- Not modelled: setCmds and the tables of commands of src/net/pool.c, which are cut out of texts
-- by strtok; the events (newClientE, freeClientE and src/event/), which are calls of libevent; the
-- times of the last messages, the mutex around the tree of the clients, and the log, the pid file
-- and the daemon mode in run of src/net/server.c; freeServer, freeSock and freePool, which only
-- free; saveArgs and setDaemonize of src/sync/process.c; readSg of src/cmd.c and src/main.c, which
-- call what is modelled; the logs (src/debug/). Of the results of malloc and realloc only what
-- their manuals say is used.
pub mod Base
pub mod Types
pub mod Client
pub mod Multibulk
pub mod Sync
pub mod Crc32
pub mod RStack
pub mod Map
pub mod Pool
pub mod Server
pub mod Cmd
