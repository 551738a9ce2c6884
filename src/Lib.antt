-- ===== src/Lib.antt =====
-- Verification of srpc, the UDP-based remote procedure calls of the Homework database's clients
-- (srpc.c with endpoint.c, tslist.c, stable.c, crecord.c and ctable.c), and of two of its clients:
-- dpilogger.c, which classifies captured packets, and dpipersist.c, which stores the database's flows.
--
-- The parts. A client calls rpc_connect, rpc_call and rpc_disconnect; a server calls rpc_offer,
-- rpc_query and rpc_response. Each connection has a record (crecord.c) in a hash table (ctable.c)
-- under the endpoint of the other side (endpoint.c); a server's offered services stand in another
-- table (stable.c), each with a queue of queries (tslist.c). One thread, the reader, handles every
-- datagram that arrives; another, the timer, scans the table each 20 ms, sends again what was not
-- answered, pings idle connections and purges dead ones. All of them share the table under one mutex.
--
-- The files.
--   Prelude    tests on numbers, lists and their lemmas.
--   Endpoint   endpoint.c: `memeq`, `endpoint_equal`, `endpoint_hash`. `htonl` and its companions are
--              the interface `ByteOrder`, an instance argument, with their documented laws.
--   Tslist     tslist.c, on an explicit heap; Tslist/Queue relates it to a queue.
--   Stable     stable.c: the service table, with the signed hash of the names.
--   Payload    the commands, message layouts and constants of srpc.c and srpcdefs.h.
--   Crecord    crecord.c: the connection record, its setters and the wait for a state.
--   Ctable     ctable.c: the connection table, its scan, the subports; children for its proofs.
--   Srpc       srpc.c: the shared state; Srpc/Reader has one function for each case of the reader's
--              switch, Srpc/Timer one tick of the timer. Srpc/Sending cuts a message into pieces,
--              Srpc/Call is rpc_call and rpc_response, Srpc/Interface the rest of the interface.
--              Srpc/Delivery follows a message in fragments through the server's reader;
--              Srpc/Runs lets the reader, the timer and the interface interleave,
--              from the state that rpc_init of Srpc/Start makes; Srpc/Runs/Blocks follows the blocks
--              of fragmented messages through such runs. Srpc/Reader/Effects is what one datagram
--              can do to a record, Srpc/Reader/Safe which datagrams are harmless, and Srpc/Serving a
--              connection in service and the runs of a process that only serves, and
--              in Srpc/Serving/Safety the accesses of its reader. Srpc/Trip follows
--              a call of one piece from the client to the service and back, or to nobody; Srpc/Timer
--              has what a tick does to each bucket.
--   Dpilogger  dpilogger.c: the headers of a packet and the key of its flow. Dpilogger/Flows is the table
--              of flows, its accounting and its collection, over the interface `HashTable` of
--              libhashish's tables; Dpilogger/Capture is get_id and process_packet. libhashish keeps
--              pointers to keys, and those of the hosts are gone when get_id returns, so a search
--              for a host may come to a `dead_key`, which is a fault;
--              Dpilogger/Options the options and the start.
--   Dpipersist dpipersist.c: the command line. Dpipersist/Results is mon_convert, mon_free and
--              processresults; Dpipersist/Polling the loop of main; Dpipersist/Rotation the thread that
--              changes the file, and how both threads share it; Dpipersist/Setup what main acquires
--              and releases. Berkeley DB is an `Answer`: whether it carries out a call, after all the
--              calls before.
--   Tests      runs and concrete instances.
-- A function has the source's name in snake case (crecord_setState is `crecord_set_state`).
--
-- The state. A chain of `next` pointers is a list, and a record knows its address (`self`), by which
-- the code compares pointers. A write through a pointer is `store`. Machine integers are natural
-- numbers with their wrap-around written out; `unsigned long` has 64 bits, `int` 32. An access
-- outside an object or through NULL is the result `fault`, and ends a run. Handlers run under the
-- table's mutex, so each is one step, and a call of the interface is a step up to each of its waits.
-- The clients' runs end by a result, an exit status or a `fault` (Prelude/Endings). Loops over lists
-- are structural, so no fuel is needed; the reader's endless loop runs over the list of what
-- `recvfrom` gives, and the polling loop of dpipersist.c over what its rounds get.
--
-- Not modelled: allocation failure where the code does not look at it, the sockets and threads
-- themselves, printing, mem.c (wrappers of malloc and free), the end of dpipersist.c's main while the
-- rotation thread runs (but for its close of the file), and the copies of OpenDPI and libhashish. A
-- message that is sent may be lost: `send_payload` only lists it.
pub mod Prelude
pub mod Endpoint
pub mod Tslist
pub mod Stable
pub mod Payload
pub mod Crecord
pub mod Ctable
pub mod Srpc
pub mod Dpilogger
pub mod Dpipersist
mod Tests
