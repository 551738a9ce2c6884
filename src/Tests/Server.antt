-- ===== src/Tests/Server.antt =====
-- The theorems about the reader and the timer at concrete inputs.
use hwdb_opendpi.Prelude.{
  ℕ, ◌+◌, ◌-◌, List, ◌<◌, ◌≡◌, ◌↔◌, refl, inl, some, [], ◌∷◌, ◌++◌, arith, length, replicate,
  get_or, set, true, false, none,
}
use hwdb_opendpi.Endpoint.{RpcEndpoint, endpoint_complete}
use hwdb_opendpi.Payload.{cmd_query, cmd_fragment, cmd_qack, cp_size, fr_size}
use hwdb_opendpi.Stable.{Stable}
use hwdb_opendpi.Ctable.{ctable_lookup}
use hwdb_opendpi.Srpc.Start.{Answers, Own, rpc_init, rpc_init-Reach}
use hwdb_opendpi.Srpc.{Srpc, Queue, Request, ok, fault, data_offset, enqueue, push_to, copied}
use hwdb_opendpi.Srpc.Reader.{Datagram, buf_size, arrival, ctl, reader, reader_loop}
use hwdb_opendpi.Srpc.Reader.Keeps.{IsSrpc}
use hwdb_opendpi.Srpc.Reader.Queries.{query_once}
use hwdb_opendpi.Srpc.Reader.Faults.{fragment_overflow}
use hwdb_opendpi.Srpc.Sending.{fragments_of}
use hwdb_opendpi.Srpc.Delivery.Fragmented.{arriving, datagrams, answers, fragmented_query}
use hwdb_opendpi.Srpc.Runs.{Reach, here, next, ticks, Reach-IsSrpc}
use hwdb_opendpi.Srpc.Timer.{timer}
use hwdb_opendpi.Tests.Tables.{
  big_endian, host, client, hwdb, hash-hwdb, resting, one_client, one_client-IsTable,
  one_client_lookup,
}

abbrev pub services : Stable Queue
services = replicate 4 [] ++ (record { s_name = hwdb; s_queue = [] } ∷ []) ∷ replicate 8 []

-- A server that offers HWDB and has one connection, which is idle.
abbrev pub server : Srpc
server = record { ctable = one_client; stable = services; ctr = 0; brk = 2 }

pub server-IsSrpc : IsSrpc server
server-IsSrpc = record { table = one_client-IsTable; alive = omega arith; services = refl }

-- A message of 4 bytes from the client.
abbrev message : ℕ → ℕ → ℕ → Datagram
message command tlen n = record {
  sender = host 1;
  n = n;
  payload = record {
    hdr = record { subport = 65537; seqno = 2; command = command; fnum = 1; nfrags = 1 };
    dhdr = record { tlen = tlen; flen = 4 };
    bytes = 1 ∷ 2 ∷ 3 ∷ 4 ∷ [];
    size = buf_size;
  };
  sname = [];
}

abbrev pub query : Datagram
query = message cmd_query 4 20

client_known : ctable_lookup server.ctable (arrival query).ep ≡ some resting
unfolding endpoint_complete
client_known = one_client_lookup

abbrev pub request : Request
request = record { sender = client; packet = copied 20 query.payload; size = 20 }

abbrev queued : Stable Queue
queued = set services 4 (push_to hwdb request (get_or services 4 []))

enqueue-request : enqueue hwdb request services ≡ some queued
unfolding enqueue
enqueue-request = rw (hash-hwdb, enqueue)

query_once_example :
    (s' : Srpc) × (reader_loop 0 (replicate 3 (some query)) server
      ≡ ok s' (
          replicate 3 (record {
            to = client;
            packet = some (ctl (arrival query).ep cmd_qack (arrival query));
            size = cp_size;
          })))
    × (s'.stable ≡ queued)
query_once_example =
    query_once 0 2 query resting server hwdb queued (record { fits = omega arith; command = refl })
      server-IsSrpc refl client_known refl (inl refl) refl enqueue-request

fragment_overflow_example :
    (reader 0 (some (message cmd_fragment 4 1040)) server ≡ fault) ↔ (data_offset + 4 < 1040)
fragment_overflow_example =
    fragment_overflow 0 (message cmd_fragment 4 1040) resting server (omega arith) refl client_known
      refl refl refl

-- A message of two pieces.
abbrev long_message : List ℕ
long_message = replicate 1500 7

abbrev no_stale : ℕ → List ℕ
no_stale i = []

abbrev whole_request : Request
whole_request = record {
  sender = client;
  packet =
      record (arriving (host 1) client client 2 long_message hwdb no_stale cmd_fragment 1
        fr_size).payload { bytes = long_message; size = data_offset + length long_message };
  size = data_offset + length long_message;
}

abbrev queued_whole : Stable Queue
queued_whole = set services 4 (push_to hwdb whole_request (get_or services 4 []))

enqueue-whole_request : enqueue hwdb whole_request services ≡ some queued_whole
unfolding enqueue
enqueue-whole_request = rw (hash-hwdb, enqueue)

long_known : ctable_lookup server.ctable (endpoint_complete (host 1) 65537) ≡ some resting
unfolding endpoint_complete
long_known = one_client_lookup

fragmented_query_example :
    (s' : Srpc) × (reader_loop 0
        (datagrams
          (host 1)
          client
          client
          2
          long_message
          hwdb
          no_stale
          (fragments_of (length long_message) - 1)
          1)
        server
      ≡ ok s' (
          answers
            (host 1)
            client
            client
            2
            long_message
            hwdb
            no_stale
            (fragments_of (length long_message) - 1)
            1))
    × (s'.stable ≡ queued_whole)
fragmented_query_example =
    fragmented_query (host 1) client client 2 long_message hwdb no_stale 0 resting server
      queued_whole server-IsSrpc refl (omega arith) (omega arith) (omega arith) long_known
      (inl refl) refl refl refl enqueue-whole_request

Reach-IsSrpc_example : IsSrpc (timer server).0
Reach-IsSrpc_example = Reach-IsSrpc server (timer server).0 server-IsSrpc (next here (ticks refl))

abbrev sockets : Answers
sockets = record { binds = true; bound_port = 987; reader_starts = true; timer_starts = false }

abbrev nameless : Own
nameless = record { my_name = []; my_port = 0 }

rpc_init_example :
    ((rpc_init sockets none nameless server).0 ≡ false)
    × ((ep : RpcEndpoint)
        → ctable_lookup (rpc_init sockets none nameless server).2.ctable ep ≡ none)
    × ((t : Srpc) → Reach (rpc_init sockets none nameless server).2 t → IsSrpc t)
rpc_init_example = rpc_init-Reach sockets none nameless server (omega arith)
